-- ===== src/Examples/Wire.antt =====
-- The codec and the packages at concrete inputs.
use my_project_imserver.Base.{
  ◌≡◌, ◌≢◌, refl, arith, Bool, true, false, List, [], ◌∷◌, ◌++◌, Option, some, ◌<◌, ◌≤◌, ◌+◌,
  length, drop, append-nil, Bytes,
}
use my_project_imserver.Wire.Compress.{compress, length_loop}
use my_project_imserver.Wire.Reader.{
  Reader, got, fault, read_string, read_string-compress, read_string_overrun, read_string_bounds,
}
use my_project_imserver.Frame.Buffer.{BufferApi, byte_buffer}
use my_project_imserver.Frame.Receive.{done, out_of_fuel, chat_size, receive, on_read, next_package}
use my_project_imserver.Frame.Refinement.{shown, on_read-shown}
use my_project_imserver.Frame.Segments.{feed, feed-joined, joined, loop-ne-out_of_fuel}
use my_project_imserver.Frame.RoundTrip.{stream, deliver, chat_receive-stream}

read_string-compress_example :
    read_string (record { buffer = 1 ∷ 2 ∷ (compress 2 ++ (104 ∷ 105 ∷ 9 ∷ [])); index = 2 })
    ≡ got (104 ∷ 105 ∷ []) (record {
      buffer = 1 ∷ 2 ∷ (compress 2 ++ (104 ∷ 105 ∷ 9 ∷ []));
      index = 2 + length (compress 2) + 2;
    })
unfolding compress
read_string-compress_example =
    read_string-compress (104 ∷ 105 ∷ []) (1 ∷ 2 ∷ []) (9 ∷ []) (omega arith) (omega arith)

read_string_overrun_example :
    read_string (record { buffer = 1 ∷ 2 ∷ (compress 9 ++ (104 ∷ 105 ∷ [])); index = 2 }) ≡ fault
read_string_overrun_example =
    read_string_overrun 9 (1 ∷ 2 ∷ []) (104 ∷ 105 ∷ []) (omega arith) (omega arith) (omega arith)

abbrev hi_unread : Reader
hi_unread = record { buffer = 2 ∷ 104 ∷ 105 ∷ []; index = 0 }

abbrev hi_read : Reader
hi_read = record { buffer = 2 ∷ 104 ∷ 105 ∷ []; index = 3 }

read_string_bounds_example :
    (hi_read.buffer ≡ hi_unread.buffer)
    × (hi_unread.index < hi_read.index)
    × (hi_read.index ≤ length hi_unread.buffer + 1)
unfolding read_string length_loop
read_string_bounds_example =
    read_string_bounds hi_unread hi_read (104 ∷ 105 ∷ []) (omega arith) refl

-- A handler that keeps the bodies and refuses an empty one.
abbrev keep : Bytes → List Bytes → Option (Bool × List Bytes)
keep [] bodies = some (false, bodies)
keep (b ∷ bs) bodies = some (true, bodies ++ (b ∷ bs) ∷ [])

abbrev close : List Bytes → List Bytes
close bodies = bodies ++ [] ∷ []

abbrev two_packages : List Bytes
two_packages = (104 ∷ 105 ∷ []) ∷ [] ∷ []

chat_receive-stream_example :
    receive byte_buffer 4 chat_size keep close (stream 4 two_packages (8 ∷ 0 ∷ [])) []
    ≡ deliver keep close two_packages (8 ∷ 0 ∷ []) []
unfolding next_package
chat_receive-stream_example =
    chat_receive-stream keep close two_packages (8 ∷ 0 ∷ []) [] (omega arith, (omega arith, tt))
      refl

feed-joined_example :
    feed 4 chat_size
      (omega arith)
      keep
      close
      ((8 ∷ 0 ∷ []) ∷ (0 ∷ 0 ∷ 0 ∷ 0 ∷ []) ∷ (0 ∷ 2 ∷ 0 ∷ 0 ∷ 104 ∷ 105 ∷ []) ∷ [])
      (done [] [])
    ≡ receive byte_buffer 4 chat_size keep close
        (joined ((8 ∷ 0 ∷ []) ∷ (0 ∷ 0 ∷ 0 ∷ 0 ∷ []) ∷ (0 ∷ 2 ∷ 0 ∷ 0 ∷ 104 ∷ 105 ∷ []) ∷ []))
        []
feed-joined_example =
    feed-joined 4 chat_size (omega arith) keep close
      ((8 ∷ 0 ∷ []) ∷ (0 ∷ 0 ∷ 0 ∷ 0 ∷ []) ∷ (0 ∷ 2 ∷ 0 ∷ 0 ∷ 104 ∷ 105 ∷ []) ∷ []) [] (omega arith)

loop-ne-out_of_fuel_example :
    on_read byte_buffer 4 chat_size keep close 3 (8 ∷ 0 ∷ []) [] ≢ out_of_fuel
loop-ne-out_of_fuel_example =
    loop-ne-out_of_fuel 4 chat_size (omega arith) keep close 3 (8 ∷ 0 ∷ []) [] (omega arith)

-- A buffer in two parts, the first of which is read first.
abbrev two_parts : BufferApi
two_parts = record {
  Buf = Bytes × Bytes;
  readable = λ (front, back). front ++ back;
  retrieve = λ n (front, back). (drop n (front ++ back), []);
  readable-retrieve = λ n b h. append-nil (drop n (b.0 ++ b.1));
}

on_read-shown_example :
    shown two_parts (on_read two_parts 4 chat_size keep close 3 (8 ∷ [], 0 ∷ []) [])
    ≡ on_read byte_buffer 4 chat_size keep close 3 (8 ∷ 0 ∷ []) []
on_read-shown_example =
    on_read-shown two_parts 4 chat_size (omega arith) keep close 3 (8 ∷ [], 0 ∷ []) []
