-- ===== src/Wire/Writer.antt =====
-- BinaryWriter of EdoyumIMServer/BinaryReader.h and BinaryReader.cpp. `m_index` is a uint32_t, and
-- wraps; WriteData<T> cuts or grows the buffer to `m_index + sizeof(T)` and copies the memory of its
-- argument, WriteData<string> appends to the buffer wherever `m_index` stands.
use my_project_imserver.Base.{
  ℕ, ◌+◌, ◌-◌, ◌%◌, ◌<◌, ◌≡◌, refl, ap, subst, [], ◌++◌, append-nil, arith, length, length-append,
  take, drop, replicate, take-append_left, take-eq_of_le, drop-eq_of_le, length-replicate, Bytes,
  IsWord, le_bytes, be_word, htonl, htonl_memory,
}
use my_project_imserver.Wire.Compress.{compress}

pub record Writer : Type 0 where
  pub buffer : Bytes
  pub index : ℕ

unfoldable pub new_writer : Writer
new_writer = record { buffer = []; index = 0 }

-- `std::string::resize`.
unfoldable pub resize : ℕ → Bytes → Bytes
resize n xs = take n xs ++ replicate (n - length xs) 0

-- `WriteData(const T&)` over the memory of its argument.
unfoldable pub write_data : Bytes → Writer → Writer
unfolding resize
write_data mem w =
    let n = length mem in
    let grown = resize (w.index + n) w.buffer in
    record {
      buffer = take w.index grown ++ (mem ++ drop (w.index + n) grown);
      index = (w.index + n) % 0x1_0000_0000;
    }

unfoldable pub write_string : Bytes → Writer → Writer
write_string s w = record {
  buffer = w.buffer ++ (compress (length s) ++ s);
  index = (w.index + length (compress (length s)) + length s) % 0x1_0000_0000;
}

-- `WriteData(htonl(x))`.
unfoldable pub write_net : ℕ → Writer → Writer
write_net x w = write_data (le_bytes 4 (htonl x)) w

unfoldable pub clear : Writer → Writer
clear w = record { buffer = []; index = 0 }

-- `operator=(const string&)`, which leaves `m_index` at 0.
unfoldable pub assign : Bytes → Writer → Writer
unfolding clear
assign s w = record (clear w) { buffer = s }

unfoldable pub to_string : Writer → Bytes
to_string w = w.buffer

-- The writer has written `xs`, and its index is in step with its buffer.
pub record Holds (w : Writer) (xs : Bytes) : Type 0 where
  pub content : w.buffer ≡ xs
  pub in_step : w.index ≡ length xs

pub new_writer-Holds : Holds new_writer []
unfolding new_writer
new_writer-Holds = record { content = refl; in_step = refl }

pub clear-Holds : (w : Writer) → Holds (clear w) []
unfolding clear
clear-Holds w = record { content = refl; in_step = refl }

resize-grow : (n m : ℕ) (xs : Bytes) → m ≡ length xs → resize (m + n) xs ≡ xs ++ replicate n 0
unfolding resize
resize-grow n m xs h =
    rw (take-eq_of_le (m + n) xs (omega arith)) (ap (λ (k : ℕ). xs ++ replicate k 0) (omega arith))

-- An integer is written behind what is there.
pub write_data-Holds :
    (mem : Bytes) {w : Writer} {xs : Bytes}
    → Holds w xs
    → length xs + length mem < 0x1_0000_0000
    → Holds (write_data mem w) (xs ++ mem)
unfolding write_data
write_data-Holds mem {w} {xs} h fits = record {
  content = written (resize-grow (length mem) w.index w.buffer (rw h.content h.in_step));
  in_step = omega (arith, h.in_step, length-append xs mem);
}
  where
    written :
        resize (w.index + length mem) w.buffer ≡ w.buffer ++ replicate (length mem) 0
        → take w.index (resize (w.index + length mem) w.buffer)
            ++ (mem ++ drop (w.index + length mem) (resize (w.index + length mem) w.buffer))
          ≡ xs ++ mem
    written e =
        rw
          (
            e,
            h.content,
            take-append_left w.index xs (replicate (length mem) 0) h.in_step,
            drop-eq_of_le (w.index + length mem) (xs ++ replicate (length mem) 0) (
                omega (
                  arith,
                  h.in_step,
                  length-append xs (replicate (length mem) 0),
                  length-replicate {A = ℕ} (length mem) 0,
                )),
            append-nil,
          )
          refl

-- So is a number in network order, and a string behind its length.
pub write_net-Holds :
    (x : ℕ) {w : Writer} {xs : Bytes}
    → Holds w xs
    → IsWord x
    → length xs + 4 < 0x1_0000_0000
    → Holds (write_net x w) (xs ++ be_word x)
unfolding write_net
write_net-Holds x {w} {xs} h hx fits =
    subst (λ m. Holds (write_data (le_bytes 4 (htonl x)) w) (xs ++ m)) (htonl_memory x hx)
      (write_data-Holds (le_bytes 4 (htonl x)) h fits)

pub write_string-Holds :
    (s : Bytes) {w : Writer} {xs : Bytes}
    → Holds w xs
    → length xs + length (compress (length s)) + length s < 0x1_0000_0000
    → Holds (write_string s w) (xs ++ (compress (length s) ++ s))
unfolding write_string
write_string-Holds s {w} {xs} h fits = record {
  content = rw h.content;
  in_step = omega (
    arith,
    h.in_step,
    length-append xs (compress (length s) ++ s),
    length-append (compress (length s)) s,
  );
}
