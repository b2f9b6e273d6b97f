-- ===== src/Wire/Reader.antt =====
-- BinaryReader of EdoyumIMServer/BinaryReader.h and BinaryReader.cpp.
-- ReadData<T> checks the bounds and reports; ReadData<string> checks nothing: where it would read
-- past the terminating NUL of the buffer, or hand a negative length to std::string::assign (which
-- throws std::length_error), the model answers `fault`.
use my_project_imserver.Base.{
  ℕ, ◌+◌, ◌*◌, ◌%◌, ◌≤◌, ◌<◌, ◌≡◌, refl, [], ◌∷◌, ◌++◌, append_assoc, arith, if◌then◌else◌, ltb,
  leb, length, length-append, length-drop, take, drop, take-append_left, drop-append_left, Bytes,
  IsWord, le_value, be_word, ◌==◌, ◌≢◌,
}
use mathlib.Core.List.{reverse}
use my_project_imserver.Wire.Compress.{compress, length_loop, compress-Reads}

pub record Reader : Type 0 where
  pub buffer : Bytes
  pub index : ℕ

-- `refused` is the result false.
pub data ReadResult (A : Type 0) : Type 0 where
  refused fault : ReadResult A
  got : A → Reader → ReadResult A

unfoldable pub new_reader : Bytes → Reader
new_reader s = record { buffer = s; index = 0 }

-- `ReadData<T>` for a T of `n` bytes: the bytes in reverse are the memory of the result.
unfoldable pub read_data : ℕ → Reader → ReadResult ℕ
read_data n r =
    if ltb (length r.buffer) (r.index + n)
    then refused
    else got (le_value (reverse (take n (drop r.index r.buffer))))
        (record r { index = (r.index + n) % 0x1_0000_0000 })

-- `data.assign(m_buffer.c_str() + m_index, lenght)` and the step over it.
unfoldable pub assign_text : ℕ → Reader → ReadResult Bytes
assign_text lenght r =
    if leb 0x8000_0000 lenght
    then fault
    else if lenght == 0
    then got [] r
    else if ltb (length r.buffer + 1) (r.index + lenght)
    then fault
    else got (take lenght (drop r.index (r.buffer ++ 0 ∷ [])))
        (record r { index = (r.index + lenght) % 0x1_0000_0000 })

-- `ReadData<string>`.
unfoldable pub read_string : Reader → ReadResult Bytes
unfolding assign_text
read_string r =
    let (lenght, i) = length_loop (drop r.index r.buffer) 0 0 in
    if ltb (length r.buffer) r.index
    then fault
    else assign_text lenght (record r { index = (r.index + i + 1) % 0x1_0000_0000 })

-- `ReadInt32`, a plain copy in host order, which wants a byte behind the integer.
unfoldable pub read_int32 : Reader → ReadResult ℕ
read_int32 r =
    if leb (length r.buffer) (r.index + 4)
    then refused
    else got (le_value (take 4 (drop r.index r.buffer)))
        (record r { index = (r.index + 4) % 0x1_0000_0000 })

-- ReadData<int> gets back the number that the writer put in network order.
pub read_data-be_word :
    (x : ℕ) (front rest : Bytes)
    → IsWord x
    → length front + 4 < 0x1_0000_0000
    → read_data 4 (record { buffer = front ++ (be_word x ++ rest); index = length front })
      ≡ got x (record { buffer = front ++ (be_word x ++ rest); index = length front + 4 })
unfolding read_data
read_data-be_word x front rest hx fits = ground (
  arith,
  drop-append_left (length front) front (be_word x ++ rest) refl,
  length-append front (be_word x ++ rest),
)

text_at :
    (s pre rest : Bytes) (k : ℕ)
    → k ≡ length pre
    → take (length s) (drop k ((pre ++ (s ++ rest)) ++ 0 ∷ [])) ≡ s
text_at s pre rest k h =
    rw
      (
        append_assoc pre (s ++ rest) (0 ∷ []),
        drop-append_left k pre ((s ++ rest) ++ 0 ∷ []) h,
        append_assoc s rest (0 ∷ []),
      )
      (take-append_left (length s) s (rest ++ 0 ∷ []) refl)

assign_text-got :
    (s pre rest : Bytes) (k : ℕ)
    → k ≡ length pre
    → length s < 0x8000_0000
    → k + length s < 0x1_0000_0000
    → assign_text (length s) (record { buffer = pre ++ (s ++ rest); index = k })
      ≡ got s (record { buffer = pre ++ (s ++ rest); index = k + length s })
unfolding assign_text
assign_text-got [] pre rest k h hs fits = ground arith
assign_text-got (c ∷ s) pre rest k h hs fits =
    ground (
      arith,
      text_at (c ∷ s) pre rest k h,
      length-append pre ((c ∷ s) ++ rest),
      length-append s rest,
    )

-- ReadData<string> gets back a string below 2^31 bytes that stands behind its compressed length,
-- anywhere in a buffer below 4 GiB, and leaves the index just behind it.
pub read_string-compress :
    (s front rest : Bytes)
    → length s < 0x8000_0000
    → length front + length (compress (length s)) + length s < 0x1_0000_0000
    → read_string
        (record { buffer = front ++ (compress (length s) ++ (s ++ rest)); index = length front })
      ≡ got s (record {
        buffer = front ++ (compress (length s) ++ (s ++ rest));
        index = length front + length (compress (length s)) + length s;
      })
unfolding read_string
read_string-compress s front rest hs fits =
    let head = compress (length s) in
    let (loop, lo, hi, _) = compress-Reads (length s) (s ++ rest) hs in
    rw (drop-append_left (length front) front (head ++ (s ++ rest)) refl, loop)
      (ground (
        arith,
        length-append front (head ++ (s ++ rest)),
        length-append front head,
        append_assoc front head (s ++ rest),
        assign_text-got s (front ++ head) rest (length front + length head),
      ))

-- It never reports false.
pub read_string-ne-refused : (r : Reader) → read_string r ≢ refused
unfolding read_string
read_string-ne-refused r = ground arith

-- Where a string's length announces at least two bytes more than the buffer still has,
-- ReadData<string> reads past the end of the buffer instead of reporting false.
pub read_string_overrun :
    (n : ℕ) (front rest : Bytes)
    → n < 0x8000_0000
    → length rest + 1 < n
    → length front + 5 < 0x1_0000_0000
    → read_string (record { buffer = front ++ (compress n ++ rest); index = length front }) ≡ fault
unfolding read_string assign_text
read_string_overrun n front rest hn short fits =
    let (loop, lo, hi, _) = compress-Reads n rest hn in
    rw (drop-append_left (length front) front (compress n ++ rest) refl, loop)
      (ground (arith, length-append front (compress n ++ rest), length-append (compress n) rest))

length_loop_index :
    (bs : Bytes) (lenght i : ℕ)
    → (i ≤ (length_loop bs lenght i).1) × ((length_loop bs lenght i).1 ≤ i + length bs)
unfolding length_loop
length_loop_index [] lenght i = omega arith
length_loop_index (b ∷ bs) lenght i =
    ground (arith, length_loop_index bs (lenght * 128 % 0x1_0000_0000 + b % 128) (i + 1))

-- Where ReadData<string> reads a string from a buffer below 4 GiB, the buffer stays, the index
-- moves on, and it ends at most one byte past the buffer.
pub read_string_bounds :
    (r r' : Reader) (s : Bytes)
    → length r.buffer + 1 < 0x1_0000_0000
    → read_string r ≡ got s r'
    → (r'.buffer ≡ r.buffer) × (r.index < r'.index) × (r'.index ≤ length r.buffer + 1)
unfolding read_string assign_text
read_string_bounds r r' s fits e =
    ground (arith, length_loop_index (drop r.index r.buffer) 0 0, length-drop r.index r.buffer)
