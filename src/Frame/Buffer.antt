-- ===== src/Frame/Buffer.antt =====
-- What the code relies on of the input buffer, which the network library provides: `peek` and
-- `readableBytes` show the bytes that have arrived and are not yet taken, `retrieve` takes some.
use my_project_imserver.Base.{ℕ, ◌≤◌, ◌≡◌, refl, length, drop, Bytes}

pub record BufferApi : Type 1 where
  pub Buf : Type 0
  pub readable : Buf → Bytes
  pub retrieve : ℕ → Buf → Buf
  pub readable-retrieve :
      (n : ℕ) (b : Buf) → n ≤ length (readable b) → readable (retrieve n b) ≡ drop n (readable b)

-- The buffer that is its readable bytes.
abbrev pub byte_buffer : BufferApi
byte_buffer = record {
  Buf = Bytes;
  readable = λ b. b;
  retrieve = drop;
  readable-retrieve = λ n b h. refl;
}
