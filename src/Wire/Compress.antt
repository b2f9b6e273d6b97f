-- ===== src/Wire/Compress.antt =====
-- BinaryWriter::Compress and the loop of BinaryReader::ReadData<string> that undoes it: a length in
-- groups of seven bits, highest group first, every byte but the last with its top bit set.
-- `& 0x7F` is `% 128`; `|= 0x80` on a group is `+ 128`; `>> (7 * i)` is `/ 2 ^ (7 * i)`.
use my_project_imserver.Base.{
  ℕ, zero, suc, ◌+◌, ◌-◌, ◌*◌, ◌/◌, ◌%◌, ◌^◌, ◌≤◌, ◌<◌, ◌≡◌, Bool, true, false, ◌&&◌, ◌⊎◌, inl, inr,
  [], ◌∷◌, ◌++◌, arith, ltb, ◌==◌, if◌then◌else◌, length, Bytes, All, IsByte,
}

abbrev pub is_empty : Bytes → Bool
is_empty [] = true
is_empty (b ∷ bs) = false

-- One round of the loop: group `i` of `len`, unless it is a leading zero.
abbrev compress_step : ℕ → ℕ → Bytes → Bytes
compress_step i len out =
    let c = len / 2 ^ (7 * i) % 128 in
    if (c == 0) && is_empty out then out else out ++ (if ltb 0 i then c + 128 else c) ∷ []

-- `for (int i = 4; i >= 0; i--)`, with the number of rounds that are left.
compress_loop : ℕ → ℕ → Bytes → Bytes
compress_loop zero len out = out
compress_loop (suc i) len out = compress_loop i len (compress_step i len out)

unfoldable pub compress : ℕ → Bytes
unfolding compress_loop
compress len = if ltb len 128 then (len % 128) ∷ [] else compress_loop 5 len []

-- The loop of the reader over what it has left, with `lenght` (an int: 32 bits) and `i`.
unfoldable pub length_loop : Bytes → ℕ → ℕ → ℕ × ℕ
length_loop [] lenght i = (lenght, i)
length_loop (b ∷ bs) lenght i =
    let lenght' = lenght * 128 % 0x1_0000_0000 + b % 128 in
    let more = length_loop bs lenght' (i + 1) in if b / 128 % 2 == 0 then (lenght', i) else more

-- What `compress` writes for each number of bytes.
compress_1 : (n : ℕ) → n < 128 → compress n ≡ n ∷ []
unfolding compress
compress_1 n h = ground arith

compress_2 : (n : ℕ) → 128 ≤ n → n < 0x4000 → compress n ≡ (n / 128 + 128) ∷ (n % 128) ∷ []
unfolding compress
compress_2 n lo hi = ground arith

compress_3 :
    (n : ℕ)
    → 0x4000 ≤ n
    → n < 0x20_0000
    → compress n ≡ (n / 0x4000 + 128) ∷ (n / 128 % 128 + 128) ∷ (n % 128) ∷ []
unfolding compress
compress_3 n lo hi = ground arith

compress_4 :
    (n : ℕ)
    → 0x20_0000 ≤ n
    → n < 0x1000_0000
    → compress n
      ≡ (n / 0x20_0000 + 128) ∷ (n / 0x4000 % 128 + 128) ∷ (n / 128 % 128 + 128) ∷ (n % 128) ∷ []
unfolding compress
compress_4 n lo hi = ground arith

compress_5 :
    (n : ℕ)
    → 0x1000_0000 ≤ n
    → n < 0x8000_0000
    → compress n
      ≡ (n / 0x1000_0000 + 128)
        ∷ (n / 0x20_0000 % 128 + 128)
        ∷ (n / 0x4000 % 128 + 128)
        ∷ (n / 128 % 128 + 128)
        ∷ (n % 128)
        ∷ []
unfolding compress
compress_5 n lo hi = ground arith

-- The five lengths of a compressed number.
compress_cases :
    (n : ℕ)
    → n < 0x8000_0000
    → (n < 128)
      ⊎ ((128 ≤ n) × (n < 0x4000))
      ⊎ ((0x4000 ≤ n) × (n < 0x20_0000))
      ⊎ ((0x20_0000 ≤ n) × (n < 0x1000_0000))
      ⊎ (0x1000_0000 ≤ n)
compress_cases n h = grind arith

abbrev pub Reads : ℕ → Bytes → Bytes → Type 0
Reads n out rest =
    (length_loop (out ++ rest) 0 0 ≡ (n, length out - 1))
    × (1 ≤ length out)
    × (length out ≤ 5)
    × All IsByte out

-- For every length below 2^31, the loop of ReadData<string> gets the length back from what
-- Compress wrote, whatever follows, and stops at its last byte; Compress writes one to five
-- bytes.
pub compress-Reads : (n : ℕ) (rest : Bytes) → n < 0x8000_0000 → Reads n (compress n) rest
unfolding length_loop
compress-Reads n rest h = elim (compress_cases n h) [
  | inl a ↦ rw (compress_1 n a) (ground arith)
  | inr (inl (a, b)) ↦ rw (compress_2 n a b) (ground arith)
  | inr (inr (inl (a, b))) ↦ rw (compress_3 n a b) (ground arith)
  | inr (inr (inr (inl (a, b)))) ↦ rw (compress_4 n a b) (ground arith)
  | inr (inr (inr (inr a))) ↦ rw (compress_5 n a h) (ground arith)
]
