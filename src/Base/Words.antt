-- ===== src/Base/Words.antt =====
-- Machine words and byte strings of the host, a little-endian x86-64. A byte is a number below 256;
-- a word is its bit pattern, a number below 2 ^ 32 or 2 ^ 64, read as signed where the source does.
use Prim.Native.Nat.{ℕ, zero, suc, ◌+◌, ◌*◌, ◌/◌, ◌%◌, ◌<◌}
use mathlib.Core.Path.{◌≡◌}
use mathlib.Core.Bool.{Bool}
use mathlib.Core.List.{List, [], ◌∷◌, reverse}
use native.Mathlib.Omega.{arith}
use my_project_imserver.Base.Tests.{ltb}

-- A `std::string`, or any run of bytes.
abbrev pub Bytes : Type 0
Bytes = List ℕ

abbrev pub IsByte : ℕ → Type 0
IsByte b = b < 256

abbrev pub IsWord : ℕ → Type 0
IsWord w = w < 0x1_0000_0000

-- The memory of an integer of `n` bytes, lowest byte first, and the integer in such a memory.
abbrev pub le_bytes : ℕ → ℕ → Bytes
le_bytes zero w = []
le_bytes (suc n) w = (w % 256) ∷ le_bytes n (w / 256)

abbrev pub le_value : Bytes → ℕ
le_value [] = 0
le_value (b ∷ bs) = b + 256 * le_value bs

-- Network order.
abbrev pub be_word : ℕ → Bytes
be_word w = (w / 0x100_0000 % 256) ∷ (w / 0x1_0000 % 256) ∷ (w / 0x100 % 256) ∷ (w % 256) ∷ []

-- `htonl` and `htons` of the host: the bytes in reverse.
unfoldable pub htonl : ℕ → ℕ
htonl w = le_value (reverse (le_bytes 4 w))

unfoldable pub htons : ℕ → ℕ
htons w = le_value (reverse (le_bytes 2 w))

pub htonl_memory : (w : ℕ) → IsWord w → le_bytes 4 (htonl w) ≡ be_word w
unfolding htonl
htonl_memory w h = ground arith

pub htonl_involutive : (w : ℕ) → IsWord w → htonl (htonl w) ≡ w
unfolding htonl
htonl_involutive w h = omega arith

pub le_value-le_bytes_4 : (w : ℕ) → IsWord w → le_value (le_bytes 4 w) ≡ w
le_value-le_bytes_4 w h = omega arith

pub le_value-le_bytes_8 : (w : ℕ) → w < 0x1_0000_0000_0000_0000 → le_value (le_bytes 8 w) ≡ w
le_value-le_bytes_8 w h = omega arith

-- `<` of two `int32_t`: adding 2 ^ 31 turns the signed order into the order of the patterns.
abbrev pub slt : ℕ → ℕ → Bool
slt a b = ltb ((a + 0x8000_0000) % 0x1_0000_0000) ((b + 0x8000_0000) % 0x1_0000_0000)

-- The pattern of -1.
abbrev pub minus_one : ℕ
minus_one = 0xffff_ffff
