-- ===== src/Base/Text.antt =====
-- Text as bytes: literals, and decimal numbers as `operator<<` and `%d` print them.
use Prim.Native.Nat.{ℕ, zero, suc, ◌+◌, ◌-◌, ◌/◌, ◌%◌}
use Prim.Native.Char.{code}
use Prim.Native.String.{String}
use mathlib.Core.List.{[], ◌∷◌, ◌++◌}
use my_project_imserver.Base.Tests.{ltb, ◌==◌, if◌then◌else◌}
use my_project_imserver.Base.Words.{Bytes}

-- The bytes of an ASCII text.
abbrev pub codes : String → Bytes
codes String.[] = []
codes (String.◌∷◌ c s) = code c ∷ codes s

-- The UTF-8 bytes of a character below 2 ^ 16, and of a text of such characters.
abbrev utf8_char : ℕ → Bytes
utf8_char c =
    if ltb c 0x80
    then c ∷ []
    else if ltb c 0x800
    then (192 + c / 64) ∷ (128 + c % 64) ∷ []
    else (224 + c / 4096) ∷ (128 + c / 64 % 64) ∷ (128 + c % 64) ∷ []

abbrev pub utf8 : String → Bytes
utf8 String.[] = []
utf8 (String.◌∷◌ c s) = utf8_char (code c) ++ utf8 s

-- An int has ten decimal digits at most.
show_digits : ℕ → ℕ → Bytes
show_digits zero n = []
show_digits (suc k) n =
    let front = show_digits k (n / 10) in
    if ltb n 10 then (n + b'0') ∷ [] else front ++ (n % 10 + b'0') ∷ []

unfoldable pub show_int : ℕ → Bytes
unfolding show_digits
show_int w =
    if ltb w 0x8000_0000 then show_digits 10 w else b'-' ∷ show_digits 10 (0x1_0000_0000 - w)

-- A `const char *` ends at its first NUL.
abbrev pub c_text : Bytes → Bytes
c_text [] = []
c_text (c ∷ cs) = let rest = c_text cs in if c == 0 then [] else c ∷ rest
