-- ===== src/Prelude/Text.antt =====
-- Byte strings as lists of codes, and `std::to_string` on integers.
use Prim.Native.Char.{code}
use Prim.Native.String.{String}
use esphome_ble_remote.Prelude.{ltb, if◌then◌else◌}
use esphome_ble_remote.Prelude.Int.{ℤ, pos, negsuc}
use Prim.Native.Nat.{ℕ, zero, suc, ◌+◌, ◌/◌, ◌%◌}
use mathlib.Core.List.{List, [], ◌∷◌, ◌++◌}

abbrev pub Text : Type 0
Text = List ℕ

-- The bytes of a literal.
abbrev pub codes : String → Text
codes String.[] = []
codes (String.◌∷◌ c s) = code c ∷ codes s

-- The decimal digits of a number that has at most `fuel` of them.
unfoldable pub digits_from : ℕ → ℕ → Text
digits_from zero n = []
digits_from (suc fuel) n =
    let rest = digits_from fuel (n / 10) in
    if ltb n 10 then (n + 48) ∷ [] else rest ++ (n % 10 + 48) ∷ []

-- A 64-bit number has at most 20 decimal digits.
unfoldable pub nat_to_string : ℕ → Text
unfolding digits_from
nat_to_string n = digits_from 20 n

unfoldable pub int_to_string : ℤ → Text
unfolding nat_to_string
int_to_string (pos n) = nat_to_string n
int_to_string (negsuc n) = b'-' ∷ nat_to_string (suc n)

-- `%0wX` of a number below 16 ^ w.
hex_digit : ℕ → ℕ
hex_digit d = if ltb d 10 then d + 48 else d + 55

unfoldable pub hex_fixed : ℕ → ℕ → Text
unfolding hex_digit
hex_fixed zero n = []
hex_fixed (suc w) n = hex_fixed w (n / 16) ++ hex_digit (n % 16) ∷ []
