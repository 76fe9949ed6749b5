-- ===== src/Prelude/Words.antt =====
-- Machine words as native numbers: the wrap-around of each width, and the bits of a word.
use Prim.Native.Nat.{ℕ, ◌+◌, ◌-◌, ◌/◌, ◌%◌, ◌^◌}
use mathlib.Core.Bool.{Bool}
use esphome_ble_remote.Prelude.{◌==◌, ltb, if◌then◌else◌}
use esphome_ble_remote.Prelude.Int.{ℤ, pos, negsuc}

abbrev pub u8 : ℕ → ℕ
u8 n = n % 256

abbrev pub u16 : ℕ → ℕ
u16 n = n % 65536

abbrev pub u32 : ℕ → ℕ
u32 n = n % 4294967296

abbrev pub u64 : ℕ → ℕ
u64 n = n % 18446744073709551616

-- uint32_t a - b.
abbrev pub sub_u32 : ℕ → ℕ → ℕ
sub_u32 a b = (a + 4294967296 - u32 b) % 4294967296

-- `(word & (1 << k)) != 0`.
abbrev pub test_bit : ℕ → ℕ → Bool
test_bit word k = word / 2 ^ k % 2 == 1

-- The number that a bit pattern below 2 ^ width stands for in two's complement.
abbrev pub signed : ℕ → ℕ → ℤ
signed width word = if ltb word (2 ^ (width - 1)) then pos word else negsuc (2 ^ width - word - 1)
