-- ===== src/Buffer/Saturating.antt =====
-- The saturating addition is the exact sum, clamped to the int64_t range.
use esphome_ble_remote.Prelude.{◌≡◌, arith, if◌then◌else◌}
use esphome_ble_remote.Prelude.Int.{ℤ, pos, negsuc, ◌+ℤ◌, ◌≤ℤ◌, ltb_ℤ}
use esphome_ble_remote.Buffer.{saturating_add, int64_min, int64_max}

abbrev pub clamp : ℤ → ℤ
clamp z = if ltb_ℤ int64_max z then int64_max else if ltb_ℤ z int64_min then int64_min else z

abbrev pub IsInt64 : ℤ → Type 0
IsInt64 z = (int64_min ≤ℤ z) × (z ≤ℤ int64_max)

-- For two int64_t values, the guarded addition gives the exact sum clamped to the int64_t range.
pub saturating_add-clamp :
    (left right : ℤ)
    → IsInt64 left
    → IsInt64 right
    → saturating_add left right ≡ clamp (left +ℤ right)
unfolding saturating_add
saturating_add-clamp (pos a) (pos b) h k = ground arith
saturating_add-clamp (pos a) (negsuc b) h k = ground arith
saturating_add-clamp (negsuc a) (pos b) h k = ground arith
saturating_add-clamp (negsuc a) (negsuc b) h k = ground arith
