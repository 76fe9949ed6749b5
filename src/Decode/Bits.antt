-- ===== src/Decode/Bits.antt =====
-- HIDReportMap::read_bits_ (hid_parser.cpp).
use esphome_ble_remote.Prelude.{
  ℕ, zero, suc, ◌+◌, ◌-◌, ◌*◌, ◌/◌, ◌%◌, ◌^◌, Bool, ◌&&◌, ◌||◌, Option, none, some, List, ltb, ◌==◌,
  if◌then◌else◌, length, get_or,
}
use esphome_ble_remote.Prelude.Int.{ℤ, pos}
use esphome_ble_remote.Prelude.Words.{test_bit, signed}
use esphome_ble_remote.Schema.Usage.{Payload, null, bytes}

-- The loop over the bits, from bit `offset` of the data on: bit k of the result is bit
-- `offset + k` of the data. No two rounds set the same bit, so `|=` adds.
unfoldable pub read_raw : List ℕ → ℕ → ℕ → ℕ
read_raw bs offset zero = 0
read_raw bs offset (suc count) =
    (if test_bit (get_or bs (offset / 8) 0) (offset % 8) then 1 else 0)
    + 2 * read_raw bs (offset + 1) count

-- `raw |= UINT32_MAX << bit_size` sets the bits above the value, which are 0.
unfoldable pub sign_extend : ℕ → ℕ → ℕ
sign_extend raw bit_size =
    if ltb bit_size 32 && test_bit raw (bit_size - 1) then raw + (2 ^ 32 - 2 ^ bit_size) else raw

abbrev pub out_of_bounds : ℕ → ℕ → ℕ → Bool
out_of_bounds length bit_offset bit_size =
    bit_size == 0
    || ltb 32 bit_size
    || ltb (length * 8) bit_offset
    || ltb (length * 8 - bit_offset) bit_size

-- `none` is the result `false`.
unfoldable pub read_bits : Payload → ℕ → ℕ → Bool → Option ℤ
unfolding sign_extend
read_bits (null n) bit_offset bit_size signed_value = none
read_bits (bytes bs) bit_offset bit_size signed_value =
    if out_of_bounds (length bs) bit_offset bit_size
    then none
    else let raw = read_raw bs bit_offset bit_size in
      some (if signed_value then signed 32 (sign_extend raw bit_size) else pos raw)
