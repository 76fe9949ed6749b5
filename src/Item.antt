-- ===== src/Item.antt =====
-- components/ble_client_hid/hid_item_value.h, and the readers of one descriptor item at the top of
-- hid_parser.cpp. A byte is a number below 256, and a uint32_t one below 2 ^ 32.
pub mod Decode
use esphome_ble_remote.Prelude.{
  ℕ, zero, suc, ◌+◌, ◌-◌, ◌*◌, ◌/◌, ◌%◌, ◌^◌, List, [], ◌∷◌, ltb, ◌==◌, if◌then◌else◌,
}
use esphome_ble_remote.Prelude.Int.{ℤ, pos, negsuc, ltb_ℤ}
use esphome_ble_remote.Prelude.Words.{test_bit, u8}

-- The short-item size code, the two low bits of the prefix.
unfoldable pub hid_item_data_size : ℕ → ℕ
hid_item_data_size item_info =
    let encoded_size = item_info % 4 in if encoded_size == 3 then 4 else encoded_size

-- The difference `int64(value) - 2 ^ bit_count` is negative, since the mask keeps
-- `value` below 2 ^ bit_count.
unfoldable pub signed_pattern : ℕ → ℕ → ℤ
signed_pattern value bit_count =
    if test_bit value (bit_count - 1) then negsuc (2 ^ bit_count - value - 1) else pos value

unfoldable pub decode_signed_hid_item : ℕ → ℕ → ℤ
unfolding hid_item_data_size signed_pattern
decode_signed_hid_item value item_info =
    let byte_count = hid_item_data_size item_info in
    if byte_count == 0
    then pos 0
    else signed_pattern (value % 2 ^ (byte_count * 8)) (byte_count * 8)

-- The loop of `read_unsigned_item`, over the bytes from `data[i]` on: byte i goes 8 * i bits up.
-- The bytes do not overlap, so `|=` adds.
unfoldable pub read_bytes : ℕ → List ℕ → ℕ
read_bytes zero bytes = 0
read_bytes (suc size) [] = 0
read_bytes (suc size) (byte ∷ bytes) = byte + 256 * read_bytes size bytes

unfoldable pub read_unsigned_item : List ℕ → ℕ → ℕ
unfolding read_bytes
read_unsigned_item bytes size = read_bytes size bytes

unfoldable pub signed_or_unsigned_max : ℕ → ℕ → ℤ → ℤ
unfolding decode_signed_hid_item
signed_or_unsigned_max raw item_info minimum =
    if ltb_ℤ minimum (pos 0) then decode_signed_hid_item raw item_info else pos raw

-- The low nibble as a signed number: `nibble | 0xF0` as an int8_t is nibble - 16.
unfoldable pub decode_unit_exponent : ℕ → ℕ → ℤ
decode_unit_exponent raw item_size =
    let nibble = raw % 16 in if test_bit nibble 3 then negsuc (16 - nibble - 1) else pos nibble
