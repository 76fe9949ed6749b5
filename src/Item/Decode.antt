-- ===== src/Item/Decode.antt =====
-- The signed decoder inverts two's complement at each item size.
use esphome_ble_remote.Prelude.{
  ℕ, zero, suc, ◌+◌, ◌-◌, ◌*◌, ◌/◌, ◌%◌, ◌^◌, ◌<◌, ◌≡◌, ◌⊎◌, inl, inr, List, [], ◌∷◌, arith, ◌++◌,
  subst,
}
use native.Mathlib.Nat.{pow-suc}
use esphome_ble_remote.Prelude.Int.{ℤ, pos, negsuc}
use esphome_ble_remote.Item.{decode_signed_hid_item, read_unsigned_item, signed_pattern, read_bytes}

-- The bit pattern of an integer in two's complement, an independent description.
abbrev pub encode : ℕ → ℤ → ℕ
encode width (pos n) = n
encode width (negsuc n) = 2 ^ width - n - 1

-- The range of a signed integer of that many bits.
abbrev pub Fits : ℕ → ℤ → Type 0
Fits width (pos n) = n < 2 ^ (width - 1)
Fits width (negsuc n) = n < 2 ^ (width - 1)

-- A short item carries 0, 1, 2 or 4 bytes.
abbrev pub IsSizeCode : ℕ → ℕ → Type 0
IsSizeCode item_info bytes =
    ((item_info % 4 ≡ 1) × (bytes ≡ 1))
    ⊎ (((item_info % 4 ≡ 2) × (bytes ≡ 2)) ⊎ ((item_info % 4 ≡ 3) × (bytes ≡ 4)))

pattern_8 :
    (junk : ℕ) (z : ℤ) → Fits 8 z → signed_pattern ((encode 8 z + junk * 2 ^ 8) % 2 ^ 8) 8 ≡ z
unfolding signed_pattern
pattern_8 junk (pos n) f = ground arith
pattern_8 junk (negsuc n) f = ground arith

pattern_16 :
    (junk : ℕ) (z : ℤ) → Fits 16 z → signed_pattern ((encode 16 z + junk * 2 ^ 16) % 2 ^ 16) 16 ≡ z
unfolding signed_pattern
pattern_16 junk (pos n) f = ground arith
pattern_16 junk (negsuc n) f = ground arith

pattern_32 :
    (junk : ℕ) (z : ℤ) → Fits 32 z → signed_pattern ((encode 32 z + junk * 2 ^ 32) % 2 ^ 32) 32 ≡ z
unfolding signed_pattern
pattern_32 junk (pos n) f = ground arith
pattern_32 junk (negsuc n) f = ground arith

-- At each item size (one, two or four bytes), decoding the two's complement pattern of an integer
-- that fits gives the integer back, whatever stands in the bits of the word above the item's.
pub decode_signed_hid_item-encode :
    (item_info bytes junk : ℕ) (z : ℤ)
    → IsSizeCode item_info bytes
    → Fits (bytes * 8) z
    → decode_signed_hid_item (encode (bytes * 8) z + junk * 2 ^ (bytes * 8)) item_info ≡ z
unfolding decode_signed_hid_item
decode_signed_hid_item-encode info bytes junk z (inl (c, b)) f =
    rw (c, b) (pattern_8 junk z (subst (λ n. Fits (n * 8) z) b f))
decode_signed_hid_item-encode info bytes junk z (inr (inl (c, b))) f =
    rw (c, b) (pattern_16 junk z (subst (λ n. Fits (n * 8) z) b f))
decode_signed_hid_item-encode info bytes junk z (inr (inr (c, b))) f =
    rw (c, b) (pattern_32 junk z (subst (λ n. Fits (n * 8) z) b f))

-- The little-endian bytes of a word, an independent description.
abbrev pub little_endian : ℕ → ℕ → List ℕ
little_endian zero word = []
little_endian (suc size) word = (word % 256) ∷ little_endian size (word / 256)

read_bytes-little_endian :
    (size word : ℕ) (rest : List ℕ)
    → word < 256 ^ size
    → read_bytes size (little_endian size word ++ rest) ≡ word
unfolding read_bytes
read_bytes-little_endian zero word rest h = omega arith
read_bytes-little_endian (suc size) word rest h =
    omega (arith, read_bytes-little_endian size (word / 256) rest (omega (arith, pow-suc 256 size)))

-- Reading back the little-endian bytes of a word that fits gives the word, whatever follows.
pub read_unsigned_item-little_endian :
    (size word : ℕ) (rest : List ℕ)
    → word < 256 ^ size
    → read_unsigned_item (little_endian size word ++ rest) size ≡ word
unfolding read_unsigned_item
read_unsigned_item-little_endian size word rest h = read_bytes-little_endian size word rest h
