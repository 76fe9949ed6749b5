-- ===== src/Decode/Number.antt =====
-- What `read_bits_` reads: a slice of the number that the payload is, little-endian.
use native.Mathlib.Nat.{
  pow-suc, pow-succ', div-div-eq-div-mul, mod-lt, div-eq_of_lt, pow-le-pow_right,
}
use native.Mathlib.Decide.{dec_lt}
use native.Mathlib.Numerals.{towards_suc, add-one}
use esphome_ble_remote.Prelude.{
  ℕ, zero, suc, ◌+◌, ◌-◌, ◌*◌, ◌/◌, ◌%◌, ◌^◌, ◌≤◌, ◌<◌, ◌≡◌, ◌⊎◌, inl, inr, Bool, true, false, ◌&&◌,
  some, List, [], ◌∷◌, arith, length, get_or, All, ap, ◌∙◌, ltb, ◌==◌, if◌then◌else◌,
}
use esphome_ble_remote.Prelude.Int.{pos, negsuc}
use esphome_ble_remote.Prelude.Words.{test_bit, signed}
use esphome_ble_remote.Schema.Usage.{bytes}
use esphome_ble_remote.Decode.Bits.{read_bits, read_raw, sign_extend, out_of_bounds}

-- The payload as one number, its first byte the least.
abbrev pub number : List ℕ → ℕ
number [] = 0
number (b ∷ bs) = b + 256 * number bs

abbrev pub AreBytes : List ℕ → Type 0
AreBytes = All (λ b. b < 256)

-- The bit `k` of a byte is that of the number, at the front.
bit_of_first : (b n k : ℕ) → b < 256 → k < 8 → (b + 256 * n) / 2 ^ k % 2 ≡ b / 2 ^ k % 2
bit_of_first b n zero h lt = omega arith
bit_of_first b n (suc zero) h lt = omega arith
bit_of_first b n (suc (suc zero)) h lt = omega arith
bit_of_first b n (suc (suc (suc zero))) h lt = omega arith
bit_of_first b n (suc (suc (suc (suc zero)))) h lt = omega arith
bit_of_first b n (suc (suc (suc (suc (suc zero))))) h lt = omega arith
bit_of_first b n (suc (suc (suc (suc (suc (suc zero)))))) h lt = omega arith
bit_of_first b n (suc (suc (suc (suc (suc (suc (suc zero))))))) h lt = omega arith
bit_of_first b n (suc (suc (suc (suc (suc (suc (suc (suc k)))))))) h lt = absurd (omega arith)

power_eight : (k : ℕ) → 2 ^ (k + 8) ≡ 256 * 2 ^ k
power_eight k = simp towards_suc (omega arith)

skip_byte : (b n k : ℕ) → b < 256 → (b + 256 * n) / 2 ^ (k + 8) ≡ n / 2 ^ k
skip_byte b n k h =
    let first : (b + 256 * n) / 256 ≡ n = omega arith in
    rw (power_eight k, ← div-div-eq-div-mul (b + 256 * n) 256 (2 ^ k), first)

bit_of_number :
    (bs : List ℕ) (k : ℕ)
    → AreBytes bs
    → number bs / 2 ^ k % 2 ≡ get_or bs (k / 8) 0 / 2 ^ (k % 8) % 2
bit_of_number [] k h = ground arith
bit_of_number (b ∷ bs) k h = elim (dec_lt k 8) [
  | yes lt ↦
      let q : k / 8 ≡ 0 = omega arith in
      let r : k % 8 ≡ k = omega arith in rw (q, r) (bit_of_first b (number bs) k h.0 lt)
  | no ge ↦
      let e : k ≡ k - 8 + 8 = omega arith in
      let q : k / 8 ≡ suc ((k - 8) / 8) = omega arith in
      let r : k % 8 ≡ (k - 8) % 8 = omega arith in
      rw (q, r)
        (ap (λ n. (b + 256 * number bs) / 2 ^ n % 2) e
          ∙ ap (λ n. n % 2) (skip_byte b (number bs) (k - 8) h.0)
          ∙ bit_of_number bs (k - 8) h.1)
]

mod_double : (x p : ℕ) → 0 < p → x % (2 * p) ≡ x % 2 + 2 * (x / 2 % p)
mod_double x p h = grind arith

power_positive : (n : ℕ) → 0 < 2 ^ n
power_positive zero = omega arith
power_positive (suc n) = omega (arith, power_positive n, pow-suc 2 n)

pub read_raw-number :
    (bs : List ℕ) (offset count : ℕ)
    → AreBytes bs
    → read_raw bs offset count ≡ number bs / 2 ^ offset % 2 ^ count
unfolding read_raw
read_raw-number bs offset zero h = omega arith
read_raw-number bs offset (suc count) h =
    let bit : (if test_bit (get_or bs (offset / 8) 0) (offset % 8) then 1 else 0)
        ≡ number bs / 2 ^ offset % 2 =
      ground (arith, bit_of_number bs offset h) in
    let half : number bs / 2 ^ (offset + 1) ≡ number bs / 2 ^ offset / 2 =
      rw (add-one, pow-suc 2 offset, div-div-eq-div-mul (number bs) (2 ^ offset) 2) in
    let rest = read_raw-number bs (offset + 1) count h in
    let double = mod_double (number bs / 2 ^ offset) (2 ^ count) (power_positive count) in
    rw (bit, rest, half, pow-succ' 2 count, double)

top_quotient : (raw p : ℕ) → p ≤ raw → raw < 2 * p → raw / p ≡ 1
top_quotient raw p le lt = grind arith

top_bit : (raw p : ℕ) → raw < 2 * p → (raw / p % 2 == 1) ≡ (if ltb raw p then false else true)
top_bit raw p h = elim (dec_lt raw p) [
  | yes lt ↦ rw (div-eq_of_lt lt) (ground arith)
  | no ge ↦ rw (top_quotient raw p (omega arith) h) (ground arith)
]

extend_below :
    (raw p : ℕ) (small : Bool)
    → raw < 2 * p
    → 2 * p ≤ 4294967296
    → (small ≡ false) ⊎ (2 * p ≤ 2147483648)
    → (small ≡ true) ⊎ (2 * p ≡ 4294967296)
    → signed 32 (if small && raw / p % 2 == 1 then raw + (4294967296 - 2 * p) else raw)
      ≡ (if ltb raw p then pos raw else negsuc (2 * p - raw - 1))
extend_below raw p small h bound narrow wide = rw (top_bit raw p h) (ground arith)

power_bound : (m n : ℕ) → m ≤ n → 2 ^ m ≤ 2 ^ n
power_bound m n h = pow-le-pow_right (omega arith) h

signed-sign_extend :
    (raw k : ℕ)
    → k < 32
    → raw < 2 ^ suc k
    → signed 32 (sign_extend raw (suc k)) ≡ signed (suc k) raw
unfolding sign_extend
signed-sign_extend raw k h lt =
    let less : suc k - 1 ≡ k = omega arith in
    let double : 2 ^ suc k ≡ 2 * 2 ^ k = pow-succ' 2 k in
    rw (less, double)
      (extend_below raw (2 ^ k) (ltb (suc k) 32) (rw double at lt)
        (rw (← double) (power_bound (suc k) 32 h)) (narrow (dec_lt (suc k) 32))
        (wide (dec_lt (suc k) 32)))
  where
    narrow : Dec (suc k < 32) → (ltb (suc k) 32 ≡ false) ⊎ (2 * 2 ^ k ≤ 2147483648)
    narrow (yes below) = inr (rw (← pow-succ' 2 k) (power_bound (suc k) 31 (omega arith)))
    narrow (no above) = inl (ground arith)

    wide : Dec (suc k < 32) → (ltb (suc k) 32 ≡ true) ⊎ (2 * 2 ^ k ≡ 4294967296)
    wide (yes below) = inl (ground arith)
    wide (no above) = let e : k ≡ 31 = omega arith in inr (rw e)

-- The bits that a read covers, as a number.
abbrev pub slice : List ℕ → ℕ → ℕ → ℕ
slice bs offset count = number bs / 2 ^ offset % 2 ^ count

-- A read of 1 to 32 bits within a payload of bytes gives the bits at that place of the payload,
-- read as one little-endian number: as an unsigned number, or in two's complement.
pub read_bits-slice :
    (bs : List ℕ) (offset size : ℕ) (is_signed : Bool)
    → AreBytes bs
    → 0 < size
    → size ≤ 32
    → offset + size ≤ length bs * 8
    → read_bits (bytes bs) offset size is_signed
      ≡ some (if is_signed then signed size (slice bs offset size) else pos (slice bs offset size))
unfolding read_bits
read_bits-slice bs offset zero is_signed h p l e = elim p [ ]
read_bits-slice bs offset (suc k) is_signed h p l e =
    let inside : out_of_bounds (length bs) offset (suc k) ≡ false = ground arith in
    rw (inside, read_raw-number bs offset (suc k) h)
      (rw (
        signed-sign_extend (slice bs offset (suc k)) k (omega arith)
          (mod-lt _ (power_positive (suc k)))))
