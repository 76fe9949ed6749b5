-- ===== src/Boot/Modifiers.antt =====
-- The loops over the modifiers of a keyboard and the buttons of a mouse, heard by a listener.
use esphome_ble_remote.Prelude.{
  ℕ, zero, suc, ◌+◌, ◌≤◌, ◌<◌, ◌≡◌, ◌≢◌, ◌⊎◌, refl, sym, ap, ◌∙◌, Bool, false, eqb, List, [], ◌∷◌,
  arith, length, get_or, All, Bool-cases, inl, inr,
}
use native.Mathlib.Nat.{add-zero}
use esphome_ble_remote.Prelude.Words.{test_bit}
use esphome_ble_remote.Boot.{modifier_value, modifier_loop}
use esphome_ble_remote.Boot.Replay.{Listener, hear, replay, replay_other}

abbrev pub modifier_field : ℕ → ℕ
modifier_field bit = 0xF100 + bit

abbrev pub modifier_usage : ℕ → ℕ
modifier_usage bit = 0xE0 + bit

pub get_or-modifier_loop :
    (bit : ℕ) (modifiers : List Bool) (byte j : ℕ)
    → j < length modifiers
    → get_or (modifier_loop bit modifiers byte).0 j false ≡ test_bit byte (bit + j)
unfolding modifier_loop
get_or-modifier_loop bit [] byte j h = elim h [ ]
get_or-modifier_loop bit (m ∷ ms) byte zero h = rw add-zero
get_or-modifier_loop bit (m ∷ ms) byte (suc j) h =
    get_or-modifier_loop (bit + 1) ms byte j (omega arith) ∙ ap (test_bit byte) (omega arith)

pub length-modifier_loop :
    (bit : ℕ) (modifiers : List Bool) (byte : ℕ)
    → length (modifier_loop bit modifiers byte).0 ≡ length modifiers
unfolding modifier_loop
length-modifier_loop bit [] byte = refl
length-modifier_loop bit (m ∷ ms) byte = ap suc (length-modifier_loop (bit + 1) ms byte)

-- The values of the loop from `bit` on belong to the fields of the bits from `bit` on.
pub modifier_loop_fields :
    (field_id bit : ℕ) (modifiers : List Bool) (byte : ℕ)
    → (field_id < 0xF100 + bit) ⊎ (0xF100 + bit + length modifiers ≤ field_id)
    → All (λ v. v.field_id ≢ field_id) (modifier_loop bit modifiers byte).1
unfolding modifier_loop modifier_value
modifier_loop_fields field_id bit [] byte h = tt
modifier_loop_fields field_id bit (m ∷ ms) byte h = elim (Bool-cases (eqb m (test_bit byte bit))) [
  | inl same ↦ rw same (modifier_loop_fields field_id (bit + 1) ms byte (ground arith))
  | inr other ↦
      rw other (ground arith, modifier_loop_fields field_id (bit + 1) ms byte (ground arith))
]

pub replay-modifier_loop :
    (bit : ℕ) (modifiers : List Bool) (byte j : ℕ) (heard : Listener)
    → j < length modifiers
    → bit + j < 8
    → heard (modifier_field (bit + j)) (modifier_usage (bit + j)) ≡ get_or modifiers j false
    → replay
        (modifier_loop bit modifiers byte).1
        heard
        (modifier_field (bit + j))
        (modifier_usage (bit + j))
      ≡ test_bit byte (bit + j)
unfolding modifier_loop modifier_value replay
replay-modifier_loop bit [] byte j heard h lt e = elim h [ ]
replay-modifier_loop bit (m ∷ ms) byte zero heard h lt e =
    let quiet = modifier_loop_fields (0xF100 + bit) (bit + 1) ms byte (ground arith) in
    elim (Bool-cases (eqb m (test_bit byte bit))) [
      | inl same ↦
          rw (same, add-zero)
            (ground (
              arith,
              replay_other (0xF100 + bit) (0xE0 + bit) (modifier_loop (bit + 1) ms byte).1 heard
                  quiet,
            ))
      | inr other ↦
          rw (other, add-zero)
            (ground (
              arith,
              replay_other (0xF100 + bit) (0xE0 + bit) (modifier_loop (bit + 1) ms byte).1
                  (hear (modifier_value bit (test_bit byte bit)) heard) quiet,
            ))
    ]
replay-modifier_loop bit (m ∷ ms) byte (suc j) heard h lt e =
    let step : bit + suc j ≡ (bit + 1) + j = omega arith in
    elim (Bool-cases (eqb m (test_bit byte bit))) [
      | inl same ↦
          rw (same, step)
            (replay-modifier_loop (bit + 1) ms byte j heard (ground arith) (ground arith)
              (rw (sym step) e))
      | inr other ↦
          rw (other, step)
            (replay-modifier_loop (bit + 1) ms byte j
              (hear (modifier_value bit (test_bit byte bit)) heard) (ground arith) (ground arith)
              (rw (sym step) (ground arith)))
    ]
