-- ===== src/Boot/Replay.antt =====
-- A listener that keeps, for each field and usage, whether it was last asserted.
use esphome_ble_remote.Prelude.{
  ℕ, ◌≡◌, ◌≢◌, refl, ap, ◌∙◌, Bool, ◌&&◌, ◌||◌, not, List, [], ◌∷◌, ◌++◌, map, arith, Bool-cases,
  inl, inr, ◌==◌, ==_iff, All, if◌then◌else◌,
}
use esphome_ble_remote.Prelude.Int.{pos, eqb_ℤ}
use esphome_ble_remote.Schema.Usage.{HidReportItemValue}
use esphome_ble_remote.Boot.{key_value, key_values, missing_from, has_key}

abbrev pub Listener : Type 0
Listener = ℕ → ℕ → Bool

abbrev pub hear : HidReportItemValue → Listener → Listener
hear v heard field_id usage =
    if field_id == v.field_id && usage == v.usage.usage
    then eqb_ℤ v.value (pos 1)
    else heard field_id usage

-- The listener after a list of values.
unfoldable pub replay : List HidReportItemValue → Listener → Listener
replay [] heard = heard
replay (v ∷ vs) heard = replay vs (hear v heard)

pub replay-append :
    (vs ws : List HidReportItemValue) (heard : Listener)
    → replay (vs ++ ws) heard ≡ replay ws (replay vs heard)
unfolding replay
replay-append [] ws heard = refl
replay-append (v ∷ vs) ws heard = replay-append vs ws (hear v heard)

abbrev pub key_field : ℕ
key_field = 0xF200

has_key-missing_from :
    (k : ℕ) (others keys : List ℕ)
    → has_key k (missing_from others keys) ≡ (has_key k keys && not (has_key k others))
unfolding missing_from
has_key-missing_from k others [] = refl
has_key-missing_from k others (key ∷ keys) = elim (Bool-cases (key == k)) [
  | inl same ↦
      let e : key ≡ k = (==_iff key k).0 same in
      ground (arith, has_key-missing_from k others keys, ap (λ n. has_key n others) e)
  | inr other ↦ ground (arith, has_key-missing_from k others keys)
]

replay-presses :
    (k : ℕ) (keys : List ℕ) (heard : Listener)
    → replay (map (λ key. key_value key (pos 1) (pos key)) keys) heard key_field k
      ≡ (heard key_field k || has_key k keys)
unfolding replay has_key key_value
replay-presses k [] heard = ground arith
replay-presses k (key ∷ keys) heard =
    ground (arith, replay-presses k keys (hear (key_value key (pos 1) (pos key)) heard))

replay-releases :
    (k : ℕ) (keys : List ℕ) (heard : Listener)
    → replay (map (λ key. key_value key (pos 0) (pos 0)) keys) heard key_field k
      ≡ (heard key_field k && not (has_key k keys))
unfolding replay has_key key_value
replay-releases k [] heard = ground arith
replay-releases k (key ∷ keys) heard =
    ground (arith, replay-releases k keys (hear (key_value key (pos 0) (pos 0)) heard))

pub replay-key_values :
    (k : ℕ) (previous current : List ℕ) (heard : Listener)
    → heard key_field k ≡ has_key k previous
    → replay (key_values previous current) heard key_field k ≡ has_key k current
unfolding key_values
replay-key_values k previous current heard h =
    let pressed = map (λ key. key_value key (pos 1) (pos key)) (missing_from previous current) in
    let released = map (λ key. key_value key (pos 0) (pos 0)) (missing_from current previous) in
    ap (λ l. l key_field k) (replay-append pressed released heard)
    ∙ replay-releases k (missing_from current previous) (replay pressed heard)
    ∙ ground (
      arith,
      replay-presses k (missing_from previous current) heard,
      has_key-missing_from k previous current,
      has_key-missing_from k current previous,
    )

-- Values of other fields are not heard.
pub replay_other :
    (field_id usage : ℕ) (vs : List HidReportItemValue) (heard : Listener)
    → All (λ v. v.field_id ≢ field_id) vs
    → replay vs heard field_id usage ≡ heard field_id usage
unfolding replay
replay_other field_id usage [] heard h = refl
replay_other field_id usage (v ∷ vs) heard h =
    ground (arith, h.0, replay_other field_id usage vs (hear v heard) h.1)
