-- ===== src/Boot/Keys.antt =====
-- Keyboard reports of HIDBootReportDecoder (components/ble_client_hid/boot_report_decoder.cpp) heard
-- by a listener, one after the other.
use esphome_ble_remote.Prelude.{
  ℕ, ◌+◌, ◌≤◌, ◌<◌, ◌≡◌, ◌≢◌, refl, sym, ap, ◌∙◌, Bool, true, false, ◌&&◌, ◌||◌, not, List, [], ◌∷◌,
  ◌++◌, map, arith, length, get_or, All, Bool-cases, inl, inr, ltb, leb, ◌==◌, if◌then◌else◌,
}
use esphome_ble_remote.Prelude.Int.{pos}
use esphome_ble_remote.Prelude.Words.{test_bit}
use esphome_ble_remote.Schema.Usage.{HidReportItemValue, HidReportSource, bytes}
use esphome_ble_remote.Boot.{
  HidBootReportDecoder, reset, key_value, key_values, missing_from, modifier_loop, has_key,
  insert_key, collect_keys, key_slots, no_modifiers, decode, decode_keyboard,
  boot_keyboard_input_uuid,
}
use esphome_ble_remote.Boot.Replay.{
  Listener, replay, replay_other, replay-append, replay-key_values, key_field,
}
use esphome_ble_remote.Boot.Modifiers.{
  modifier_field, modifier_usage, get_or-modifier_loop, length-modifier_loop, modifier_loop_fields,
  replay-modifier_loop,
}

has_key-insert_key :
    (k key : ℕ) (keys : List ℕ) → has_key k (insert_key key keys) ≡ (key == k || has_key k keys)
unfolding has_key insert_key
has_key-insert_key k key [] = refl
has_key-insert_key k key (head ∷ keys) = ground (arith, has_key-insert_key k key keys)

-- A key of the boot report: no padding, no modifier.
abbrev pub is_reported_key : ℕ → Bool
is_reported_key k = not (k == 0) && leb k 0xE7

has_key-collect_keys :
    (k : ℕ) (slots current : List ℕ)
    → has_key k (collect_keys slots current)
      ≡ (has_key k current || (is_reported_key k && has_key k slots))
unfolding has_key collect_keys
has_key-collect_keys k [] current = ground arith
has_key-collect_keys k (key ∷ slots) current = elim (Bool-cases (is_reported_key key)) [
  | inl key_ok ↦ rw key_ok (
      ground (
        arith,
        has_key-collect_keys k slots (insert_key key current),
        has_key-insert_key k key current,
      ))
  | inr padding ↦ rw padding (ground (arith, has_key-collect_keys k slots current))
]

-- The values of keys belong to the field of keys.
missing_fields :
    (field_id : ℕ) (keys : List ℕ)
    → field_id ≢ key_field
    → All (λ v. v.field_id ≢ field_id) (map (λ key. key_value key (pos 1) (pos key)) keys)
      × All (λ v. v.field_id ≢ field_id) (map (λ key. key_value key (pos 0) (pos 0)) keys)
unfolding key_value
missing_fields field_id [] other = (tt, tt)
missing_fields field_id (key ∷ keys) other =
    let (pressed, released) = missing_fields field_id keys other in
    ((λ e. other (sym e), pressed), (λ e. other (sym e), released))

replay-key_values_other :
    (field_id usage : ℕ) (previous current : List ℕ) (heard : Listener)
    → field_id ≢ key_field
    → replay (key_values previous current) heard field_id usage ≡ heard field_id usage
unfolding key_values
replay-key_values_other field_id usage previous current heard other =
    let pressed = map (λ key. key_value key (pos 1) (pos key)) (missing_from previous current) in
    let released = map (λ key. key_value key (pos 0) (pos 0)) (missing_from current previous) in
    ap (λ l. l field_id usage) (replay-append pressed released heard)
    ∙ replay_other field_id usage released (replay pressed heard)
        (missing_fields field_id (missing_from current previous) other).1
    ∙ replay_other field_id usage pressed heard
        (missing_fields field_id (missing_from previous current) other).0

-- The listener has, of key `k` and modifier `j`, what the decoder keeps for the handle.
pub record Follows (d : HidBootReportDecoder) (handle : ℕ) (heard : Listener) (k j : ℕ)
    : Type 0 where
  pub key : heard key_field k ≡ has_key k (d.keyboard_keys handle)
  pub modifier :
      heard (modifier_field j) (modifier_usage j) ≡ get_or (d.keyboard_modifiers handle) j false
  pub size : length (d.keyboard_modifiers handle) ≡ 8

-- What a report of eight bytes or more says of a key and of a modifier.
abbrev pub key_down : List ℕ → ℕ → Bool
key_down bs k = is_reported_key k && has_key k (key_slots bs)

abbrev pub modifier_down : List ℕ → ℕ → Bool
modifier_down bs j = test_bit (get_or bs 0 0) j

first_modifiers :
    (modifiers : List Bool) (byte j : ℕ) (heard : Listener)
    → j < length modifiers
    → j < 8
    → heard (modifier_field j) (modifier_usage j) ≡ get_or modifiers j false
    → replay (modifier_loop 0 modifiers byte).1 heard (modifier_field j) (modifier_usage j)
      ≡ test_bit byte j
first_modifiers modifiers byte j heard h lt e =
    let same : 0 + j ≡ j = omega arith in
    rw same at (replay-modifier_loop 0 modifiers byte j heard h (ground (arith, lt)) (rw same e))

first_rest :
    (modifiers : List Bool) (byte j : ℕ)
    → j < length modifiers
    → get_or (modifier_loop 0 modifiers byte).0 j false ≡ test_bit byte j
first_rest modifiers byte j h =
    let same : 0 + j ≡ j = omega arith in rw same at (get_or-modifier_loop 0 modifiers byte j h)

pub replay-decode_keyboard :
    (d : HidBootReportDecoder) (handle : ℕ) (bs : List ℕ) (heard : Listener) (k j : ℕ)
    → 8 ≤ length bs
    → j < 8
    → Follows d handle heard k j
    → Follows
        (decode_keyboard d handle bs).0
        handle
        (replay (decode_keyboard d handle bs).1 heard)
        k
        j
      × (replay (decode_keyboard d handle bs).1 heard key_field k ≡ key_down bs k)
      × (replay (decode_keyboard d handle bs).1 heard (modifier_field j) (modifier_usage j)
          ≡ modifier_down bs j)
unfolding decode_keyboard has_key
replay-decode_keyboard d handle bs heard k j enough lt follows =
    let modifiers = d.keyboard_modifiers handle in
    let previous = d.keyboard_keys handle in
    let current = collect_keys (key_slots bs) [] in
    let byte = get_or bs 0 0 in
    let m = modifier_loop 0 modifiers byte in
    let both = replay-append m.1 (key_values previous current) heard in
    let quiet =
      replay_other key_field k m.1 heard
        (modifier_loop_fields key_field 0 modifiers byte (inr (ground (arith, follows.size)))) in
    let keys = replay-key_values k previous current (replay m.1 heard) (quiet ∙ follows.key) in
    let collected = has_key-collect_keys k (key_slots bs) [] in
    let others =
      replay-key_values_other (modifier_field j) (modifier_usage j) previous current
        (replay m.1 heard) (omega (arith, lt)) in
    let mods =
      first_modifiers modifiers byte j heard (ground (arith, follows.size)) lt follows.modifier in
    let rest = first_rest modifiers byte j (ground (arith, follows.size)) in
    let key_end = ap (λ l. l key_field k) both ∙ keys in
    let modifier_end = ap (λ l. l (modifier_field j) (modifier_usage j)) both ∙ others ∙ mods in
    elim (Bool-cases (ltb (length bs) 8)) [
      | inl short_report ↦ ground (arith, short_report, enough)
      | inr long_report ↦ rw long_report (
        record {
          key = key_end ∙ ground arith;
          modifier = modifier_end ∙ sym rest ∙ ground arith;
          size = ground (arith, length-modifier_loop 0 modifiers byte, follows.size);
        },
        key_end ∙ collected,
        modifier_end,
      )
    ]

-- The values of a sequence of keyboard reports from one handle, decoded one after the other.
unfoldable pub decode_reports :
    HidBootReportDecoder → HidReportSource → List (List ℕ) → List HidReportItemValue
unfolding decode
decode_reports d source [] = []
decode_reports d source (bs ∷ reports) =
    (decode d source (bytes bs)).1 ++ decode_reports (decode d source (bytes bs)).0 source reports

-- What the last report of eight bytes or more says; `before` where there is none.
unfoldable pub last_key : ℕ → Bool → List (List ℕ) → Bool
last_key k before [] = before
last_key k before (bs ∷ reports) =
    last_key k (if ltb (length bs) 8 then before else key_down bs k) reports

unfoldable pub last_modifier : ℕ → Bool → List (List ℕ) → Bool
last_modifier j before [] = before
last_modifier j before (bs ∷ reports) =
    last_modifier j (if ltb (length bs) 8 then before else modifier_down bs j) reports

decode-keyboard :
    (d : HidBootReportDecoder) (source : HidReportSource) (bs : List ℕ)
    → source.characteristic_uuid ≡ boot_keyboard_input_uuid
    → decode d source (bytes bs) ≡ decode_keyboard d source.characteristic_handle bs
unfolding decode
decode-keyboard d source bs e = rw e refl

decode_keyboard-short :
    (d : HidBootReportDecoder) (handle : ℕ) (bs : List ℕ)
    → ltb (length bs) 8 ≡ true
    → ((decode_keyboard d handle bs).0 ≡ d) × ((decode_keyboard d handle bs).1 ≡ [])
unfolding decode_keyboard
decode_keyboard-short d handle bs h = rw h (refl, refl)

replay-reports :
    (d : HidBootReportDecoder) (source : HidReportSource) (reports : List (List ℕ))
    → (heard : Listener) (k j : ℕ) → source.characteristic_uuid ≡ boot_keyboard_input_uuid
    → j < 8
    → Follows d source.characteristic_handle heard k j
    → (replay (decode_reports d source reports) heard key_field k
        ≡ last_key k (heard key_field k) reports)
      × (replay (decode_reports d source reports) heard (modifier_field j) (modifier_usage j)
          ≡ last_modifier j (heard (modifier_field j) (modifier_usage j)) reports)
unfolding decode_reports last_key last_modifier replay
replay-reports d source [] heard k j e lt follows = (refl, refl)
replay-reports d source (bs ∷ reports) heard k j e lt follows =
    let handle = source.characteristic_handle in
    let step = decode_keyboard d handle bs in
    let both = replay-append step.1 (decode_reports step.0 source reports) heard in
    rw (decode-keyboard d source bs e) (elim (Bool-cases (ltb (length bs) 8)) [
      | inl short_report ↦
          let (same, none) = decode_keyboard-short d handle bs short_report in
          rw (short_report, same, none) (replay-reports d source reports heard k j e lt follows)
      | inr long_report ↦
          let (next, key, modifier) =
            replay-decode_keyboard d handle bs heard k j (ground (arith, long_report)) lt follows in
          let (keys, modifiers) =
            replay-reports step.0 source reports (replay step.1 heard) k j e lt next in
          rw (long_report, both) (keys ∙ rw key refl, modifiers ∙ rw modifier refl)
    ])

no_modifier_down : (j : ℕ) → false ≡ get_or no_modifiers j false
no_modifier_down j = ground arith

abbrev pub silent : Listener
silent field_id usage = false

-- A listener that hears nothing at first and then the values of any sequence of boot keyboard
-- reports of one handle, decoded from a fresh decoder, has each key and each of the eight modifiers
-- down exactly where the last report of eight bytes or more says so. Reports that are too short,
-- key codes of 0 and key codes above 0xE7 change nothing.
pub replay-decode_reports :
    (source : HidReportSource) (reports : List (List ℕ)) (k j : ℕ)
    → source.characteristic_uuid ≡ boot_keyboard_input_uuid
    → j < 8
    → (replay (decode_reports reset source reports) silent key_field k ≡ last_key k false reports)
      × (replay (decode_reports reset source reports) silent (modifier_field j) (modifier_usage j)
          ≡ last_modifier j false reports)
unfolding reset has_key
replay-decode_reports source reports k j e lt =
    replay-reports reset source reports silent k j e lt
      (record { key = refl; modifier = no_modifier_down j; size = refl })
