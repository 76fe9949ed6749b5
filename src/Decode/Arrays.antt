-- ===== src/Decode/Arrays.antt =====
-- What the array fields report (the array branch of HIDReportMap::parse_input_, hid_parser.cpp).
use esphome_ble_remote.Prelude.{
  ℕ, zero, suc, ◌+◌, ◌-◌, ◌≡◌, refl, sym, ap, Bool, true, false, ◌&&◌, not, none, some, List, [],
  ◌∷◌, ◌++◌, map, arith, if◌then◌else◌, Bool-cases, Option-cases, inl, inr, eq_of_some, ◌==◌,
}
use esphome_ble_remote.Prelude.Int.{ℤ, pos, eqb_ℤ}
use esphome_ble_remote.Schema.Usage.{
  HidUsage, usage_eq, usage_eq_iff, HidReportItemValue, item_value, Payload,
}
use esphome_ble_remote.Schema.Field.{HidFieldSchema}
use esphome_ble_remote.Schema.ReportMap.{HidReportMap, FieldRuntime}
use esphome_ble_remote.Decode.Fields.{
  read_value, slot_usage, emplace, erase_usage, array_step, array_loop, array_value, unmatched,
}
use esphome_ble_remote.Decode.Report.{parse_array}

abbrev pub one_if : Bool → ℕ
one_if true = 1
one_if false = 0

-- How often a usage is in a multimap.
unfoldable pub usage_count : HidUsage → List (HidUsage × ℤ) → ℕ
usage_count u [] = 0
usage_count u ((v, raw) ∷ entries) = one_if (usage_eq v u) + usage_count u entries

none-ne-some : {A : Type 0} {a : A} → (none ≡ some a) → ⊥
none-ne-some e = cc

erase_usage-none :
    (u : HidUsage) (xs : List (HidUsage × ℤ)) → erase_usage u xs ≡ none → usage_count u xs ≡ 0
unfolding erase_usage usage_count
erase_usage-none u [] e = refl
erase_usage-none u ((v, raw) ∷ xs) e = elim (Bool-cases (usage_eq v u)) [
  | inl same ↦ absurd (none-ne-some (sym (rw (erase_usage, same) at e)))
  | inr other ↦ elim (Option-cases (erase_usage u xs)) [
    | inl absent ↦ rw other (omega (arith, erase_usage-none u xs absent))
    | inr (rest, there) ↦ absurd (none-ne-some (sym (rw (erase_usage, other, there) at e)))
  ]
]

erase_usage-some :
    (u w : HidUsage) (xs left : List (HidUsage × ℤ))
    → erase_usage u xs ≡ some left
    → usage_count w xs ≡ usage_count w left + one_if (usage_eq u w)
unfolding erase_usage usage_count
erase_usage-some u w [] left e = cc
erase_usage-some u w ((v, raw) ∷ xs) left e = elim (Bool-cases (usage_eq v u)) [
  | inl same ↦
      let rest = eq_of_some xs left (rw (erase_usage, same) at e) in
      let one = (usage_eq_iff v u).0 same in
      omega (arith, ap (usage_count w) rest, ap (λ x. one_if (usage_eq x w)) one)
  | inr other ↦ elim (Option-cases (erase_usage u xs)) [
    | inl absent ↦ absurd (none-ne-some (rw (erase_usage, other, absent) at e))
    | inr (rest, there) ↦
        let whole = eq_of_some ((v, raw) ∷ rest) left (rw (erase_usage, other, there) at e) in
        omega (arith, ap (usage_count w) whole, erase_usage-some u w xs rest there)
  ]
]

unmatched-count :
    (w : HidUsage) (xs ys : List (HidUsage × ℤ))
    → usage_count w (unmatched xs ys) ≡ usage_count w xs - usage_count w ys
unfolding unmatched usage_count
unmatched-count w [] ys = omega arith
unmatched-count w ((u, raw) ∷ xs) ys = elim (Option-cases (erase_usage u ys)) [
  | inr (left, e) ↦
      rw (unmatched, e) (omega (arith, unmatched-count w xs left, erase_usage-some u w ys left e))
  | inl e ↦
      rw (unmatched, e)
        (grind (arith, unmatched-count w xs ys, erase_usage-none u ys e, usage_eq_iff u w))
]

emplace-count :
    (w u : HidUsage) (raw : ℤ) (xs : List (HidUsage × ℤ))
    → usage_count w (emplace u raw xs) ≡ usage_count w xs + one_if (usage_eq u w)
unfolding emplace usage_count
emplace-count w u raw [] = omega arith
emplace-count w u raw ((v, r) ∷ xs) = ground (arith, emplace-count w u raw xs)

-- How many of the slots from `index` on assert a usage.
unfoldable pub slot_count : HidUsage → HidFieldSchema → Payload → ℕ → ℕ → ℕ
unfolding usage_count array_step
slot_count u f payload index zero = 0
slot_count u f payload index (suc count) =
    usage_count u (array_step f payload index []) + slot_count u f payload (index + 1) count

array_step-count :
    (u : HidUsage) (f : HidFieldSchema) (payload : Payload) (index : ℕ)
    (current : List (HidUsage × ℤ))
    → usage_count u (array_step f payload index current)
      ≡ usage_count u current + usage_count u (array_step f payload index [])
unfolding array_step usage_count
array_step-count u f payload index current = elim (Option-cases (read_value f payload index)) [
  | inl absent ↦ rw (array_step, absent) (omega arith)
  | inr (raw, there) ↦
      let usage = slot_usage f raw in
      elim (Bool-cases (not (usage.page == 0) && not (usage.usage == 0))) [
        | inl asserts ↦
            rw (array_step, there, asserts)
              (omega (arith, emplace-count u usage raw current, emplace-count u usage raw []))
        | inr none_asserted ↦ rw (array_step, there, none_asserted) (omega arith)
      ]
]

array_loop-count :
    (u : HidUsage) (f : HidFieldSchema) (payload : Payload) (index count : ℕ)
    (current : List (HidUsage × ℤ))
    → usage_count u (array_loop f payload index count current)
      ≡ usage_count u current + slot_count u f payload index count
unfolding array_loop slot_count
array_loop-count u f payload index zero current = omega arith
array_loop-count u f payload index (suc count) current = omega (
  arith,
  array_loop-count u f payload (index + 1) count (array_step f payload index current),
  array_step-count u f payload index current,
)

-- The values of a usage that are 1, or 0.
unfoldable pub reported : HidUsage → ℤ → List HidReportItemValue → ℕ
reported u x [] = 0
reported u x (v ∷ values) = one_if (usage_eq v.usage u && eqb_ℤ v.value x) + reported u x values

reported-append :
    (u : HidUsage) (x : ℤ) (vs ws : List HidReportItemValue)
    → reported u x (vs ++ ws) ≡ reported u x vs + reported u x ws
unfolding reported
reported-append u x [] ws = omega arith
reported-append u x (v ∷ vs) ws = omega (arith, reported-append u x vs ws)

module _ (m : HidReportMap) (report_id : ℕ) (f : HidFieldSchema) (u : HidUsage) where
  reported-map :
      (value x : ℕ) (raw : HidUsage × ℤ → ℤ) (entries : List (HidUsage × ℤ))
      → reported u (pos x) (map (λ e. array_value m report_id f e.0 (pos value) (raw e)) entries)
        ≡ (if value == x then usage_count u entries else 0)
  unfolding reported array_value item_value usage_count
  reported-map value x raw [] = ground arith
  reported-map value x raw (e ∷ entries) = ground (arith, reported-map value x raw entries)

-- An array field keeps how often each usage is asserted by the slots of the payload. For each usage it
-- reports as many presses (values of 1) as there are assertions more than before, and as many
-- releases (values of 0) as there are fewer.
pub parse_array-balance :
    (m : HidReportMap) (report_id : ℕ) (f : HidFieldSchema) (payload : Payload) (r : FieldRuntime)
    (u : HidUsage)
    → (usage_count u (parse_array m report_id f payload r).0.active_array_usages
        ≡ slot_count u f payload 0 f.report_count)
      × (reported u (pos 1) (parse_array m report_id f payload r).1
          ≡ slot_count u f payload 0 f.report_count - usage_count u r.active_array_usages)
      × (reported u (pos 0) (parse_array m report_id f payload r).1
          ≡ usage_count u r.active_array_usages - slot_count u f payload 0 f.report_count)
unfolding parse_array usage_count
parse_array-balance m report_id f payload r u =
    let before = r.active_array_usages in
    let current = array_loop f payload 0 f.report_count [] in
    let now = array_loop-count u f payload 0 f.report_count [] in
    let pressed = unmatched current before in
    let released = unmatched before current in
    let presses = map (λ e. array_value m report_id f e.0 (pos 1) e.1) pressed in
    let releases = map (λ e. array_value m report_id f e.0 (pos 0) (pos 0)) released in
    (
      omega (arith, now),
      omega (
        arith,
        now,
        reported-append u (pos 1) presses releases,
        reported-map m report_id f u 1 1 (λ e. e.1) pressed,
        reported-map m report_id f u 0 1 (λ e. pos 0) released,
        unmatched-count u current before,
      ),
      omega (
        arith,
        now,
        reported-append u (pos 0) presses releases,
        reported-map m report_id f u 1 0 (λ e. e.1) pressed,
        reported-map m report_id f u 0 0 (λ e. pos 0) released,
        unmatched-count u before current,
      ),
    )
