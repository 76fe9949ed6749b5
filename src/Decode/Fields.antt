-- ===== src/Decode/Fields.antt =====
-- The loops of HIDReportMap::parse_input_ over the values of one field (hid_parser.cpp).
use esphome_ble_remote.Prelude.{
  ℕ, zero, suc, ◌+◌, ◌*◌, Bool, true, false, ◌&&◌, ◌||◌, not, Option, none, some, List, [], ◌∷◌,
  ◌++◌, ltb, ◌==◌, if◌then◌else◌, get_or, set,
}
use esphome_ble_remote.Prelude.Int.{ℤ, pos, ltb_ℤ, leb_ℤ, eqb_ℤ, ◌-ℤ◌, pos_part}
use esphome_ble_remote.Prelude.Words.{u32}
use esphome_ble_remote.Schema.Usage.{
  HidUsage, usage_eq, usage_lt, HidReportItemValue, item_value, Aggregation, passthrough, sum,
  latest, Payload,
}
use esphome_ble_remote.Schema.Field.{HidFieldSchema, usage_at, is_relative}
use esphome_ble_remote.Schema.ReportMap.{HidReportMap, application_usage}
use esphome_ble_remote.Decode.Bits.{read_bits}

-- Where the value `index` of a field stands.
abbrev pub value_offset : HidFieldSchema → ℕ → ℕ
value_offset f index = u32 (f.bit_offset + u32 (index * f.report_size))

-- The value `index` of a field, if it can be read and lies within the logical range: both loops
-- skip the others.
unfoldable pub read_value : HidFieldSchema → Payload → ℕ → Option ℤ
read_value f payload index =
    elim (read_bits payload (value_offset f index) f.report_size
      (ltb_ℤ f.logical.minimum (pos 0))) [
        | none ↦ none
        | some raw ↦
            if ltb_ℤ raw f.logical.minimum || ltb_ℤ f.logical.maximum raw then none else some raw
      ]

-- `static_cast<uint64_t>(maximum - minimum)`, or 0 for an empty range.
abbrev span_of : HidFieldSchema → ℕ
span_of f =
    if leb_ℤ f.logical.minimum f.logical.maximum
    then pos_part (f.logical.maximum -ℤ f.logical.minimum)
    else 0

abbrev is_discrete_page : ℕ → Bool
is_discrete_page page = page == 0x07 || page == 0x09 || page == 0x0C

unfoldable pub aggregation_of : HidFieldSchema → HidUsage → Aggregation
unfolding ◌-ℤ◌
aggregation_of f usage =
    if is_relative f
    then sum
    else if not (is_discrete_page usage.page) && ltb 16 (span_of f)
    then latest
    else passthrough

unfoldable pub variable_value : HidReportMap → ℕ → HidFieldSchema → ℕ → ℤ → HidReportItemValue
unfolding item_value aggregation_of
variable_value m report_id f index raw =
    let usage = usage_at f index true in
    record (item_value usage raw raw) {
      field_id = value_offset f index;
      collection_id = f.collection_id;
      application_usage = application_usage m f.collection_id;
      report_id = report_id;
      is_relative = is_relative f;
      aggregation = aggregation_of f usage;
    }

-- Whether a variable value is no event: no movement, or no change.
unfoldable pub is_quiet : HidFieldSchema → List ℤ → ℕ → ℤ → Bool
is_quiet f last_values index raw =
    (is_relative f && eqb_ℤ raw (pos 0))
    || (not (is_relative f) && eqb_ℤ (get_or last_values index (pos 0)) raw)

-- One round of the loop over a variable field: the last values and the values so far.
unfoldable pub variable_step :
    HidReportMap
    → ℕ
    → HidFieldSchema
    → Payload
    → ℕ
    → List ℤ × List HidReportItemValue
    → List ℤ × List HidReportItemValue
variable_step m report_id f payload index (last_values, values) =
    elim (read_value f payload index) [
      | none ↦ (last_values, values)
      | some raw ↦
          if is_quiet f last_values index raw
          then (last_values, values)
          else (set last_values index raw, values ++ variable_value m report_id f index raw ∷ [])
    ]

-- The rounds from `index` on, `count` of them.
unfoldable pub variable_loop :
    HidReportMap
    → ℕ
    → HidFieldSchema
    → Payload
    → ℕ
    → ℕ
    → List ℤ × List HidReportItemValue
    → List ℤ × List HidReportItemValue
variable_loop m report_id f payload index zero acc = acc
variable_loop m report_id f payload index (suc count) acc =
    variable_loop m report_id f payload (index + 1) count
      (variable_step m report_id f payload index acc)

-- `multimap::emplace`: behind the entries whose usage is not greater.
unfoldable pub emplace : HidUsage → ℤ → List (HidUsage × ℤ) → List (HidUsage × ℤ)
emplace usage raw [] = (usage, raw) ∷ []
emplace usage raw ((u, r) ∷ entries) =
    if usage_lt usage u then (usage, raw) ∷ (u, r) ∷ entries else (u, r) ∷ emplace usage raw entries

-- `multimap::find` and `erase` of what it finds; `none` is `end()`.
unfoldable pub erase_usage : HidUsage → List (HidUsage × ℤ) → Option (List (HidUsage × ℤ))
erase_usage usage [] = none
erase_usage usage ((u, r) ∷ entries) =
    if usage_eq u usage
    then some entries
    else elim (erase_usage usage entries) [ none ↦ none | some rest ↦ some ((u, r) ∷ rest) ]

-- The usage that an array slot asserts.
unfoldable pub slot_usage : HidFieldSchema → ℤ → HidUsage
unfolding ◌-ℤ◌
slot_usage f raw = usage_at f (u32 (pos_part (raw -ℤ f.logical.minimum))) false

unfoldable pub array_step : HidFieldSchema → Payload → ℕ → List (HidUsage × ℤ) → List (HidUsage × ℤ)
array_step f payload index current = elim (read_value f payload index) [
  | none ↦ current
  | some raw ↦
      let usage = slot_usage f raw in
      if not (usage.page == 0) && not (usage.usage == 0) then emplace usage raw current else current
]

-- The multimap `current`, from the slots from `index` on.
unfoldable pub array_loop :
    HidFieldSchema → Payload → ℕ → ℕ → List (HidUsage × ℤ) → List (HidUsage × ℤ)
array_loop f payload index zero current = current
array_loop f payload index (suc count) current =
    array_loop f payload (index + 1) count (array_step f payload index current)

unfoldable pub array_value :
    HidReportMap → ℕ → HidFieldSchema → HidUsage → ℤ → ℤ → HidReportItemValue
unfolding item_value
array_value m report_id f usage value raw = record (item_value usage value raw) {
  field_id = f.bit_offset;
  collection_id = f.collection_id;
  application_usage = application_usage m f.collection_id;
  report_id = report_id;
}

-- The entries of the first multimap that the second does not match, each entry of the second
-- matching one: the loops over `previous` and over `remaining`.
unfoldable pub unmatched : List (HidUsage × ℤ) → List (HidUsage × ℤ) → List (HidUsage × ℤ)
unmatched [] others = []
unmatched ((u, r) ∷ entries) others = elim (erase_usage u others) [
  | some left ↦ unmatched entries left
  | none ↦ (u, r) ∷ unmatched entries others
]
