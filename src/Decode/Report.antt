-- ===== src/Decode/Report.antt =====
-- HIDReportMap::parse_input_ and HIDReportMap::parse (hid_parser.cpp).
use esphome_ble_remote.Prelude.{
  ℕ, Bool, true, false, ◌&&◌, ◌||◌, not, Option, none, some, List, [], ◌∷◌, ◌++◌, map, ltb, ◌==◌,
  if◌then◌else◌, length, get_elem?, replicate,
}
use esphome_ble_remote.Prelude.Int.{pos}
use esphome_ble_remote.Schema.Usage.{
  HidReportItemValue, Payload, null, bytes, input, kind_value, HidReportSource, HidDecodeStatus,
  exact, long, short, schema_missing, report_kind_mismatch, boot_report, invalid_payload,
}
use esphome_ble_remote.Schema.Field.{
  HidFieldSchema, HidReportSchema, byte_size, is_constant, is_variable,
}
use esphome_ble_remote.Schema.ReportMap.{HidReportMap, FieldRuntime, find_report}
use esphome_ble_remote.Decode.Fields.{variable_loop, array_loop, array_value, unmatched}

abbrev pub set_runtime : HidReportMap → ℕ → FieldRuntime → HidReportMap
set_runtime m id r = record m { runtime = λ i. if i == id then r else m.runtime i }

-- The initialisation of `runtime_[field.id]`.
abbrev pub initialised : HidFieldSchema → FieldRuntime → FieldRuntime
initialised f r =
    if r.initialized
    then r
    else record r { last_values = replicate f.report_count (pos 0); initialized = true }

unfoldable pub parse_variable :
    HidReportMap
    → ℕ
    → HidFieldSchema
    → Payload
    → FieldRuntime
    → FieldRuntime × List HidReportItemValue
parse_variable m report_id f payload r =
    let (last_values, values) =
      variable_loop m report_id f payload 0 f.report_count (r.last_values, []) in
    (record r { last_values = last_values }, values)

-- Presses first, then releases.
unfoldable pub parse_array :
    HidReportMap
    → ℕ
    → HidFieldSchema
    → Payload
    → FieldRuntime
    → FieldRuntime × List HidReportItemValue
parse_array m report_id f payload r =
    let current = array_loop f payload 0 f.report_count [] in
    let pressed = unmatched current r.active_array_usages in
    let released = unmatched r.active_array_usages current in
    (
      record r { active_array_usages = current },
      map (λ e. array_value m report_id f e.0 (pos 1) e.1) pressed
          ++ map (λ e. array_value m report_id f e.0 (pos 0) (pos 0)) released,
    )

-- What a field that is not constant does to its runtime.
unfoldable pub parse_field_runtime :
    HidReportMap
    → ℕ
    → HidFieldSchema
    → Payload
    → FieldRuntime
    → FieldRuntime × List HidReportItemValue
parse_field_runtime m report_id f payload r =
    if is_variable f
    then parse_variable m report_id f payload (initialised f r)
    else parse_array m report_id f payload (initialised f r)

unfoldable pub parse_field :
    HidReportMap → ℕ → HidFieldSchema → Payload → HidReportMap × List HidReportItemValue
parse_field m report_id f payload =
    if is_constant f
    then (m, [])
    else let (r, values) = parse_field_runtime m report_id f payload (m.runtime f.id) in
      (set_runtime m f.id r, values)

-- The loop of `parse_input_` over the field ids. `fields_[field_id]` is not checked: an id that is no
-- index of `fields_` is undefined behaviour, which is `none` here and in the callers.
unfoldable pub parse_fields :
    HidReportMap → ℕ → List ℕ → Payload → Option (HidReportMap × List HidReportItemValue)
parse_fields m report_id [] payload = some (m, [])
parse_fields m report_id (id ∷ ids) payload = elim (get_elem? m.fields id) [
  | none ↦ none
  | some f ↦
      let (m', values) = parse_field m report_id f payload in
      elim (parse_fields m' report_id ids payload) [
        | none ↦ none
        | some (m'', rest) ↦ some (m'', values ++ rest)
      ]
]

unfoldable pub parse_input :
    HidReportMap → HidReportSchema → Payload → Option (HidReportMap × List HidReportItemValue)
unfolding parse_fields
parse_input m report payload = parse_fields m report.report_id report.field_ids payload

-- The values, and what is written to `recognized` and `status`.
pub record Decoded : Type 0 where
  pub values : List HidReportItemValue
  pub recognized : Bool
  pub status : HidDecodeStatus

abbrev pub refused : Bool → HidDecodeStatus → Decoded
refused recognized status = record { values = []; recognized = recognized; status = status }

abbrev pub payload_length : Payload → ℕ
payload_length (null n) = n
payload_length (bytes bs) = length bs

-- `data == nullptr && length != 0`.
abbrev pub is_invalid : Payload → Bool
is_invalid (null n) = not (n == 0)
is_invalid (bytes bs) = false

abbrev pub with_handle : ℕ → HidReportItemValue → HidReportItemValue
with_handle handle v = record v { characteristic_handle = handle }

-- What follows the choice of the report.
unfoldable pub parse_with :
    HidReportMap → HidReportSource → Payload → HidReportSchema → Option (HidReportMap × Decoded)
unfolding byte_size
parse_with m source payload report =
    if ltb (payload_length payload) (byte_size report)
    then some (m, refused true short)
    else elim (parse_input m report payload) [
      | none ↦ none
      | some (m', values) ↦ some (
        m',
        record {
          values = map (with_handle source.characteristic_handle) values;
          recognized = true;
          status = if payload_length payload == byte_size report then exact else long;
        },
      )
    ]

unfoldable pub parse : HidReportMap → HidReportSource → Payload → Option (HidReportMap × Decoded)
parse m source payload =
    if is_invalid payload
    then some (m, refused false invalid_payload)
    else if source.characteristic_uuid == 0x2A22 || source.characteristic_uuid == 0x2A33
    then some (m, refused false boot_report)
    else if source.has_report_type && not (source.report_type == kind_value input)
    then some (m, refused false report_kind_mismatch)
    else elim (find_report m input (if source.has_report_id then source.report_id else 0)) [
      | none ↦ some (m, refused false schema_missing)
      | some report ↦ parse_with m source payload report
    ]
