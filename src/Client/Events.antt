-- ===== src/Client/Events.antt =====
-- Events (make_hid_event_, emit_hid_event_ of components/ble_client_hid/ble_client_hid.cpp). The
-- component is built with USE_API.
pub mod Keys
pub mod Total
pub mod Ready
use Prim.Native.String.{String}
use esphome_ble_remote.Prelude.{
  ℕ, Bool, true, false, ◌&&◌, Option, none, some, List, [], ◌∷◌, ◌++◌, leb, ◌==◌, if◌then◌else◌,
  length, take,
}
use esphome_ble_remote.Prelude.Text.{Text, codes, nat_to_string, int_to_string}
use esphome_ble_remote.Schema.Usage.{
  HidReportItemValue, HidReportSource, HidUsage, HidDecodeStatus, hid_decode_status_name, no_parent,
}
use esphome_ble_remote.Event.{HidEvent, find, emplace}
use esphome_ble_remote.Tables.Lookup.{lookup_usage_name}
use esphome_ble_remote.Client.Gatt.{find_characteristic, find_hid_context}
use esphome_ble_remote.Client.State.{
  Platform, BleClientHid, PendingHidReport, perform, fire_event, publish_usage, publish_code,
  publish_value_of,
}

-- On a report's payload; `std::vector::data()` of an empty one may be null.
unfoldable pub format_value : Platform → List ℕ → Text
format_value p [] = codes "<empty>"
format_value p (b ∷ bs) = p.format_hex_pretty (b ∷ bs)

abbrev kind_name : ℕ → Text
kind_name report_type =
    if report_type == 1
    then codes "input"
    else if report_type == 2
    then codes "output"
    else codes "feature"

abbrev report_id_text : HidReportSource → Text
report_id_text source =
    if source.has_report_id then nat_to_string source.report_id else codes "unknown"

abbrev report_type_text : HidReportSource → Text
report_type_text source =
    if source.has_report_type && leb 1 source.report_type && leb source.report_type 3
    then kind_name source.report_type
    else codes "unknown"

abbrev transport_text : HidReportSource → Text
transport_text source =
    if source.has_transport
    then if source.is_notification then codes "notification" else codes "indication"
    else codes "unknown"

abbrev characteristic_text : BleClientHid → ℕ → Text
characteristic_text c handle = elim (find_characteristic handle c.services) [
  | none ↦ codes "unknown"
  | some characteristic ↦ characteristic.uuid.as_128bit
]

-- `substr(0, 16)` of the hash of the report's profile, where there is one.
abbrev profile_id : BleClientHid → ℕ → Option Text
profile_id c service_instance = elim (find_hid_context service_instance c.hid_services) [
  | none ↦ none
  | some context ↦
      if length context.report_map_hash == 0 then none else some (take 16 context.report_map_hash)
]

abbrev emplace_some : String → Option Text → HidEvent → HidEvent
emplace_some key none event = event
emplace_some key (some value) event = emplace key value event

-- The keys that every event has.
unfoldable pub report_event :
    Platform → BleClientHid → PendingHidReport → Text → HidDecodeStatus → HidEvent
unfolding find_characteristic find_hid_context emplace nat_to_string hid_decode_status_name
report_event p c report raw status =
    let source = report.source in
    emplace_some "profile_id" (profile_id c source.service_instance) (
      ("device", p.address_str)
      ∷ ("hid_service", nat_to_string source.service_instance)
      ∷ ("handle", nat_to_string source.characteristic_handle)
      ∷ ("characteristic_uuid", characteristic_text c source.characteristic_handle)
      ∷ ("report_id", report_id_text source)
      ∷ ("hid_report_type", report_type_text source)
      ∷ ("transport", transport_text source)
      ∷ ("length", nat_to_string (length report.payload))
      ∷ ("raw_data", raw)
      ∷ ("decode_status", hid_decode_status_name status)
      ∷ ("seq_id_from", nat_to_string report.seq_id)
      ∷ ("seq_id_to", nat_to_string report.seq_id)
      ∷ [])

abbrev usage_text : HidUsage → Text
usage_text usage = elim (lookup_usage_name usage.page usage.usage) [
  | none ↦ nat_to_string usage.page ++ b'_' ∷ nat_to_string usage.usage
  | some name ↦ codes name
]

abbrev application_text : HidUsage → Option Text
application_text usage = elim (lookup_usage_name usage.page usage.usage) [
  | none ↦ none
  | some name ↦ some (codes name)
]

abbrev bool_text : Bool → Text
bool_text true = codes "true"
bool_text false = codes "false"

-- The keys of a value.
unfoldable pub value_event : HidReportItemValue → HidEvent → HidEvent
unfolding lookup_usage_name emplace nat_to_string int_to_string
value_event v event =
    let e1 = emplace "usage" (usage_text v.usage) event in
    let e2 = emplace "usage_page" (nat_to_string v.usage.page) e1 in
    let e3 = emplace "usage_id" (nat_to_string v.usage.usage) e2 in
    let e4 = emplace "field_id" (nat_to_string v.field_id) e3 in
    let e5 =
      emplace "collection_id"
        (if v.collection_id == no_parent then codes "unknown" else nat_to_string v.collection_id)
        e4 in
    let e6 = emplace "application_usage_page" (nat_to_string v.application_usage.page) e5 in
    let e7 = emplace "application_usage_id" (nat_to_string v.application_usage.usage) e6 in
    let e8 = emplace_some "application_usage" (application_text v.application_usage) e7 in
    let e9 = emplace "value" (int_to_string v.value) e8 in
    let e10 = emplace "raw_value" (int_to_string v.raw_value) e9 in
    emplace "relative" (bool_text v.is_relative) e10

unfoldable pub make_hid_event :
    Platform
    → BleClientHid
    → PendingHidReport
    → Text
    → Option HidReportItemValue
    → HidDecodeStatus
    → HidEvent
unfolding report_event value_event
make_hid_event p c report raw none status = report_event p c report raw status
make_hid_event p c report raw (some v) status = value_event v (report_event p c report raw status)

-- `at` throws where a key is missing, which is `none`.
unfoldable pub publish_value : HidEvent → BleClientHid → Option BleClientHid
unfolding find
publish_value event c =
    if c.has_value_sensor
    then elim (find "value" event) [
      | none ↦ none
      | some value ↦ some (perform (publish_value_of value) c)
    ]
    else some c

unfoldable pub publish_event : HidEvent → Text → BleClientHid → Option BleClientHid
unfolding find publish_value
publish_event event usage c =
    let c1 = if c.has_usage_text_sensor then perform (publish_usage usage) c else c in
    elim (find "usage_page" event) [
      | none ↦ if c.has_code_text_sensor then none else publish_value event c1
      | some page ↦ elim (find "usage_id" event) [
        | none ↦ if c.has_code_text_sensor then none else publish_value event c1
        | some id ↦
            publish_value event
              (if c.has_code_text_sensor then perform (publish_code (page ++ b'_' ∷ id)) c1 else c1)
      ]
    ]

-- The keys that the log line looks up by `at` without a test; `field_id` and `value` are counted
-- first.
abbrev pub logged_keys : List String
logged_keys = "seq_id_from" ∷ "seq_id_to" ∷ "hid_service" ∷ "report_id" ∷ "decode_status" ∷ []

-- The look-ups of the log line, whose text is left out. The arguments of ESP_LOGD are evaluated,
-- as they are at the level DEBUG and above.
unfoldable pub log_event : List String → HidEvent → BleClientHid → Option BleClientHid
unfolding find
log_event [] event c = some c
log_event (key ∷ keys) event c = elim (find key event) [
  | none ↦ none
  | some value ↦ log_event keys event c
]

unfoldable pub emit_hid_event : HidEvent → BleClientHid → Option BleClientHid
unfolding find publish_event log_event
emit_hid_event event c =
    let c1 = perform (fire_event event) c in
    let published : Option BleClientHid = elim (find "usage" event) [
      | none ↦ some c1
      | some usage ↦ publish_event event usage c1
    ] in
    elim published [ none ↦ none | some c2 ↦ log_event logged_keys event c2 ]

unfoldable pub emit_all : List HidEvent → BleClientHid → Option BleClientHid
unfolding emit_hid_event
emit_all [] c = some c
emit_all (event ∷ events) c = elim (emit_hid_event event c) [
  | none ↦ none
  | some c1 ↦ emit_all events c1
]
