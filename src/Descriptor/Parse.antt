-- ===== src/Descriptor/Parse.antt =====
-- The loop of parse_report_map_data, and the walk of esp_logd_report_map over the same items
-- (hid_parser.cpp).
use esphome_ble_remote.Prelude.{
  ℕ, zero, suc, ◌+◌, ◌/◌, ◌%◌, Bool, true, false, Option, none, some, List, [], ◌∷◌, ◌++◌, ltb,
  ◌==◌, ◌||◌, not, if◌then◌else◌, length, drop,
}
use esphome_ble_remote.Prelude.Text.{Text, codes, nat_to_string, hex_fixed}
use esphome_ble_remote.Item.{hid_item_data_size, read_unsigned_item}
use esphome_ble_remote.Schema.Usage.{Payload, null, bytes}
use esphome_ble_remote.Schema.ReportMap.{
  HidReportMap, new_report_map, add_diagnostic, max_descriptor_bytes,
}
use esphome_ble_remote.Descriptor.State.{
  Parser, initial_global, initial_local, Result, ok, fail, fuel_out, fail_if, ◌>>=◌, ◌>>◌, ItemTag,
  item_tag, Item, truncated_long_item_header, truncated_long_item_payload, truncated_short_item,
}
use esphome_ble_remote.Descriptor.Items.{
  on_usage_page, on_logical_minimum, on_logical_maximum, on_physical_minimum, on_physical_maximum,
  on_unit_exponent, on_report_id, on_push, on_pop, on_usage, on_usage_minimum, on_usage_maximum,
  on_delimiter, with_global, with_local,
}
use esphome_ble_remote.Descriptor.Main.{on_collection, on_end_collection, on_main_item}

unfoldable pub unknown_item_message : ℕ → ℕ → Text
unknown_item_message prefix raw =
    codes "preserved unknown item prefix=0x"
    ++ (hex_fixed 2 prefix ++ (codes " value=0x" ++ hex_fixed 8 raw))

unfoldable pub long_item_message : ℕ → ℕ → Text
long_item_message tag size =
    codes "preserved long item tag=0x"
    ++ (hex_fixed 2 tag ++ (codes " size=" ++ nat_to_string size))

unfoldable pub push_stack_message : Text
push_stack_message = codes "global Push stack not empty at end of descriptor"

-- The `default` case: a main item that is not known still ends the local state.
unfoldable pub on_unknown : Item → Parser → Parser
on_unknown i s =
    let noted = record s {
      report_map = add_diagnostic s.report_map i.offset false (unknown_item_message i.prefix i.raw);
    } in
    if i.prefix / 4 % 4 == 0 then record noted { local = initial_local } else noted

-- The `switch (tag)`.
unfoldable pub dispatch : ItemTag → Item → Parser → Result Parser
dispatch ItemTag.usage_page i s = on_usage_page i s
dispatch ItemTag.logical_minimum i s = ok (on_logical_minimum i s)
dispatch ItemTag.logical_maximum i s = ok (on_logical_maximum i s)
dispatch ItemTag.physical_minimum i s = ok (on_physical_minimum i s)
dispatch ItemTag.physical_maximum i s = ok (on_physical_maximum i s)
dispatch ItemTag.unit_exponent i s = ok (on_unit_exponent i s)
dispatch ItemTag.unit i s = ok (with_global s (record (s.global) { unit = i.raw }))
dispatch ItemTag.report_size i s = ok (with_global s (record (s.global) { report_size = i.raw }))
dispatch ItemTag.report_count i s = ok (with_global s (record (s.global) { report_count = i.raw }))
dispatch ItemTag.report_id i s = on_report_id i s
dispatch ItemTag.push i s = on_push i s
dispatch ItemTag.pop i s = on_pop i s
dispatch ItemTag.usage i s = ok (on_usage i s)
dispatch ItemTag.usage_minimum i s = ok (on_usage_minimum i s)
dispatch ItemTag.usage_maximum i s = ok (on_usage_maximum i s)
dispatch ItemTag.designator_index i s =
    ok (with_local s (record (s.local) { designators = s.local.designators ++ i.raw ∷ [] }))
dispatch ItemTag.designator_minimum i s =
    ok (
      with_local s (record (s.local) { designator_minimum = i.raw; has_designator_minimum = true }))
dispatch ItemTag.designator_maximum i s =
    ok (
      with_local s (record (s.local) { designator_maximum = i.raw; has_designator_maximum = true }))
dispatch ItemTag.string_index i s =
    ok (with_local s (record (s.local) { strings = s.local.strings ++ i.raw ∷ [] }))
dispatch ItemTag.string_minimum i s =
    ok (with_local s (record (s.local) { string_minimum = i.raw; has_string_minimum = true }))
dispatch ItemTag.string_maximum i s =
    ok (with_local s (record (s.local) { string_maximum = i.raw; has_string_maximum = true }))
dispatch ItemTag.delimiter i s = on_delimiter i s
dispatch ItemTag.collection i s = on_collection i s
dispatch ItemTag.end_collection i s = on_end_collection i s
dispatch (ItemTag.main_item kind) i s = on_main_item kind i s
dispatch ItemTag.unknown i s = ok (on_unknown i s)

-- The bytes that an item takes behind its prefix, with the new state. Long items are skipped.
unfoldable pub long_item : ℕ → List ℕ → Parser → Result (ℕ × Parser)
long_item offset (payload_size ∷ tag ∷ rest) s = do
  fail_if (ltb (length rest) payload_size) offset truncated_long_item_payload
  ok (
    2 + payload_size,
    record s {
      report_map = add_diagnostic s.report_map offset false (long_item_message tag payload_size);
    },
  )
long_item offset _ s = fail offset truncated_long_item_header

unfoldable pub short_item : ℕ → ℕ → List ℕ → Parser → Result (ℕ × Parser)
short_item offset prefix rest s = do
  let size = hid_item_data_size prefix
  fail_if (ltb (length rest) size) offset truncated_short_item
  s' ←
      dispatch (item_tag prefix)
        (record {
          offset = offset;
          prefix = prefix;
          size = size;
          raw = read_unsigned_item rest size;
        })
        s
  ok (size, s')

-- One round of the loop: `data[offset]` is the prefix and `rest` what follows it.
unfoldable pub parse_item : ℕ → ℕ → List ℕ → Parser → Result (ℕ × Parser)
unfolding long_item short_item
parse_item offset prefix rest s =
    if prefix == 0xFE then long_item offset rest s else short_item offset prefix rest s

-- `while (offset < length)`, over the bytes from `data[offset]` on.
unfoldable pub parse_items : ℕ → ℕ → List ℕ → Parser → Result Parser
parse_items zero offset rest s = fuel_out
parse_items (suc fuel) offset [] s = ok s
parse_items (suc fuel) offset (prefix ∷ rest) s = elim (parse_item offset prefix rest s) [
  | ok (taken, s') ↦ parse_items fuel (offset + 1 + taken) (drop taken rest) s'
  | fail at e ↦ fail at e
  | fuel_out ↦ fuel_out
]

abbrev pub initial_parser : Parser
initial_parser = record {
  report_map = new_report_map;
  global = initial_global;
  local = initial_local;
  global_stack = [];
  collection_stack = [];
}

abbrev pub is_empty {ℓ} : {A : Type ℓ} → List A → Bool
is_empty [] = true
is_empty (x ∷ xs) = false

unfoldable pub note_pushed : ℕ → Parser → HidReportMap
note_pushed length s =
    if is_empty s.global_stack
    then s.report_map
    else add_diagnostic s.report_map length false push_stack_message

-- What follows the loop.
unfoldable pub finish : ℕ → Parser → Option HidReportMap
unfolding note_pushed
finish length s =
    if not (is_empty s.collection_stack)
    then none
    else if is_empty (note_pushed length s).reports
    then none
    else some (note_pushed length s)

-- Each round takes a byte, so the fuel is never used up.
unfoldable pub parse_bytes : List ℕ → Result Parser
parse_bytes bs = parse_items (suc (length bs)) 0 bs initial_parser

-- `none` is the null pointer.
unfoldable pub parse_report_map_data : Payload → Option HidReportMap
parse_report_map_data (null length) = none
parse_report_map_data (bytes bs) =
    if length bs == 0 || ltb max_descriptor_bytes (length bs) then none else elim (parse_bytes bs) [
      | ok s ↦ finish (length bs) s
      | fail offset e ↦ none
      | fuel_out ↦ none
    ]

-- What the walk of `esp_logd_report_map` logs of an item.
pub data LogEntry : Type 0 where
  truncated_long_header truncated_long_payload truncated_short : ℕ → LogEntry
  long_entry : ℕ → ℕ → ℕ → LogEntry
  short_entry : ℕ → ℕ → ℕ → ℕ → LogEntry

log_items : ℕ → ℕ → List ℕ → List LogEntry
log_items zero offset rest = []
log_items (suc fuel) offset [] = []
log_items (suc fuel) offset (prefix ∷ rest) = elim (prefix == 0xFE) [
  | true ↦ elim rest [
    | size ∷ tag_rest ↦ elim tag_rest [
      | tag ∷ payload ↦ elim (ltb (length payload) size) [
        | true ↦ truncated_long_payload offset ∷ []
        | false ↦
            long_entry offset tag size ∷ log_items fuel (offset + 3 + size) (drop size payload)
      ]
      | [] ↦ truncated_long_header offset ∷ []
    ]
    | [] ↦ truncated_long_header offset ∷ []
  ]
  | false ↦
      let size = hid_item_data_size prefix in
      elim (ltb (length rest) size) [
        | true ↦ truncated_short offset ∷ []
        | false ↦
            short_entry offset prefix size (read_unsigned_item rest size)
            ∷ log_items fuel (offset + 1 + size) (drop size rest)
      ]
]

unfoldable pub esp_logd_report_map : Payload → List LogEntry
unfolding log_items
esp_logd_report_map (null length) = []
esp_logd_report_map (bytes bs) = log_items (suc (length bs)) 0 bs
