-- ===== src/Tests/Parser.antt =====
-- The parser and the decoder of components/ble_client_hid/hid_parser.cpp on a mouse.
use esphome_ble_remote.Prelude.{
  ℕ, ◌≡◌, ◌≢◌, refl, inl, inr, true, false, Option, none, some, [], ◌∷◌, arith,
}
use esphome_ble_remote.Prelude.Int.{negsuc}
use esphome_ble_remote.Item.Decode.{decode_signed_hid_item-encode, read_unsigned_item-little_endian}
use esphome_ble_remote.Schema.Usage.{bytes}
use esphome_ble_remote.Schema.ReportMap.{HidReportMap, application_usage, no_runtime}
use esphome_ble_remote.Schema.Field.{HidCollectionSchema}
use esphome_ble_remote.Schema.Find.{Encloses, application_usage-Encloses}
use esphome_ble_remote.Descriptor.State.{fuel_out}
use esphome_ble_remote.Descriptor.Sound.{
  MapIsSound, parse_bytes-ends, parse_report_map_data-MapIsSound,
}
use esphome_ble_remote.Decode.Bits.{read_bits}
use esphome_ble_remote.Decode.Number.{read_bits-slice}
use esphome_ble_remote.Item.{
  hid_item_data_size, signed_pattern, decode_signed_hid_item, read_bytes, read_unsigned_item,
  signed_or_unsigned_max, decode_unit_exponent,
}
use esphome_ble_remote.Descriptor.State.{push_usage, item_tag}
use esphome_ble_remote.Descriptor.Items.{
  decode_usage, on_usage_page, on_logical_minimum, on_logical_maximum, on_usage, on_usage_minimum,
  on_usage_maximum,
}
use esphome_ble_remote.Descriptor.Main.{
  collection_usage_of, collection_of, on_collection, pop_collection, on_end_collection,
  locate_report, find_or_add_report, field_of, add_field, on_main_item,
}
use esphome_ble_remote.Descriptor.Parse.{
  dispatch, short_item, parse_item, parse_items, note_pushed, finish, parse_bytes,
  parse_report_map_data,
}
use esphome_ble_remote.Schema.Field.{is_constant, is_variable, is_relative, usage_at, byte_size}
use esphome_ble_remote.Schema.ReportMap.{
  new_report_map, add_diagnostic, find_in, find_report, find_field,
}
use esphome_ble_remote.Schema.Usage.{usage_eq, usage_lt}
use esphome_ble_remote.Tests.Samples.{mouse_map}

decode_signed_hid_item-encode_example : decode_signed_hid_item 131067 0x26 ≡ negsuc 4
decode_signed_hid_item-encode_example =
    decode_signed_hid_item-encode 0x26 2 1 (negsuc 4) (inr (inl (refl, refl))) (omega arith)

read_unsigned_item-little_endian_example : read_unsigned_item (0x34 ∷ 0x12 ∷ 0x81 ∷ []) 2 ≡ 0x1234
read_unsigned_item-little_endian_example =
    read_unsigned_item-little_endian 2 0x1234 (0x81 ∷ []) (omega arith)

abbrev map_or_new : Option HidReportMap → HidReportMap
map_or_new none = new_report_map
map_or_new (some m) = m

abbrev mouse : HidReportMap
mouse = map_or_new (parse_report_map_data (bytes mouse_map))

parse_bytes-ends_example : parse_bytes mouse_map ≢ fuel_out
parse_bytes-ends_example = parse_bytes-ends mouse_map

mouse_parses : parse_report_map_data (bytes mouse_map) ≡ some mouse
unfolding hid_item_data_size signed_pattern decode_signed_hid_item read_bytes read_unsigned_item
    signed_or_unsigned_max decode_unit_exponent push_usage item_tag decode_usage on_usage_page
    on_logical_minimum on_logical_maximum on_usage on_usage_minimum on_usage_maximum
    collection_usage_of collection_of on_collection pop_collection on_end_collection locate_report
    find_or_add_report field_of add_field on_main_item dispatch short_item parse_item parse_items
    note_pushed finish parse_bytes parse_report_map_data is_constant is_variable is_relative
    usage_at byte_size new_report_map add_diagnostic find_in find_report find_field usage_eq
    usage_lt
mouse_parses = refl

parse_report_map_data-MapIsSound_example : MapIsSound mouse
parse_report_map_data-MapIsSound_example =
    parse_report_map_data-MapIsSound (bytes mouse_map) mouse mouse_parses

read_bits-slice_example : read_bits (bytes (0x34 ∷ 0xF2 ∷ [])) 4 12 true ≡ some (negsuc 220)
read_bits-slice_example =
    read_bits-slice (0x34 ∷ 0xF2 ∷ []) 4 12 true (omega arith, (omega arith, tt)) (omega arith)
      (omega arith) (omega arith)

abbrev collection : ℕ → ℕ → ℕ → HidCollectionSchema
collection id parent type = record {
  id = id;
  parent = parent;
  type = type;
  usage = record { usage = 2; page = 1 };
  aliases = [];
}

-- An application with a collection inside.
abbrev nested : HidReportMap
nested = record {
  reports = [];
  fields = [];
  collections = collection 0 65535 1 ∷ collection 1 0 0 ∷ [];
  diagnostics = [];
  runtime = λ field. no_runtime;
  valid = true;
  uses_report_ids = false;
}

application_usage-Encloses_example : Encloses nested.collections (application_usage nested 1) 1
application_usage-Encloses_example =
    application_usage-Encloses nested 1 (refl, inl refl, (refl, inr (omega arith), tt))
      (omega arith) (inr (omega arith))
