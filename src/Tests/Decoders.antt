-- ===== src/Tests/Decoders.antt =====
-- The decoders of components/ble_client_hid/hid_parser.cpp and boot_report_decoder.cpp at concrete
-- inputs.
use esphome_ble_remote.Prelude.{ℕ, ◌+◌, ◌-◌, ◌≡◌, refl, true, false, List, [], ◌∷◌, arith}
use esphome_ble_remote.Prelude.Int.{pos}
use esphome_ble_remote.Schema.Usage.{HidUsage, input, bytes, HidReportSource, no_source}
use esphome_ble_remote.Schema.Field.{HidFieldSchema}
use esphome_ble_remote.Schema.ReportMap.{FieldRuntime, new_report_map}
use esphome_ble_remote.Boot.{reset}
use esphome_ble_remote.Boot.Replay.{replay}
use esphome_ble_remote.Boot.Keys.{decode_reports, silent}
use esphome_ble_remote.Boot.Mouse.{button_field, of_field, last_button, moves, replay-mouse_reports}
use esphome_ble_remote.Decode.Report.{parse_array}
use esphome_ble_remote.Decode.Arrays.{usage_count, slot_count, reported, parse_array-balance}
use esphome_ble_remote.Item.{hid_item_data_size}
use esphome_ble_remote.Descriptor.Parse.{parse_items, initial_parser}
use esphome_ble_remote.Descriptor.Framing.{ShortItem, encode, run, parse_items-encode}

-- The six keys of a keyboard report.
abbrev keys_field : HidFieldSchema
keys_field = record {
  id = 0;
  kind = input;
  report_id = 0;
  collection_id = 0;
  bit_offset = 16;
  report_size = 8;
  report_count = 6;
  flags = 0;
  logical = record { minimum = pos 0; maximum = pos 101 };
  physical = record { minimum = pos 0; maximum = pos 0 };
  unit_exponent = pos 0;
  unit = 0;
  usages = [];
  alternative_usages = [];
  usage_minimum = record { usage = 0; page = 7 };
  usage_maximum = record { usage = 101; page = 7 };
  has_usage_range = true;
  string_indices = [];
  string_minimum = 0;
  string_maximum = 0;
  has_string_range = false;
  designator_indices = [];
  designator_minimum = 0;
  designator_maximum = 0;
  has_designator_range = false;
}

-- The key A is held.
abbrev key_a : HidUsage
key_a = record { usage = 4; page = 7 }

abbrev a_held : FieldRuntime
a_held = record { last_values = []; active_array_usages = (key_a, pos 4) ∷ []; initialized = true }

abbrev keys_report : List ℕ
keys_report = 0 ∷ 0 ∷ 5 ∷ 0 ∷ 0 ∷ 0 ∷ 0 ∷ 0 ∷ []

parse_array-balance_example :
    (usage_count key_a
        (parse_array new_report_map 0 keys_field (bytes keys_report) a_held).0.active_array_usages
      ≡ slot_count key_a keys_field (bytes keys_report) 0 6)
    × (reported key_a (pos 1) (parse_array new_report_map 0 keys_field (bytes keys_report) a_held).1
        ≡ slot_count key_a keys_field (bytes keys_report) 0 6
          - usage_count key_a a_held.active_array_usages)
    × (reported key_a (pos 0) (parse_array new_report_map 0 keys_field (bytes keys_report) a_held).1
        ≡ usage_count key_a a_held.active_array_usages
          - slot_count key_a keys_field (bytes keys_report) 0 6)
parse_array-balance_example =
    parse_array-balance new_report_map 0 keys_field (bytes keys_report) a_held key_a

abbrev mouse_source : HidReportSource
mouse_source = record no_source { characteristic_handle = 20; characteristic_uuid = 0x2A33 }

-- The left button is pressed, the mouse moves, and a report is cut short.
abbrev mouse_reports : List (List ℕ)
mouse_reports = (1 ∷ 0 ∷ 0 ∷ []) ∷ (1 ∷ 5 ∷ 251 ∷ []) ∷ (0 ∷ []) ∷ []

replay-mouse_reports_example :
    (replay (decode_reports reset mouse_source mouse_reports) silent (button_field 0) (0 + 1)
      ≡ last_button 0 false mouse_reports)
    × (of_field 0xF010 (decode_reports reset mouse_source mouse_reports) ≡ moves 1 mouse_reports)
    × (of_field 0xF011 (decode_reports reset mouse_source mouse_reports) ≡ moves 2 mouse_reports)
replay-mouse_reports_example = replay-mouse_reports mouse_source mouse_reports 0 refl (omega arith)

-- Usage Page (Generic Desktop), Usage (Mouse), Logical Maximum (300).
abbrev items : List ShortItem
items =
    record { prefix = 0x05; payload = 1 ∷ [] }
    ∷ record { prefix = 0x09; payload = 2 ∷ [] }
    ∷ record { prefix = 0x26; payload = 44 ∷ 1 ∷ [] }
    ∷ []

parse_items-encode_example :
    parse_items 4 0 (encode items) initial_parser ≡ run 0 items initial_parser
unfolding hid_item_data_size
parse_items-encode_example =
    parse_items-encode 4 0 items initial_parser
      (
        record { short = refl; size = refl },
        (record { short = refl; size = refl }, (record { short = refl; size = refl }, tt)),
      )
      (omega arith)
