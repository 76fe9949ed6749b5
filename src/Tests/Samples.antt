-- ===== src/Tests/Samples.antt =====
-- A report map, a platform and a component to run the model on.
use esphome_ble_remote.Prelude.{
  ℕ, ◌+◌, ◌*◌, true, false, Option, none, some, List, [], ◌∷◌, ◌==◌, if◌then◌else◌,
}
use esphome_ble_remote.Prelude.Text.{codes}
use esphome_ble_remote.Boot.{no_modifiers}
use esphome_ble_remote.Subscription.{SubscriptionAttemptState, registering, reset}
use esphome_ble_remote.Schema.Usage.{HidReportSource, no_source, HidReportItemValue, sum}
use esphome_ble_remote.Client.Names.{standard, report, SetupPhase, registering as in_registering}
use esphome_ble_remote.Client.Inventory.{Database, ServiceElement, element, at_end}
use esphome_ble_remote.Prelude.Int.{pos}
use esphome_ble_remote.Client.Gatt.{
  EspBtUuid, GattServiceInfo, GattCharacteristicInfo, GattDescriptorInfo,
}
use esphome_ble_remote.Client.State.{
  Platform, BleClientHid, SubscriptionInfo, PendingHidReport, no_conn_params,
}

-- A mouse with two buttons and padding: one input report of a byte.
abbrev pub mouse_map : List ℕ
mouse_map =
    0x05 ∷ 0x01 ∷ 0x09 ∷ 0x02 ∷ 0xA1 ∷ 0x01 ∷ 0x05 ∷ 0x09 ∷ 0x19 ∷ 0x01 ∷ 0x29 ∷ 0x02 ∷ 0x15 ∷ 0x00
    ∷ 0x25 ∷ 0x01 ∷ 0x75 ∷ 0x01 ∷ 0x95 ∷ 0x02 ∷ 0x81 ∷ 0x02 ∷ 0x75 ∷ 0x06 ∷ 0x95 ∷ 0x01 ∷ 0x81
    ∷ 0x03 ∷ 0xC0 ∷ []

abbrev pub keyboard_source : HidReportSource
keyboard_source = record no_source { characteristic_handle = 20; characteristic_uuid = 0x2A22 }

abbrev pub short_uuid_of : ℕ → EspBtUuid
short_uuid_of uuid16 = record {
  is_short = true;
  uuid16 = uuid16;
  as_128bit = codes "0000-1000-8000";
}

abbrev pub report_reference : GattDescriptorInfo
report_reference = record { uuid = short_uuid_of 0x2908; handle = 22 }

abbrev pub cccd : GattDescriptorInfo
cccd = record { uuid = short_uuid_of 0x2902; handle = 23 }

abbrev pub report_characteristic : GattCharacteristicInfo
report_characteristic = record {
  uuid = short_uuid_of 0x2A4D;
  handle = 20;
  properties = 18;
  service_instance = 0;
  descriptors = report_reference ∷ cccd ∷ [];
}

abbrev pub map_characteristic : GattCharacteristicInfo
map_characteristic = record {
  uuid = short_uuid_of 0x2A4B;
  handle = 30;
  properties = 2;
  service_instance = 0;
  descriptors = [];
}

abbrev pub hid_service : GattServiceInfo
hid_service = record {
  uuid = short_uuid_of 0x1812;
  instance_ = 0;
  start_handle = 18;
  end_handle = 40;
  primary = true;
  included_services = [];
  characteristics = report_characteristic ∷ map_characteristic ∷ [];
}

-- A clock of 100 ms for each call, and an ESP-IDF that accepts everything.
abbrev pub platform : Platform
platform = record {
  millis = λ call. 20000 + 100 * call;
  micros = λ call. 20000000 + 100000 * call;
  read_attribute = λ call descriptor handle. true;
  write_char = λ call handle. true;
  register_for_notify = λ call handle. true;
  write_char_descr = λ call handle. true;
  bit_read = 1;
  bit_notify = 4;
  bit_indicate = 5;
  sha256 = λ bs. none;
  format_hex_pretty = λ bs. codes "..";
  address_str = codes "AA:BB";
}

abbrev pub component :
    SetupPhase
    → Option SubscriptionInfo
    → SubscriptionAttemptState
    → List PendingHidReport
    → ℕ
    → BleClientHid
component phase active state pending pending_bytes = record {
  services = hid_service ∷ [];
  hid_services = [];
  read_queue = [];
  active_read = none;
  subscription_queue = [];
  active_subscription = active;
  handle_report_source = λ handle. none;
  hid_report_handles = λ handle. false;
  battery_handles = λ handle. false;
  service_changed_handles = λ handle. false;
  planned_read_handles = [];
  pending_reports = pending;
  pending_report_bytes = pending_bytes;
  boot_decoder = record {
    keyboard_modifiers = λ handle. no_modifiers;
    keyboard_keys = λ handle. [];
    mouse_buttons = λ handle. 0;
  };
  has_usage_text_sensor = true;
  has_code_text_sensor = true;
  has_value_sensor = true;
  has_battery_sensor = true;
  setup_phase = phase;
  discovery_mode = standard;
  protocol_mode_policy = report;
  phase_started_ms = 0;
  operations_succeeded = 0;
  operations_failed = 0;
  degraded = false;
  congested = false;
  rediscovery_requested = false;
  preferred_conn_params_valid = false;
  preferred_conn_params = no_conn_params;
  protocol_write_handles = [];
  subscription_state = state;
  gatt_profile_hash = [];
  sampled_events = record { capacity = 16; pending = [] };
  sampling_window_started_us = 0;
  event_sampling_interval_us = 0;
  sampling_window_active = false;
  last_overflow_warning = 0;
  reports_dropped = 0;
  next_seq_id = 1;
  calls = 0;
  effects = [];
}

abbrev pub report_subscription : SubscriptionInfo
report_subscription = record {
  characteristic_handle = 20;
  cccd_handle = 23;
  service_instance = 0;
  properties = 18;
  required = true;
}

abbrev pub registering_state : SubscriptionAttemptState
registering_state = record {
  stage = registering;
  characteristic_handle = 20;
  cccd_handle = 23;
  fallback_at_ms = 0;
  write_attempted = false;
}

-- A wheel that was moved by 3.
abbrev pub wheel : HidReportItemValue
wheel = record {
  usage = record { usage = 0x38; page = 0x01 };
  application_usage = record { usage = 0x02; page = 0x01 };
  value = pos 3;
  raw_value = pos 3;
  characteristic_handle = 20;
  field_id = 8;
  collection_id = 0;
  report_id = 0;
  is_relative = true;
  aggregation = sum;
}

abbrev pub waiting_report : PendingHidReport
waiting_report = record { source = no_source; payload = 1 ∷ 2 ∷ 3 ∷ []; seq_id = 4 }

abbrev pub queueing : BleClientHid
queueing = component in_registering none reset (waiting_report ∷ []) 3

-- A database of one HID service with one characteristic.
abbrev pub hid_element : ServiceElement
hid_element = record {
  uuid = short_uuid_of 0x1812;
  start_handle = 18;
  end_handle = 40;
  is_primary = true;
}

abbrev pub database : Database
database = record {
  get_service = λ offset. if offset == 0 then element hid_element else at_end;
  get_include_count = λ start stop. some 0;
  get_include_service = λ start stop count. none;
  get_all_char = λ start stop offset.
      if offset == 0
      then element (record { uuid = short_uuid_of 0x2A4D; char_handle = 20; properties = 18 })
      else at_end;
  get_all_descr = λ handle offset. if offset == 0 then element cccd else at_end;
  sha256_stream = λ texts. none;
}
