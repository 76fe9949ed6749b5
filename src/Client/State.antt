-- ===== src/Client/State.antt =====
-- The members of BLEClientHID (components/ble_client_hid/ble_client_hid.h), and what it calls outside
-- this repository: ESPHome's clocks and sensors and the GATT client of ESP-IDF. Such a call answers
-- by its number, `calls`, and leaves an entry in `effects`. Log output is left out.
use esphome_ble_remote.Prelude.{
  ℕ, ◌+◌, Bool, true, Option, some, List, [], ◌∷◌, ◌++◌, ◌==◌, if◌then◌else◌,
}
use esphome_ble_remote.Prelude.Words.{u32}
use esphome_ble_remote.Prelude.Text.{Text}
use esphome_ble_remote.Schema.Usage.{HidReportSource}
use esphome_ble_remote.Event.{HidEvent}
use esphome_ble_remote.Buffer.{OrderedEventBuffer}
use esphome_ble_remote.Boot.{HidBootReportDecoder}
use esphome_ble_remote.Subscription.{SubscriptionAttemptState}
use esphome_ble_remote.Client.Names.{DiscoveryMode, ProtocolModePolicy, SetupPhase}
use esphome_ble_remote.Client.Gatt.{EspBtUuid, GattServiceInfo, HidServiceContext}

-- A call of ESP-IDF answers whether its status is ESP_OK. `bit_read`, `bit_notify` and
-- `bit_indicate` are the places of the ESP_GATT_CHAR_PROP_BIT_ flags.
pub record Platform : Type 0 where
  pub millis : ℕ → ℕ
  pub micros : ℕ → ℕ
  pub read_attribute : ℕ → Bool → ℕ → Bool
  pub write_char : ℕ → ℕ → Bool
  pub register_for_notify : ℕ → ℕ → Bool
  pub write_char_descr : ℕ → ℕ → Bool
  pub bit_read : ℕ
  pub bit_notify : ℕ
  pub bit_indicate : ℕ
  pub sha256 : List ℕ → Option (List ℕ)
  pub format_hex_pretty : List ℕ → Text
  pub address_str : Text

pub data ReadPurpose : Type 0 where
  generic_standard generic_forensic device_name appearance : ReadPurpose
  preferred_connection_parameters battery_level pnp_id manufacturer serial_number : ReadPurpose
  hid_information hid_report_map hid_protocol_mode hid_report_reference : ReadPurpose
  hid_external_report_reference hid_report_value : ReadPurpose

pub record GattReadOperation : Type 0 where
  pub handle : ℕ
  pub characteristic_handle : ℕ
  pub service_instance : ℕ
  pub purpose : ReadPurpose
  pub descriptor : Bool
  pub required : Bool
  pub service_uuid : EspBtUuid
  pub characteristic_uuid : EspBtUuid
  pub attribute_uuid : EspBtUuid

pub record PendingHidReport : Type 0 where
  pub source : HidReportSource
  pub payload : List ℕ
  pub seq_id : ℕ

pub record SubscriptionInfo : Type 0 where
  pub characteristic_handle : ℕ
  pub cccd_handle : ℕ
  pub service_instance : ℕ
  pub properties : ℕ
  pub required : Bool

-- The fields of `esp_ble_conn_update_params_t` that are read from the device.
pub record ConnParams : Type 0 where
  pub min_int : ℕ
  pub max_int : ℕ
  pub latency : ℕ
  pub timeout : ℕ

abbrev pub no_conn_params : ConnParams
no_conn_params = record { min_int = 0; max_int = 0; latency = 0; timeout = 0 }

pub data Effect : Type 0 where
  status_set_warning : Text → Effect
  status_clear_warning node_established disconnect request_encryption : Effect
  read_attribute : Bool → ℕ → Effect
  write_protocol_mode : ℕ → ℕ → Effect
  register_notify : ℕ → Effect
  write_cccd : ℕ → ℕ → Effect
  update_conn_params : ConnParams → Effect
  fire_event : HidEvent → Effect
  publish_usage publish_code : Text → Effect
  publish_value_of : Text → Effect
  publish_battery : ℕ → Effect

-- A `std::map` from handles is a function into options; a `std::set` of handles, its test. A sensor
-- is there or not.
pub record BleClientHid : Type 0 where
  pub services : List GattServiceInfo
  pub hid_services : List HidServiceContext
  pub read_queue : List GattReadOperation
  pub active_read : Option GattReadOperation
  pub subscription_queue : List SubscriptionInfo
  pub active_subscription : Option SubscriptionInfo
  pub handle_report_source : ℕ → Option HidReportSource
  pub hid_report_handles : ℕ → Bool
  pub battery_handles : ℕ → Bool
  pub service_changed_handles : ℕ → Bool
  pub planned_read_handles : List ℕ
  pub pending_reports : List PendingHidReport
  pub pending_report_bytes : ℕ
  pub boot_decoder : HidBootReportDecoder
  pub has_usage_text_sensor : Bool
  pub has_code_text_sensor : Bool
  pub has_value_sensor : Bool
  pub has_battery_sensor : Bool
  pub setup_phase : SetupPhase
  pub discovery_mode : DiscoveryMode
  pub protocol_mode_policy : ProtocolModePolicy
  pub phase_started_ms : ℕ
  pub operations_succeeded : ℕ
  pub operations_failed : ℕ
  pub degraded : Bool
  pub congested : Bool
  pub rediscovery_requested : Bool
  pub preferred_conn_params_valid : Bool
  pub preferred_conn_params : ConnParams
  pub protocol_write_handles : List ℕ
  pub subscription_state : SubscriptionAttemptState
  pub gatt_profile_hash : Text
  pub sampled_events : OrderedEventBuffer
  pub sampling_window_started_us : ℕ
  pub event_sampling_interval_us : ℕ
  pub sampling_window_active : Bool
  pub last_overflow_warning : ℕ
  pub reports_dropped : ℕ
  pub next_seq_id : ℕ
  pub calls : ℕ
  pub effects : List Effect

-- A call outside, and its trace.
abbrev pub called : BleClientHid → BleClientHid
called c = record c { calls = c.calls + 1 }

abbrev pub perform : Effect → BleClientHid → BleClientHid
perform e c = record c { effects = c.effects ++ e ∷ [] }

abbrev pub insert_handle : ℕ → (ℕ → Bool) → ℕ → Bool
insert_handle handle handles h = if h == handle then true else handles h

abbrev pub assign_source :
    ℕ → HidReportSource → (ℕ → Option HidReportSource) → ℕ → Option HidReportSource
assign_source handle source sources h = if h == handle then some source else sources h

unfoldable pub operation_succeeded : BleClientHid → BleClientHid
operation_succeeded c = record c { operations_succeeded = u32 (c.operations_succeeded + 1) }

unfoldable pub operation_failed : BleClientHid → BleClientHid
operation_failed c = record c { operations_failed = u32 (c.operations_failed + 1) }
