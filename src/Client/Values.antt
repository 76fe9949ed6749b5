-- ===== src/Client/Values.antt =====
-- The values that are read (finish_active_read_, process_read_value_ of
-- components/ble_client_hid/ble_client_hid.cpp).
pub mod Held
pub mod Maps
use esphome_ble_remote.Prelude.{
  ℕ, ◌+◌, ◌*◌, Bool, true, ◌&&◌, ◌||◌, not, none, some, List, [], ltb, leb, ◌==◌, if◌then◌else◌,
  length, get_or,
}
use esphome_ble_remote.Prelude.Text.{Text, codes}
use esphome_ble_remote.Schema.Usage.{Payload, null, bytes, HidReportSource, no_source}
use esphome_ble_remote.Descriptor.Parse.{parse_report_map_data}
use esphome_ble_remote.Decode.Report.{payload_length, is_invalid}
use esphome_ble_remote.Client.Uuids.{uuid_hid_report}
use esphome_ble_remote.Client.Limits.{max_attribute_value_bytes}
use esphome_ble_remote.Client.Names.{digest_string}
use esphome_ble_remote.Client.Gatt.{find_hid_context, update_hid_context}
use esphome_ble_remote.Client.State.{
  Platform, BleClientHid, ReadPurpose, appearance, preferred_connection_parameters, battery_level,
  pnp_id, hid_information, hid_report_map, hid_protocol_mode, hid_report_reference,
  hid_external_report_reference, GattReadOperation, perform, publish_battery, insert_handle,
  assign_source, operation_succeeded,
}
use esphome_ble_remote.Client.Setup.{mark_degraded, note_failure}
use esphome_ble_remote.Client.Reads.{is_active}

unfoldable pub sha256 : Platform → List ℕ → Text
unfolding digest_string
sha256 p bs = elim (p.sha256 bs) [ none ↦ codes "unavailable" | some digest ↦ digest_string digest ]

-- `data[i] | (data[i + 1] << 8)`.
abbrev pub u16_at : List ℕ → ℕ → ℕ
u16_at bs i = get_or bs i 0 + 256 * get_or bs (i + 1) 0

abbrev degrade_unless : Bool → Text → BleClientHid → BleClientHid
degrade_unless good reason c = if good then c else mark_degraded reason c

unfoldable pub on_conn_params : List ℕ → BleClientHid → BleClientHid
unfolding mark_degraded
on_conn_params bs c =
    if length bs == 8
    then record c {
      preferred_conn_params = record {
        min_int = u16_at bs 0;
        max_int = u16_at bs 2;
        latency = u16_at bs 4;
        timeout = u16_at bs 6;
      };
      preferred_conn_params_valid = true;
    }
    else mark_degraded (codes "Preferred Connection Parameters have invalid length") c

unfoldable pub on_battery_level : GattReadOperation → List ℕ → BleClientHid → BleClientHid
unfolding mark_degraded
on_battery_level operation bs c =
    let c1 = record c {
      battery_handles = insert_handle operation.characteristic_handle c.battery_handles;
    } in
    if leb 1 (length bs)
    then if c.has_battery_sensor then perform (publish_battery (get_or bs 0 0)) c1 else c1
    else mark_degraded (codes "Battery Level is empty") c1

unfoldable pub on_protocol_mode : GattReadOperation → List ℕ → BleClientHid → BleClientHid
unfolding mark_degraded
on_protocol_mode operation bs c =
    if is_active (find_hid_context operation.service_instance c.hid_services) && length bs == 1
    then record c {
      hid_services =
          update_hid_context operation.service_instance
            (λ context. record context {
              protocol_mode = get_or bs 0 0;
              protocol_mode_handle = operation.characteristic_handle;
            })
            c.hid_services;
    }
    else mark_degraded (codes "Protocol Mode has invalid length") c

unfoldable pub on_report_map : Platform → GattReadOperation → List ℕ → BleClientHid → BleClientHid
unfolding mark_degraded sha256
on_report_map p operation bs c =
    if not (is_active (find_hid_context operation.service_instance c.hid_services))
      || length bs == 0
    then mark_degraded (codes "HID Report Map is empty") c
    else let parsed = parse_report_map_data (bytes bs) in
      let c1 = record c {
        hid_services =
            update_hid_context operation.service_instance
              (λ context. record context { report_map_hash = sha256 p bs; report_map = parsed })
              c.hid_services;
      } in
      degrade_unless (is_active parsed) (codes "HID Report Map could not be parsed") c1

-- `handle_report_source_[handle]`.
abbrev pub source_of : ℕ → BleClientHid → HidReportSource
source_of handle c = elim (c.handle_report_source handle) [ none ↦ no_source | some s ↦ s ]

unfoldable pub on_report_reference : GattReadOperation → List ℕ → BleClientHid → BleClientHid
unfolding mark_degraded
on_report_reference operation bs c =
    let handle = operation.characteristic_handle in
    let source = record (source_of handle c) {
      service_instance = operation.service_instance;
      characteristic_handle = handle;
      characteristic_uuid = uuid_hid_report;
    } in
    let known = record source {
      report_id = get_or bs 0 0;
      has_report_id = true;
      report_type = get_or bs 1 0;
      has_report_type = true;
    } in
    if length bs == 2
    then degrade_unless (leb 1 (get_or bs 1 0) && leb (get_or bs 1 0) 3)
        (codes "Report Reference has unknown Report Type")
        (record c { handle_report_source = assign_source handle known c.handle_report_source })
    else mark_degraded (codes "Report Reference has invalid length")
        (record c { handle_report_source = assign_source handle source c.handle_report_source })

-- The switch on the purpose. The cases that only log are with the default.
unfoldable pub process_value :
    Platform → ReadPurpose → GattReadOperation → List ℕ → BleClientHid → BleClientHid
unfolding mark_degraded on_conn_params on_battery_level on_protocol_mode on_report_map
    on_report_reference
process_value p appearance operation bs c =
    degrade_unless (length bs == 2) (codes "Appearance has invalid length") c
process_value p preferred_connection_parameters operation bs c = on_conn_params bs c
process_value p battery_level operation bs c = on_battery_level operation bs c
process_value p pnp_id operation bs c =
    degrade_unless (leb 7 (length bs)) (codes "PnP ID has invalid length") c
process_value p hid_information operation bs c =
    degrade_unless
      (is_active (find_hid_context operation.service_instance c.hid_services) && length bs == 4)
      (codes "HID Information has invalid length") c
process_value p hid_protocol_mode operation bs c = on_protocol_mode operation bs c
process_value p hid_report_map operation bs c = on_report_map p operation bs c
process_value p hid_report_reference operation bs c = on_report_reference operation bs c
process_value p hid_external_report_reference operation bs c =
    degrade_unless (length bs == 2) (codes "External Report Reference has unsupported length") c
process_value p _ operation bs c = c

abbrev pub data_of : Payload → List ℕ
data_of (null n) = []
data_of (bytes bs) = bs

unfoldable pub process_read_value :
    Platform → GattReadOperation → Payload → BleClientHid → BleClientHid
unfolding mark_degraded process_value
process_read_value p operation value c =
    if is_invalid value
    then degrade_unless (not operation.required) (codes "required GATT read returned null data") c
    else process_value p operation.purpose operation (data_of value) c

-- `ok` is `status == ESP_GATT_OK`.
unfoldable pub finish_active_read : Platform → Bool → Payload → BleClientHid → BleClientHid
unfolding note_failure operation_succeeded process_read_value
finish_active_read p ok value c = elim c.active_read [
  | none ↦ c
  | some operation ↦
      let c1 = record c { active_read = none } in
      if not ok
      then note_failure operation.required (codes "required GATT read failed") c1
      else if ltb max_attribute_value_bytes (payload_length value)
      then note_failure operation.required (codes "required GATT value exceeded limit") c1
      else process_read_value p operation value (operation_succeeded c1)
]
