-- ===== src/Client/Values/Maps.antt =====
-- What a read does to the report maps (components/ble_client_hid/ble_client_hid.cpp).
use esphome_ble_remote.Prelude.{
  ℕ, ◌≡◌, refl, sym, List, arith, Bool, not, ◌||◌, ◌&&◌, ltb, length, ◌==◌, subst, none, Bool-cases,
  Option-cases, inl, inr, get_or,
}
use esphome_ble_remote.Schema.Usage.{Payload, bytes}
use esphome_ble_remote.Descriptor.Parse.{parse_report_map_data}
use esphome_ble_remote.Descriptor.Sound.{parse_report_map_data-MapIsSound}
use esphome_ble_remote.Decode.Defined.{MapIsSound-FieldsExist}
use esphome_ble_remote.Decode.Report.{is_invalid, payload_length}
use esphome_ble_remote.Client.Limits.{max_attribute_value_bytes}
use esphome_ble_remote.Client.Gatt.{find_hid_context}
use esphome_ble_remote.Client.Maps.{
  MapExists, MapsAreSound, report_maps-update, update-MapsAreSound,
}
use esphome_ble_remote.Client.State.{
  Platform, BleClientHid, GattReadOperation, ReadPurpose, appearance,
  preferred_connection_parameters, battery_level, pnp_id, hid_information, hid_report_map,
  hid_protocol_mode, hid_report_reference, hid_external_report_reference, generic_standard,
  generic_forensic, device_name, manufacturer, serial_number, hid_report_value, operation_succeeded,
  operation_failed,
}
use esphome_ble_remote.Client.Reads.{is_active}
use esphome_ble_remote.Client.Setup.{mark_degraded, note_failure}
use esphome_ble_remote.Client.Values.{
  on_conn_params, on_battery_level, on_protocol_mode, on_report_map, on_report_reference, sha256,
  process_value, process_read_value, finish_active_read, data_of,
}

pub parsed-MapExists : (bs : List ℕ) → MapExists (parse_report_map_data (bytes bs))
parsed-MapExists bs = elim (Option-cases (parse_report_map_data (bytes bs))) [
  | inl absent ↦ rw absent tt
  | inr (m, there) ↦
      rw there (MapIsSound-FieldsExist m (parse_report_map_data-MapIsSound (bytes bs) m there))
]

on_report_map-MapsAreSound :
    (p : Platform) (operation : GattReadOperation) (bs : List ℕ) (c : BleClientHid)
    → MapsAreSound c.hid_services
    → MapsAreSound (on_report_map p operation bs c).hid_services
unfolding on_report_map mark_degraded operation_failed
on_report_map-MapsAreSound p operation bs c sound =
    let parsed = parse_report_map_data (bytes bs) in
    let updated =
      update-MapsAreSound operation.service_instance
        (λ context. record context { report_map_hash = sha256 p bs; report_map = parsed })
        c.hid_services (λ context. parsed-MapExists bs) sound in
    elim (Bool-cases (
      not (is_active (find_hid_context operation.service_instance c.hid_services))
      || length bs == 0)) [
        | inl absent ↦ rw (on_report_map, absent) sound
        | inr there ↦ elim (Bool-cases (is_active parsed)) [
          | inl whole ↦ rw (on_report_map, there, whole) updated
          | inr broken ↦ rw (on_report_map, there, broken) updated
        ]
      ]

on_protocol_mode-MapsAreSound :
    (operation : GattReadOperation) (bs : List ℕ) (c : BleClientHid)
    → MapsAreSound c.hid_services
    → MapsAreSound (on_protocol_mode operation bs c).hid_services
unfolding on_protocol_mode mark_degraded operation_failed
on_protocol_mode-MapsAreSound operation bs c sound =
    let same =
      report_maps-update operation.service_instance
        (λ context. record context {
          protocol_mode = get_or bs 0 0;
          protocol_mode_handle = operation.characteristic_handle;
        })
        c.hid_services (λ context. refl) in
    elim (Bool-cases
      (is_active (find_hid_context operation.service_instance c.hid_services) && length bs == 1)) [
        | inl valid ↦ rw (on_protocol_mode, valid, same) sound
        | inr other ↦ rw (on_protocol_mode, other) sound
      ]

unchanged :
    (c d : BleClientHid)
    → d.hid_services ≡ c.hid_services
    → MapsAreSound c.hid_services
    → MapsAreSound d.hid_services
unchanged c d same sound = subst MapsAreSound (sym same) sound

process_value-MapsAreSound :
    (p : Platform) (purpose : ReadPurpose) (operation : GattReadOperation) (bs : List ℕ)
    (c : BleClientHid)
    → MapsAreSound c.hid_services
    → MapsAreSound (process_value p purpose operation bs c).hid_services
unfolding process_value mark_degraded operation_failed on_conn_params on_battery_level
    on_report_reference
process_value-MapsAreSound p hid_protocol_mode operation bs c sound =
    on_protocol_mode-MapsAreSound operation bs c sound
process_value-MapsAreSound p hid_report_map operation bs c sound =
    on_report_map-MapsAreSound p operation bs c sound
process_value-MapsAreSound p generic_standard operation bs c sound = sound
process_value-MapsAreSound p generic_forensic operation bs c sound = sound
process_value-MapsAreSound p device_name operation bs c sound = sound
process_value-MapsAreSound p manufacturer operation bs c sound = sound
process_value-MapsAreSound p serial_number operation bs c sound = sound
process_value-MapsAreSound p hid_report_value operation bs c sound = sound
process_value-MapsAreSound p appearance operation bs c sound =
    unchanged c (process_value p appearance operation bs c) (ground arith) sound
process_value-MapsAreSound p preferred_connection_parameters operation bs c sound =
    unchanged c (on_conn_params bs c) (ground arith) sound
process_value-MapsAreSound p battery_level operation bs c sound =
    unchanged c (on_battery_level operation bs c) (ground arith) sound
process_value-MapsAreSound p pnp_id operation bs c sound =
    unchanged c (process_value p pnp_id operation bs c) (ground arith) sound
process_value-MapsAreSound p hid_information operation bs c sound =
    unchanged c (process_value p hid_information operation bs c) (ground arith) sound
process_value-MapsAreSound p hid_report_reference operation bs c sound =
    unchanged c (on_report_reference operation bs c) (ground arith) sound
process_value-MapsAreSound p hid_external_report_reference operation bs c sound =
    unchanged c (process_value p hid_external_report_reference operation bs c) (ground arith) sound

process_read_value-MapsAreSound :
    (p : Platform) (operation : GattReadOperation) (value : Payload) (c : BleClientHid)
    → MapsAreSound c.hid_services
    → MapsAreSound (process_read_value p operation value c).hid_services
unfolding process_read_value mark_degraded operation_failed
process_read_value-MapsAreSound p operation value c sound = elim (Bool-cases (is_invalid value)) [
  | inl invalid ↦
      let same : (process_read_value p operation value c).hid_services ≡ c.hid_services =
        ground (arith, invalid) in
      unchanged c (process_read_value p operation value c) same sound
  | inr valid ↦
      rw valid (process_value-MapsAreSound p operation.purpose operation (data_of value) c sound)
]

-- A read keeps the report maps sound: one that is read is the parser's.
pub finish_active_read-MapsAreSound :
    (p : Platform) (success : Bool) (value : Payload) (c : BleClientHid)
    → MapsAreSound c.hid_services
    → MapsAreSound (finish_active_read p success value c).hid_services
unfolding finish_active_read note_failure mark_degraded operation_failed operation_succeeded
finish_active_read-MapsAreSound p success value c sound = elim (Option-cases c.active_read) [
  | inl idle ↦ unchanged c (finish_active_read p success value c) (ground (arith, idle)) sound
  | inr (operation, active) ↦
      let read =
        process_read_value-MapsAreSound p operation value
          (operation_succeeded (record c { active_read = none })) sound in
      elim (Bool-cases (not success)) [
        | inl failed ↦
            unchanged c (finish_active_read p success value c) (ground (arith, active, failed))
              sound
        | inr done ↦ elim (Bool-cases (ltb max_attribute_value_bytes (payload_length value))) [
          | inl large ↦
              unchanged c (finish_active_read p success value c)
                (ground (arith, active, done, large)) sound
          | inr fits ↦ rw (finish_active_read, active, done, fits) read
        ]
      ]
]
