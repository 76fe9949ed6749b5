-- ===== src/Client/Values/Held.antt =====
-- What a read leaves as it is (components/ble_client_hid/ble_client_hid.cpp).
use esphome_ble_remote.Prelude.{
  ℕ, ◌≡◌, refl, List, arith, Bool, none, Bool-cases, Option-cases, inl, inr,
}
use esphome_ble_remote.Schema.Usage.{Payload}
use esphome_ble_remote.Decode.Report.{is_invalid}
use esphome_ble_remote.Client.Frame.{kept}
use esphome_ble_remote.Client.State.{
  Platform, BleClientHid, GattReadOperation, ReadPurpose, appearance,
  preferred_connection_parameters, battery_level, pnp_id, hid_information, hid_report_map,
  hid_protocol_mode, hid_report_reference, hid_external_report_reference, generic_standard,
  generic_forensic, device_name, manufacturer, serial_number, hid_report_value, operation_succeeded,
  operation_failed,
}
use esphome_ble_remote.Client.Setup.{mark_degraded, note_failure}
use esphome_ble_remote.Client.Values.{
  on_conn_params, on_battery_level, on_protocol_mode, on_report_map, on_report_reference,
  process_value, process_read_value, finish_active_read, data_of,
}

process_value-kept :
    (p : Platform) (purpose : ReadPurpose) (operation : GattReadOperation) (bs : List ℕ)
    (c : BleClientHid)
    → kept (process_value p purpose operation bs c) ≡ kept c
unfolding process_value mark_degraded operation_failed on_conn_params on_battery_level
    on_protocol_mode on_report_map on_report_reference
process_value-kept p generic_standard operation bs c = refl
process_value-kept p generic_forensic operation bs c = refl
process_value-kept p device_name operation bs c = refl
process_value-kept p manufacturer operation bs c = refl
process_value-kept p serial_number operation bs c = refl
process_value-kept p hid_report_value operation bs c = refl
process_value-kept p appearance operation bs c = ground arith
process_value-kept p preferred_connection_parameters operation bs c = ground arith
process_value-kept p battery_level operation bs c = ground arith
process_value-kept p pnp_id operation bs c = ground arith
process_value-kept p hid_information operation bs c = ground arith
process_value-kept p hid_protocol_mode operation bs c = ground arith
process_value-kept p hid_report_map operation bs c = ground arith
process_value-kept p hid_report_reference operation bs c = ground arith
process_value-kept p hid_external_report_reference operation bs c = ground arith

process_read_value-kept :
    (p : Platform) (operation : GattReadOperation) (value : Payload) (c : BleClientHid)
    → kept (process_read_value p operation value c) ≡ kept c
unfolding process_read_value mark_degraded operation_failed
process_read_value-kept p operation value c = elim (Bool-cases (is_invalid value)) [
  | inl invalid ↦ rw invalid (ground arith)
  | inr valid ↦ rw valid (process_value-kept p operation.purpose operation (data_of value) c)
]

pub finish_active_read-kept :
    (p : Platform) (success : Bool) (value : Payload) (c : BleClientHid)
    → kept (finish_active_read p success value c) ≡ kept c
unfolding finish_active_read note_failure mark_degraded operation_failed operation_succeeded
finish_active_read-kept p success value c = elim (Option-cases c.active_read) [
  | inl idle ↦ ground (arith, idle)
  | inr (operation, active) ↦
      let done =
        process_read_value-kept p operation value
          (operation_succeeded (record c { active_read = none })) in
      ground (arith, active, done)
]
