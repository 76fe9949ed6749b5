-- ===== src/Client/Reads.antt =====
-- The reads of the set-up (add_read_, plan_reads_, start_next_read_ of
-- components/ble_client_hid/ble_client_hid.cpp).
pub mod Plan
pub mod Held
use esphome_ble_remote.Prelude.{
  ℕ, ◌+◌, Bool, true, false, ◌&&◌, ◌||◌, not, Option, none, some, List, [], ◌∷◌, ◌++◌, leb, ◌==◌,
  if◌then◌else◌, length,
}
use esphome_ble_remote.Prelude.Words.{test_bit}
use esphome_ble_remote.Prelude.Text.{codes}
use esphome_ble_remote.Client.Uuids.{
  uuid_gap_service, uuid_gatt_service, uuid_hid_service, uuid_battery_service,
  uuid_device_information_service, uuid_device_name, uuid_appearance,
  uuid_preferred_connection_parameters, uuid_service_changed, uuid_system_id, uuid_model_number,
  uuid_serial_number, uuid_firmware_revision, uuid_hardware_revision, uuid_software_revision,
  uuid_manufacturer_name, uuid_ieee_certification, uuid_battery_level, uuid_pnp_id,
  uuid_hid_information, uuid_hid_report_map, uuid_hid_report, uuid_hid_protocol_mode,
  uuid_boot_keyboard_input, uuid_boot_keyboard_output, uuid_boot_mouse_input, uuid_database_hash,
  uuid_client_supported_features, uuid_server_supported_features,
  uuid_characteristic_user_description, uuid_cccd, uuid_characteristic_presentation_format,
  uuid_characteristic_aggregate_format, uuid_external_report_reference, uuid_report_reference,
  is_dis_characteristic,
}
use esphome_ble_remote.Client.Limits.{max_read_operations}
use esphome_ble_remote.Client.Names.{DiscoveryMode, standard, forensic, building_profile}
use esphome_ble_remote.Client.Gatt.{
  EspBtUuid, GattServiceInfo, GattCharacteristicInfo, GattDescriptorInfo, is_uuid16, short_uuid,
}
use esphome_ble_remote.Client.State.{
  Platform, BleClientHid, ReadPurpose, generic_standard, generic_forensic, device_name, appearance,
  preferred_connection_parameters, battery_level, pnp_id, manufacturer, serial_number,
  hid_information, hid_report_map, hid_protocol_mode, hid_report_reference,
  hid_external_report_reference, hid_report_value, GattReadOperation, called, perform,
  read_attribute, operation_failed,
}
use esphome_ble_remote.Client.Setup.{transition, mark_degraded, note_failure}

abbrev pub is_forensic : DiscoveryMode → Bool
is_forensic standard = false
is_forensic forensic = true

-- `planned_read_handles_.count(handle) != 0`.
unfoldable pub is_planned : ℕ → List ℕ → Bool
is_planned handle [] = false
is_planned handle (h ∷ handles) = h == handle || is_planned handle handles

abbrev pub attribute_handle : GattCharacteristicInfo → Option GattDescriptorInfo → ℕ
attribute_handle characteristic none = characteristic.handle
attribute_handle characteristic (some descriptor) = descriptor.handle

abbrev attribute_uuid_of : GattCharacteristicInfo → Option GattDescriptorInfo → EspBtUuid
attribute_uuid_of characteristic none = characteristic.uuid
attribute_uuid_of characteristic (some descriptor) = descriptor.uuid

abbrev is_descriptor : Option GattDescriptorInfo → Bool
is_descriptor none = false
is_descriptor (some descriptor) = true

unfoldable pub add_read :
    GattServiceInfo
    → GattCharacteristicInfo
    → Option GattDescriptorInfo
    → ReadPurpose
    → Bool
    → BleClientHid
    → BleClientHid
unfolding is_planned mark_degraded
add_read service characteristic descriptor purpose required c =
    let handle = attribute_handle characteristic descriptor in
    if is_planned handle c.planned_read_handles
    then c
    else if leb max_read_operations (length c.read_queue)
    then mark_degraded (codes "read operation limit exceeded") c
    else record c {
      read_queue =
          c.read_queue
          ++ record {
            handle = handle;
            characteristic_handle = characteristic.handle;
            service_instance = service.instance_;
            purpose = purpose;
            descriptor = is_descriptor descriptor;
            required = required;
            service_uuid = service.uuid;
            characteristic_uuid = characteristic.uuid;
            attribute_uuid = attribute_uuid_of characteristic descriptor;
          }
            ∷ [];
      planned_read_handles = handle ∷ c.planned_read_handles;
    }

-- How a characteristic is read: its purpose, whether it is standard, whether it is required.
pub record ReadPlan : Type 0 where
  pub purpose : ReadPurpose
  pub standard : Bool
  pub required : Bool

gap_plan : ℕ → ReadPlan
gap_plan uuid = record {
  purpose =
      if uuid == uuid_device_name
      then device_name
      else if uuid == uuid_appearance
      then appearance
      else if uuid == uuid_preferred_connection_parameters
      then preferred_connection_parameters
      else generic_standard;
  standard =
      uuid == uuid_device_name
      || uuid == uuid_appearance
      || uuid == uuid_preferred_connection_parameters;
  required = false;
}

dis_plan : ℕ → ReadPlan
dis_plan uuid = record {
  purpose =
      if uuid == uuid_pnp_id
      then pnp_id
      else if uuid == uuid_manufacturer_name
      then manufacturer
      else if uuid == uuid_serial_number
      then serial_number
      else generic_standard;
  standard = true;
  required = false;
}

hid_plan : ℕ → ReadPlan
hid_plan uuid = record {
  purpose =
      if uuid == uuid_hid_information
      then hid_information
      else if uuid == uuid_hid_report_map
      then hid_report_map
      else if uuid == uuid_hid_protocol_mode
      then hid_protocol_mode
      else hid_report_value;
  standard =
      uuid == uuid_hid_information
      || uuid == uuid_hid_report_map
      || uuid == uuid_hid_protocol_mode
      || uuid == uuid_hid_report
      || uuid == uuid_boot_keyboard_input
      || uuid == uuid_boot_keyboard_output
      || uuid == uuid_boot_mouse_input;
  required = uuid == uuid_hid_report_map;
}

unfoldable pub characteristic_plan : EspBtUuid → ℕ → ReadPlan
unfolding gap_plan dis_plan hid_plan is_dis_characteristic is_uuid16
characteristic_plan service uuid =
    if is_uuid16 service uuid_gap_service
    then gap_plan uuid
    else if is_uuid16 service uuid_gatt_service
    then record {
      purpose = generic_standard;
      standard =
          uuid == uuid_service_changed
          || uuid == uuid_database_hash
          || uuid == uuid_client_supported_features
          || uuid == uuid_server_supported_features;
      required = false;
    }
    else if is_uuid16 service uuid_device_information_service && is_dis_characteristic uuid
    then dis_plan uuid
    else if is_uuid16 service uuid_battery_service && uuid == uuid_battery_level
    then record { purpose = battery_level; standard = true; required = false }
    else if is_uuid16 service uuid_hid_service
    then hid_plan uuid
    else record { purpose = generic_standard; standard = false; required = false }

unfoldable pub descriptor_plan : EspBtUuid → ReadPlan
unfolding is_uuid16
descriptor_plan uuid =
    if is_uuid16 uuid uuid_report_reference
    then record { purpose = hid_report_reference; standard = true; required = false }
    else if is_uuid16 uuid uuid_external_report_reference
    then record { purpose = hid_external_report_reference; standard = true; required = false }
    else record {
      purpose = generic_standard;
      standard =
          is_uuid16 uuid uuid_characteristic_user_description
          || is_uuid16 uuid uuid_characteristic_presentation_format
          || is_uuid16 uuid uuid_characteristic_aggregate_format;
      required = false;
    }

abbrev pub planned_purpose : ReadPlan → ReadPurpose
planned_purpose plan = if plan.standard then plan.purpose else generic_forensic

unfoldable pub plan_descriptors :
    GattServiceInfo → GattCharacteristicInfo → List GattDescriptorInfo → BleClientHid → BleClientHid
unfolding add_read descriptor_plan
plan_descriptors service characteristic [] c = c
plan_descriptors service characteristic (descriptor ∷ descriptors) c =
    let plan = descriptor_plan descriptor.uuid in
    plan_descriptors service characteristic descriptors (
      if plan.standard || is_forensic c.discovery_mode
      then add_read service characteristic (some descriptor) (planned_purpose plan) false c
      else c)

unfoldable pub plan_characteristics :
    Platform → GattServiceInfo → List GattCharacteristicInfo → BleClientHid → BleClientHid
unfolding add_read characteristic_plan plan_descriptors
plan_characteristics p service [] c = c
plan_characteristics p service (characteristic ∷ characteristics) c =
    let plan = characteristic_plan service.uuid (short_uuid characteristic.uuid) in
    let c1 =
      if test_bit characteristic.properties p.bit_read
        && (plan.standard || is_forensic c.discovery_mode)
      then add_read service characteristic none (planned_purpose plan) plan.required c
      else c in
    plan_characteristics p service characteristics
      (plan_descriptors service characteristic characteristic.descriptors c1)

unfoldable pub plan_services : Platform → List GattServiceInfo → BleClientHid → BleClientHid
unfolding plan_characteristics
plan_services p [] c = c
plan_services p (service ∷ services) c =
    plan_services p services (plan_characteristics p service service.characteristics c)

unfoldable pub plan_reads : Platform → BleClientHid → BleClientHid
unfolding plan_services
plan_reads p c =
    plan_services p c.services (record c { read_queue = []; planned_read_handles = [] })

-- The read that is taken from the queue. It is active while ESP-IDF accepts it.
unfoldable pub start_read :
    Platform → GattReadOperation → List GattReadOperation → BleClientHid → BleClientHid
unfolding note_failure
start_read p operation rest c =
    let c1 =
      perform (read_attribute operation.descriptor operation.handle)
        (called (record c { read_queue = rest })) in
    if p.read_attribute c.calls operation.descriptor operation.handle
    then record c1 { active_read = some operation }
    else note_failure operation.required (codes "required GATT read could not be scheduled")
        (record c1 { active_read = none })

abbrev pub is_active {ℓ} : {A : Type ℓ} → Option A → Bool
is_active none = false
is_active (some a) = true

unfoldable pub start_next_read : Platform → BleClientHid → BleClientHid
unfolding transition start_read
start_next_read p c = if is_active c.active_read || c.congested then c else elim c.read_queue [
  | [] ↦ transition p building_profile c
  | operation ∷ rest ↦ start_read p operation rest c
]
