-- ===== src/Client/Profile.antt =====
-- The profiles and the protocol mode (build_hid_profiles_, start_protocol_mode_write_ of
-- components/ble_client_hid/ble_client_hid.cpp).
pub mod Held
use esphome_ble_remote.Prelude.{
  ℕ, Bool, true, false, ◌&&◌, ◌||◌, not, Option, none, some, List, [], ◌∷◌, leb, ◌==◌,
  if◌then◌else◌,
}
use esphome_ble_remote.Prelude.Text.{codes}
use esphome_ble_remote.Schema.Usage.{
  HidReportSource, HidReportKind, input, output, feature, kind_value,
}
use esphome_ble_remote.Schema.ReportMap.{HidReportMap, find_report}
use esphome_ble_remote.Client.Uuids.{
  uuid_hid_service, uuid_boot_keyboard_input, uuid_boot_mouse_input, uuid_hid_protocol_mode,
}
use esphome_ble_remote.Client.Names.{
  ProtocolModePolicy, unchanged, boot, SetupPhase, building_profile, writing_protocol_mode,
  registering,
}
use esphome_ble_remote.Client.Gatt.{
  GattServiceInfo, GattCharacteristicInfo, HidServiceContext, is_uuid16, find_hid_context,
  update_hid_context,
}
use esphome_ble_remote.Client.State.{
  Platform, BleClientHid, called, perform, write_protocol_mode, insert_handle, assign_source,
  operation_succeeded,
}
use esphome_ble_remote.Client.Setup.{transition, mark_degraded}
use esphome_ble_remote.Client.Values.{source_of}
use esphome_ble_remote.Client.Subscribe.{is_report_uuid, plan_subscriptions}

-- The source of a report characteristic. A report without a reference degrades the profile.
unfoldable pub profile_report :
    GattServiceInfo → GattCharacteristicInfo → BleClientHid → BleClientHid
profile_report service characteristic c =
    let uuid = characteristic.uuid.uuid16 in
    let is_boot = uuid == uuid_boot_keyboard_input || uuid == uuid_boot_mouse_input in
    let source = record (source_of characteristic.handle c) {
      service_instance = service.instance_;
      characteristic_handle = characteristic.handle;
      characteristic_uuid = uuid;
    } in
    let as_input = record source { report_type = kind_value input; has_report_type = true } in
    record c {
      hid_report_handles = insert_handle characteristic.handle c.hid_report_handles;
      handle_report_source =
          assign_source characteristic.handle (if is_boot then as_input else source)
            c.handle_report_source;
      degraded = c.degraded || (not is_boot && not source.has_report_id);
    }

-- A write through `context` does nothing where it is null.
unfoldable pub profile_characteristic :
    GattServiceInfo → GattCharacteristicInfo → BleClientHid → BleClientHid
unfolding profile_report
profile_characteristic service characteristic c =
    let uuid = characteristic.uuid.uuid16 in
    let c1 = if is_report_uuid uuid then profile_report service characteristic c else c in
    if not characteristic.uuid.is_short
    then c
    else if uuid == uuid_hid_protocol_mode
    then record c1 {
      hid_services =
          update_hid_context service.instance_
            (λ context. record context { protocol_mode_handle = characteristic.handle })
            c1.hid_services;
    }
    else c1

unfoldable pub profile_characteristics :
    GattServiceInfo → List GattCharacteristicInfo → BleClientHid → BleClientHid
unfolding profile_characteristic
profile_characteristics service [] c = c
profile_characteristics service (characteristic ∷ characteristics) c =
    profile_characteristics service characteristics
      (profile_characteristic service characteristic c)

abbrev kind_of : ℕ → HidReportKind
kind_of report_type =
    if report_type == 1 then input else if report_type == 2 then output else feature

abbrev defines : HidReportMap → HidReportKind → ℕ → Bool
defines m kind report_id = elim (find_report m kind report_id) [ none ↦ false | some r ↦ true ]

-- Whether a source of the service refers to a report that its map does not define.
unfoldable pub is_undefined_reference : ℕ → HidReportMap → Option HidReportSource → Bool
unfolding find_report
is_undefined_reference service_instance m none = false
is_undefined_reference service_instance m (some source) =
    source.service_instance == service_instance
    && source.has_report_id
    && source.has_report_type
    && leb 1 source.report_type
    && leb source.report_type 3
    && not (defines m (kind_of source.report_type) source.report_id)

-- Whether one of the handles below `n` has such a source. Handles are uint16_t.
unfoldable pub any_undefined : ℕ → ℕ → HidReportMap → (ℕ → Option HidReportSource) → Bool
unfolding is_undefined_reference
any_undefined ℕ.zero service_instance m sources = false
any_undefined (ℕ.suc n) service_instance m sources =
    is_undefined_reference service_instance m (sources n)
    || any_undefined n service_instance m sources

abbrev report_map_of : Option HidServiceContext → Option HidReportMap
report_map_of none = none
report_map_of (some context) = context.report_map

unfoldable pub check_references : GattServiceInfo → BleClientHid → BleClientHid
unfolding any_undefined
check_references service c =
    elim (report_map_of (find_hid_context service.instance_ c.hid_services)) [
      | none ↦ c
      | some m ↦ record c {
        degraded = c.degraded || any_undefined 65536 service.instance_ m c.handle_report_source;
      }
    ]

unfoldable pub profile_services : List GattServiceInfo → BleClientHid → BleClientHid
unfolding profile_characteristics check_references is_uuid16
profile_services [] c = c
profile_services (service ∷ services) c = profile_services services (
    if is_uuid16 service.uuid uuid_hid_service
    then check_references service (profile_characteristics service service.characteristics c)
    else c)

unfoldable pub build_hid_profiles : BleClientHid → BleClientHid
unfolding profile_services
build_hid_profiles c = profile_services c.services c

abbrev pub is_building : SetupPhase → Bool
is_building building_profile = true
is_building _ = false

unfoldable pub protocol_handles : List HidServiceContext → List ℕ
protocol_handles [] = []
protocol_handles (context ∷ contexts) =
    if context.protocol_mode_handle == 0
    then protocol_handles contexts
    else context.protocol_mode_handle ∷ protocol_handles contexts

unfoldable pub planned_writes : ProtocolModePolicy → List HidServiceContext → List ℕ
planned_writes unchanged contexts = []
planned_writes _ contexts = protocol_handles contexts

abbrev pub protocol_value : ProtocolModePolicy → ℕ
protocol_value boot = 0
protocol_value _ = 1

unfoldable pub write_next : Platform → BleClientHid → BleClientHid
unfolding transition plan_subscriptions operation_succeeded mark_degraded
write_next p c = elim c.protocol_write_handles [
  | [] ↦ transition p registering (plan_subscriptions p c)
  | handle ∷ rest ↦
      let c1 =
        perform (write_protocol_mode handle (protocol_value c.protocol_mode_policy))
          (called (record c { protocol_write_handles = rest })) in
      if p.write_char c.calls handle
      then operation_succeeded c1
      else mark_degraded (codes "Protocol Mode write failed") c1
]

unfoldable pub start_protocol_mode_write : Platform → BleClientHid → BleClientHid
unfolding transition write_next planned_writes
start_protocol_mode_write p c = write_next p (
    if is_building c.setup_phase
    then transition p writing_protocol_mode
        (record c { protocol_write_handles = planned_writes c.protocol_mode_policy c.hid_services })
    else c)
