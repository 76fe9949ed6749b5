-- ===== src/Client/Profile/Held.antt =====
-- What the profiles leave as it is (components/ble_client_hid/ble_client_hid.cpp).
use esphome_ble_remote.Prelude.{◌≡◌, refl, ◌∙◌, List, [], ◌∷◌, arith, Option-cases, inl, inr}
use esphome_ble_remote.Client.Frame.{held}
use esphome_ble_remote.Client.Maps.{report_maps-update}
use esphome_ble_remote.Client.Gatt.{
  GattServiceInfo, GattCharacteristicInfo, find_hid_context, is_uuid16,
}
use esphome_ble_remote.Client.Uuids.{uuid_hid_service}
use esphome_ble_remote.Client.State.{BleClientHid}
use esphome_ble_remote.Client.Reads.Held.{if-held}
use esphome_ble_remote.Client.Profile.{
  profile_report, profile_characteristic, profile_characteristics, check_references,
  profile_services, build_hid_profiles, report_map_of,
}

profile_characteristic-held :
    (service : GattServiceInfo) (characteristic : GattCharacteristicInfo) (c : BleClientHid)
    → held (profile_characteristic service characteristic c) ≡ held c
unfolding profile_characteristic profile_report
profile_characteristic-held service characteristic c =
    let handle = characteristic.handle in
    let same =
      report_maps-update service.instance_
        (λ context. record context { protocol_mode_handle = handle }) c.hid_services
        (λ context. refl) in
    ground (arith, same)

profile_characteristics-held :
    (service : GattServiceInfo) (characteristics : List GattCharacteristicInfo) (c : BleClientHid)
    → held (profile_characteristics service characteristics c) ≡ held c
unfolding profile_characteristics
profile_characteristics-held service [] c = refl
profile_characteristics-held service (characteristic ∷ characteristics) c =
    profile_characteristics-held service characteristics _
    ∙ profile_characteristic-held service characteristic c

check_references-held :
    (service : GattServiceInfo) (c : BleClientHid) → held (check_references service c) ≡ held c
unfolding check_references
check_references-held service c =
    elim (Option-cases (report_map_of (find_hid_context service.instance_ c.hid_services))) [
      | inl absent ↦ rw (check_references, absent) refl
      | inr (m, there) ↦ rw (check_references, there) refl
    ]

profile_services-held :
    (services : List GattServiceInfo) (c : BleClientHid)
    → held (profile_services services c) ≡ held c
unfolding profile_services
profile_services-held [] c = refl
profile_services-held (service ∷ services) c =
    profile_services-held services _
    ∙ if-held (is_uuid16 service.uuid uuid_hid_service) c
        (check_references service (profile_characteristics service service.characteristics c)) c
        (check_references-held service _
          ∙ profile_characteristics-held service service.characteristics c)
        refl

pub build_hid_profiles-held : (c : BleClientHid) → held (build_hid_profiles c) ≡ held c
unfolding build_hid_profiles
build_hid_profiles-held c = profile_services-held c.services c
