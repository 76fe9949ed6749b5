-- ===== src/Client/Inventory.antt =====
-- The inventory of the GATT database (inventory_gatt_database_ of
-- components/ble_client_hid/ble_client_hid.cpp).
pub mod Held
pub mod Scans
pub mod Totals
pub mod Bounds
use esphome_ble_remote.Prelude.{
  ℕ, zero, suc, ◌+◌, ◌-◌, Bool, true, false, ◌||◌, not, Option, none, some, List, [], ◌∷◌, ◌++◌,
  ltb, leb, ◌==◌, if◌then◌else◌, length, take,
}
use esphome_ble_remote.Prelude.Text.{Text, codes, nat_to_string}
use esphome_ble_remote.Client.Uuids.{uuid_hid_service}
use esphome_ble_remote.Client.Limits.{
  max_services, max_included_services, max_characteristics, max_descriptors,
}
use esphome_ble_remote.Client.Names.{digest_string}
use esphome_ble_remote.Client.Gatt.{
  EspBtUuid, GattDescriptorInfo, GattCharacteristicInfo, GattIncludedServiceInfo, HidServiceContext,
  is_uuid16,
}
use esphome_ble_remote.Client.State.{BleClientHid}
use esphome_ble_remote.Client.Setup.{mark_degraded}

-- The answer to a request for one element: ESP_GATT_INVALID_OFFSET or ESP_GATT_NOT_FOUND, another
-- status than ESP_GATT_OK or no element, or the element.
pub data Answer {ℓ} (A : Type ℓ) : Type ℓ where
  at_end refused : Answer A
  element : A → Answer A

pub record ServiceElement : Type 0 where
  pub uuid : EspBtUuid
  pub start_handle : ℕ
  pub end_handle : ℕ
  pub is_primary : Bool

pub record CharElement : Type 0 where
  pub uuid : EspBtUuid
  pub char_handle : ℕ
  pub properties : ℕ

-- The database as ESP-IDF gives it, and mbedTLS: `sha256_stream` is a digest of strings added one
-- by one. `none` is a status other than success.
pub record Database : Type 0 where
  pub get_service : ℕ → Answer ServiceElement
  pub get_include_count : ℕ → ℕ → Option ℕ
  pub get_include_service : ℕ → ℕ → ℕ → Option (List GattIncludedServiceInfo)
  pub get_all_char : ℕ → ℕ → ℕ → Answer CharElement
  pub get_all_descr : ℕ → ℕ → Answer GattDescriptorInfo
  pub sha256_stream : List Text → Option (List ℕ)

-- The local variables of the inventory, and the component.
pub record Scan : Type 0 where
  pub included_total : ℕ
  pub characteristic_total : ℕ
  pub descriptor_total : ℕ
  pub normalized : List Text
  pub client : BleClientHid

abbrev pub update : Text → Scan → Scan
update text s = record s { normalized = s.normalized ++ text ∷ [] }

abbrev degrade : Text → Scan → Scan
degrade reason s = record s { client = mark_degraded reason s.client }

abbrev pub degrade_if : Bool → Text → Scan → Scan
degrade_if bad reason s = if bad then degrade reason s else s

unfoldable pub add_includes : List GattIncludedServiceInfo → Scan → Scan
add_includes [] s = s
add_includes (include ∷ includes) s =
    add_includes includes (record (update (codes "I:" ++ include.uuid.as_128bit ++ codes ";") s) {
      included_total = s.included_total + 1;
    })

-- At most the number that is asked for is returned.
unfoldable pub scan_includes :
    Database → ServiceElement → Scan → List GattIncludedServiceInfo × Scan
unfolding add_includes mark_degraded
scan_includes db service s = elim (db.get_include_count service.start_handle service.end_handle) [
  | none ↦ ([], s)
  | some count ↦
      let remaining = max_included_services - s.included_total in
      let s1 =
        degrade_if (ltb remaining count) (codes "included service inventory limit exceeded") s in
      let requested = if ltb remaining count then remaining else count in
      if count == 0 || requested == 0
      then ([], s1)
      else elim (db.get_include_service service.start_handle service.end_handle requested) [
        | none ↦ ([], degrade (codes "included service inventory failed") s1)
        | some includes ↦ (take requested includes, add_includes (take requested includes) s1)
      ]
]

-- The fuel is what the limit leaves, so the loop's condition is that there is some.
unfoldable pub scan_descriptors : Database → ℕ → ℕ → ℕ → Scan → List GattDescriptorInfo × Scan
unfolding mark_degraded
scan_descriptors db handle zero offset s = ([], s)
scan_descriptors db handle (suc left) offset s = elim (db.get_all_descr handle offset) [
  | at_end ↦ ([], s)
  | refused ↦ ([], degrade (codes "descriptor inventory failed") s)
  | element descriptor ↦
      let (descriptors, s1) =
        scan_descriptors db handle left (offset + 1)
          (record (update (codes "D:" ++ descriptor.uuid.as_128bit ++ codes ";") s) {
            descriptor_total = s.descriptor_total + 1;
          }) in
      (descriptor ∷ descriptors, s1)
]

-- A characteristic with its descriptors.
unfoldable pub scan_characteristic :
    Database → ℕ → CharElement → Scan → GattCharacteristicInfo × Scan
unfolding scan_descriptors mark_degraded nat_to_string
scan_characteristic db service_instance char s =
    let counted =
      record (update
        (codes "C:"
          ++ char.uuid.as_128bit
          ++ codes ":"
          ++ nat_to_string char.properties
          ++ codes ";")
        s) { characteristic_total = s.characteristic_total + 1 } in
    let (descriptors, s1) =
      scan_descriptors db char.char_handle (max_descriptors - s.descriptor_total) 0 counted in
    (
      record {
        uuid = char.uuid;
        handle = char.char_handle;
        properties = char.properties;
        service_instance = service_instance;
        descriptors = descriptors;
      },
      degrade_if (leb max_descriptors s1.descriptor_total)
          (codes "descriptor inventory limit exceeded") s1,
    )

unfoldable pub scan_characteristics :
    Database → ServiceElement → ℕ → ℕ → ℕ → Scan → List GattCharacteristicInfo × Scan
unfolding scan_characteristic mark_degraded
scan_characteristics db service service_instance zero offset s = ([], s)
scan_characteristics db service service_instance (suc left) offset s =
    elim (db.get_all_char service.start_handle service.end_handle offset) [
      | at_end ↦ ([], s)
      | refused ↦ ([], degrade (codes "characteristic inventory failed") s)
      | element char ↦
          let (characteristic, s1) = scan_characteristic db service_instance char s in
          let (characteristics, s2) =
            scan_characteristics db service service_instance left (offset + 1) s1 in
          (characteristic ∷ characteristics, s2)
    ]

abbrev pub new_context : ℕ → HidServiceContext
new_context service_instance = record {
  service_instance = service_instance;
  protocol_mode_handle = 0;
  protocol_mode = 0xFF;
  report_map_hash = [];
  report_map = none;
}

-- One service, appended to the inventory.
unfoldable pub scan_service : Database → ℕ → ServiceElement → Scan → Scan
unfolding scan_includes scan_characteristics mark_degraded is_uuid16
scan_service db offset service s =
    let mark = if service.is_primary then codes ":P;" else codes ":S;" in
    let (includes, s1) =
      scan_includes db service (update (codes "S:" ++ service.uuid.as_128bit ++ mark) s) in
    let (characteristics, s2) =
      scan_characteristics db service offset (max_characteristics - s1.characteristic_total) 0 s1 in
    let s3 =
      degrade_if (leb max_characteristics s2.characteristic_total)
        (codes "characteristic inventory limit exceeded") s2 in
    record s3 {
      client = record s3.client {
        hid_services =
            if is_uuid16 service.uuid uuid_hid_service
            then s3.client.hid_services ++ new_context offset ∷ []
            else s3.client.hid_services;
        services =
            s3.client.services
            ++ record {
              uuid = service.uuid;
              instance_ = offset;
              start_handle = service.start_handle;
              end_handle = service.end_handle;
              primary = service.is_primary;
              included_services = includes;
              characteristics = characteristics;
            }
              ∷ [];
      };
    }

-- `false` is the early return at a refused service.
unfoldable pub scan_services : Database → ℕ → ℕ → Scan → Scan × Bool
unfolding scan_service
scan_services db zero offset s = (s, true)
scan_services db (suc left) offset s = elim (db.get_service offset) [
  | at_end ↦ (s, true)
  | refused ↦ (s, false)
  | element service ↦ scan_services db left (offset + 1) (scan_service db offset service s)
]

abbrev hash_text : Option (List ℕ) → Text
hash_text none = codes "unavailable"
hash_text (some digest) = digest_string digest

abbrev finish_scan : Database → Scan → BleClientHid
finish_scan db s =
    let s1 =
      degrade_if (leb max_services (length s.client.services))
        (codes "service inventory limit exceeded") s in
    record s1.client { gatt_profile_hash = hash_text (db.sha256_stream s1.normalized) }

unfoldable pub inventory_gatt_database : Database → BleClientHid → BleClientHid × Bool
unfolding scan_services mark_degraded digest_string
inventory_gatt_database db c =
    let (s, complete) = scan_services db max_services 0 (record {
      included_total = 0;
      characteristic_total = 0;
      descriptor_total = 0;
      normalized = [];
      client = record c { services = []; hid_services = [] };
    }) in
    let c1 = finish_scan db s in
    if complete then (c1, not (length c1.services == 0)) else (s.client, false)
