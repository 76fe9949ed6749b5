-- ===== src/Client/Gatt.antt =====
-- The inventory of the GATT database (components/ble_client_hid/ble_client_hid.h): services with
-- their characteristics and descriptors, and the look-ups of ble_client_hid.cpp in it.
use esphome_ble_remote.Prelude.{
  ℕ, Bool, ◌&&◌, Option, none, some, List, [], ◌∷◌, ◌==◌, if◌then◌else◌,
}
use esphome_ble_remote.Prelude.Text.{Text}
use esphome_ble_remote.Schema.ReportMap.{HidReportMap}

-- What the component reads of an `ESPBTUUID`: whether the length in `get_uuid()` is
-- ESP_UUID_LEN_16, the 16-bit value there, and the text of `as_128bit()`.
pub record EspBtUuid : Type 0 where
  pub is_short : Bool
  pub uuid16 : ℕ
  pub as_128bit : Text

pub record GattDescriptorInfo : Type 0 where
  pub uuid : EspBtUuid
  pub handle : ℕ

pub record GattCharacteristicInfo : Type 0 where
  pub uuid : EspBtUuid
  pub handle : ℕ
  pub properties : ℕ
  pub service_instance : ℕ
  pub descriptors : List GattDescriptorInfo

pub record GattIncludedServiceInfo : Type 0 where
  pub uuid : EspBtUuid
  pub declaration_handle : ℕ
  pub start_handle : ℕ
  pub end_handle : ℕ

pub record GattServiceInfo : Type 0 where
  pub uuid : EspBtUuid
  pub instance_ : ℕ
  pub start_handle : ℕ
  pub end_handle : ℕ
  pub primary : Bool
  pub included_services : List GattIncludedServiceInfo
  pub characteristics : List GattCharacteristicInfo

pub record HidServiceContext : Type 0 where
  pub service_instance : ℕ
  pub protocol_mode_handle : ℕ
  pub protocol_mode : ℕ
  pub report_map_hash : Text
  pub report_map : Option HidReportMap

unfoldable pub is_uuid16 : EspBtUuid → ℕ → Bool
is_uuid16 uuid expected = uuid.is_short && uuid.uuid16 == expected

-- `raw_uuid.len == ESP_UUID_LEN_16 ? raw_uuid.uuid.uuid16 : 0`.
abbrev pub short_uuid : EspBtUuid → ℕ
short_uuid uuid = if uuid.is_short then uuid.uuid16 else 0

find_among : ℕ → List GattCharacteristicInfo → Option GattCharacteristicInfo
find_among handle [] = none
find_among handle (c ∷ cs) = if c.handle == handle then some c else find_among handle cs

unfoldable pub find_characteristic : ℕ → List GattServiceInfo → Option GattCharacteristicInfo
unfolding find_among
find_characteristic handle [] = none
find_characteristic handle (service ∷ services) = elim (find_among handle service.characteristics) [
  | some c ↦ some c
  | none ↦ find_characteristic handle services
]

unfoldable pub find_descriptor : ℕ → List GattDescriptorInfo → Option GattDescriptorInfo
unfolding is_uuid16
find_descriptor uuid [] = none
find_descriptor uuid (d ∷ ds) = if is_uuid16 d.uuid uuid then some d else find_descriptor uuid ds

unfoldable pub find_hid_context : ℕ → List HidServiceContext → Option HidServiceContext
find_hid_context service_instance [] = none
find_hid_context service_instance (c ∷ cs) =
    if c.service_instance == service_instance then some c else find_hid_context service_instance cs

-- A write through the pointer that `find_hid_context_` returns.
unfoldable pub update_hid_context :
    ℕ → (HidServiceContext → HidServiceContext) → List HidServiceContext → List HidServiceContext
update_hid_context service_instance f [] = []
update_hid_context service_instance f (c ∷ cs) =
    if c.service_instance == service_instance
    then f c ∷ cs
    else c ∷ update_hid_context service_instance f cs
