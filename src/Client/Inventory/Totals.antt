-- ===== src/Client/Inventory/Totals.antt =====
-- What the inventory has found so far (components/ble_client_hid/ble_client_hid.cpp).
use mathlib.Core.List.{map-append}
use esphome_ble_remote.Prelude.{
  ℕ, ◌+◌, ◌≤◌, ◌≡◌, refl, sym, ap, ◌∙◌, List, [], ◌∷◌, ◌++◌, map, arith, Bool-cases, inl, inr,
  if◌then◌else◌, length,
}
use esphome_ble_remote.Client.Uuids.{uuid_hid_service}
use esphome_ble_remote.Client.Limits.{max_included_services, max_characteristics, max_descriptors}
use esphome_ble_remote.Client.Gatt.{GattServiceInfo, HidServiceContext, is_uuid16}
use esphome_ble_remote.Client.Inventory.Scans.{Found, descriptor_count}

-- A measure of each service, summed.
unfoldable pub total : (GattServiceInfo → ℕ) → List GattServiceInfo → ℕ
total measure [] = 0
total measure (service ∷ services) = measure service + total measure services

total-snoc :
    (measure : GattServiceInfo → ℕ) (services : List GattServiceInfo) (service : GattServiceInfo)
    → total measure (services ++ service ∷ []) ≡ total measure services + measure service
unfolding total
total-snoc measure [] service = omega arith
total-snoc measure (first ∷ services) service = omega (arith, total-snoc measure services service)

-- The instances of the HID services.
unfoldable pub hid_instances : List GattServiceInfo → List ℕ
unfolding is_uuid16
hid_instances [] = []
hid_instances (service ∷ services) =
    if is_uuid16 service.uuid uuid_hid_service
    then service.instance_ ∷ hid_instances services
    else hid_instances services

hid_instances-snoc :
    (services : List GattServiceInfo) (service : GattServiceInfo)
    → hid_instances (services ++ service ∷ [])
      ≡ hid_instances services
        ++ (if is_uuid16 service.uuid uuid_hid_service then service.instance_ ∷ [] else [])
unfolding hid_instances
hid_instances-snoc [] service = refl
hid_instances-snoc (first ∷ services) service =
    elim (Bool-cases (is_uuid16 first.uuid uuid_hid_service)) [
      | inl hid ↦ rw hid (ap (λ l. first.instance_ ∷ l) (hid_instances-snoc services service))
      | inr other ↦ rw other (hid_instances-snoc services service)
    ]

abbrev pub included_of : GattServiceInfo → ℕ
included_of service = length service.included_services

abbrev pub characteristics_of : GattServiceInfo → ℕ
characteristics_of service = length service.characteristics

abbrev pub descriptors_of : GattServiceInfo → ℕ
descriptors_of service = descriptor_count service.characteristics

-- The totals are those of the services, within the limits, and the contexts are the HID services'.
pub record FoundIsSound (f : Found) : Type 0 where
  pub included : f.included ≡ total included_of f.services
  pub characteristics : f.characteristics ≡ total characteristics_of f.services
  pub descriptors : f.descriptors ≡ total descriptors_of f.services
  pub included_bounded : f.included ≤ max_included_services
  pub characteristics_bounded : f.characteristics ≤ max_characteristics
  pub descriptors_bounded : f.descriptors ≤ max_descriptors
  pub contexts : map (λ context. context.service_instance) f.contexts ≡ hid_instances f.services

-- A service is added to what was found.
abbrev pub with_service : GattServiceInfo → List HidServiceContext → Found → Found
with_service service contexts f = record f {
  included = f.included + included_of service;
  characteristics = f.characteristics + characteristics_of service;
  descriptors = f.descriptors + descriptors_of service;
  services = f.services ++ service ∷ [];
  contexts = f.contexts ++ contexts;
}

pub with_service-IsSound :
    (service : GattServiceInfo) (contexts : List HidServiceContext) (f : Found)
    → FoundIsSound f
    → f.included + included_of service ≤ max_included_services
    → f.characteristics + characteristics_of service ≤ max_characteristics
    → f.descriptors + descriptors_of service ≤ max_descriptors
    → map (λ context. context.service_instance) contexts
      ≡ (if is_uuid16 service.uuid uuid_hid_service then service.instance_ ∷ [] else [])
    → FoundIsSound (with_service service contexts f)
with_service-IsSound service contexts f sound i c d same = record {
  included = omega (arith, sound.included, total-snoc included_of f.services service);
  characteristics =
      omega (arith, sound.characteristics, total-snoc characteristics_of f.services service);
  descriptors = omega (arith, sound.descriptors, total-snoc descriptors_of f.services service);
  included_bounded = i;
  characteristics_bounded = c;
  descriptors_bounded = d;
  contexts =
      map-append (λ context. context.service_instance) f.contexts contexts
      ∙ ap (λ l. l ++ map (λ context. context.service_instance) contexts) sound.contexts
      ∙ ap (λ l. hid_instances f.services ++ l) same
      ∙ sym (hid_instances-snoc f.services service);
}
