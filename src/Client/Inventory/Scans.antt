-- ===== src/Client/Inventory/Scans.antt =====
-- What the scans of the inventory count (components/ble_client_hid/ble_client_hid.cpp).
use esphome_ble_remote.Prelude.{
  ℕ, zero, suc, ◌+◌, ◌-◌, ◌≤◌, ◌≡◌, refl, ap, ◌∙◌, List, [], ◌∷◌, arith, Bool, true, false,
  Bool-cases, Option-cases, inl, inr, ltb, ◌==◌, ◌||◌, if◌then◌else◌, length, take, length-take,
}
use esphome_ble_remote.Prelude.Text.{Text, codes}
use esphome_ble_remote.Client.Limits.{max_included_services, max_descriptors}
use esphome_ble_remote.Client.Gatt.{
  GattServiceInfo, GattCharacteristicInfo, GattDescriptorInfo, GattIncludedServiceInfo,
  HidServiceContext,
}
use esphome_ble_remote.Client.State.{operation_failed}
use esphome_ble_remote.Client.Setup.{mark_degraded}
use esphome_ble_remote.Client.Inventory.{
  ServiceElement, CharElement, Database, Scan, degrade_if, add_includes, scan_includes,
  scan_descriptors, scan_characteristic,
}
use esphome_ble_remote.Client.Inventory.Held.{Answer-cases}

-- What a scan has inventoried.
pub record Found : Type 0 where
  pub included : ℕ
  pub characteristics : ℕ
  pub descriptors : ℕ
  pub services : List GattServiceInfo
  pub contexts : List HidServiceContext

abbrev pub found : Scan → Found
found s = record {
  included = s.included_total;
  characteristics = s.characteristic_total;
  descriptors = s.descriptor_total;
  services = s.client.services;
  contexts = s.client.hid_services;
}

pub degrade_if-found :
    (bad : Bool) (reason : Text) (s : Scan) → found (degrade_if bad reason s) ≡ found s
unfolding mark_degraded operation_failed
degrade_if-found true reason s = refl
degrade_if-found false reason s = refl

add_includes-found :
    (includes : List GattIncludedServiceInfo) (s : Scan)
    → found (add_includes includes s)
      ≡ record (found s) { included = s.included_total + length includes }
unfolding add_includes
add_includes-found [] s = ap (λ n. record (found s) { included = n }) (omega arith)
add_includes-found (include ∷ includes) s =
    add_includes-found includes _ ∙ ap (λ n. record (found s) { included = n }) (omega arith)

length-take_le : {A : Type 0} (n m : ℕ) (xs : List A) → n ≤ m → length (take n xs) ≤ m
length-take_le n m xs h = omega (arith, h, length-take n xs)

at_most : (remaining count : ℕ) → (if ltb remaining count then remaining else count) ≤ remaining
at_most remaining count = ground arith

-- The included services are counted, and fit.
pub record Includes (s : Scan) (result : List GattIncludedServiceInfo × Scan) : Type 0 where
  pub counted : found result.1 ≡ record (found s) { included = s.included_total + length result.0 }
  pub bounded : s.included_total + length result.0 ≤ max_included_services

none_included :
    (s s1 : Scan)
    → s.included_total ≤ max_included_services
    → found s1 ≡ found s
    → Includes s ([], s1)
none_included s s1 h same = record {
  counted = same ∙ ap (λ n. record (found s) { included = n }) (omega arith);
  bounded = omega (arith, h);
}

pub scan_includes-Includes :
    (db : Database) (service : ServiceElement) (s : Scan)
    → s.included_total ≤ max_included_services
    → Includes s (scan_includes db service s)
unfolding scan_includes mark_degraded operation_failed
scan_includes-Includes db service s h =
    elim (Option-cases (db.get_include_count service.start_handle service.end_handle)) [
      | inl e ↦ rw (scan_includes, e) (none_included s s h refl)
      | inr (count, e) ↦
          let remaining = max_included_services - s.included_total in
          let s1 =
            degrade_if (ltb remaining count) (codes "included service inventory limit exceeded")
              s in
          let same =
            degrade_if-found (ltb remaining count)
              (codes "included service inventory limit exceeded") s in
          let requested = if ltb remaining count then remaining else count in
          elim (Bool-cases (count == 0 || requested == 0)) [
            | inl empty ↦ rw (scan_includes, e, empty) (none_included s s1 h same)
            | inr some_left ↦
                elim (Option-cases
                  (db.get_include_service service.start_handle service.end_handle requested)) [
                    | inl absent ↦
                        rw (scan_includes, e, some_left, absent) (none_included s _ h same)
                    | inr (includes, there) ↦
                        rw (scan_includes, e, some_left, there)
                          (record {
                            counted =
                                add_includes-found (take requested includes) s1
                                ∙ ap
                                    (λ (f : Found). record f {
                                      included = f.included + length (take requested includes);
                                    })
                                    same;
                            bounded = fits (take requested includes) (
                                length-take_le requested remaining includes
                                  (at_most remaining count));
                          })
                  ]
          ]
    ]
  where
    fits :
        (xs : List GattIncludedServiceInfo)
        → length xs ≤ max_included_services - s.included_total
        → s.included_total + length xs ≤ max_included_services
    fits xs k = omega (arith, h, k)

-- The descriptors are counted, and fit.
pub record Descriptors (left : ℕ) (s : Scan) (result : List GattDescriptorInfo × Scan)
    : Type 0 where
  pub counted :
      found result.1 ≡ record (found s) { descriptors = s.descriptor_total + length result.0 }
  pub bounded : length result.0 ≤ left

no_descriptor : (left : ℕ) (s s1 : Scan) → found s1 ≡ found s → Descriptors left s ([], s1)
no_descriptor left s s1 same = record {
  counted = same ∙ ap (λ n. record (found s) { descriptors = n }) (omega arith);
  bounded = omega arith;
}

scan_descriptors-Descriptors :
    (db : Database) (handle left offset : ℕ) (s : Scan)
    → Descriptors left s (scan_descriptors db handle left offset s)
unfolding scan_descriptors mark_degraded operation_failed
scan_descriptors-Descriptors db handle zero offset s = no_descriptor zero s s refl
scan_descriptors-Descriptors db handle (suc left) offset s =
    elim (Answer-cases (db.get_all_descr handle offset)) [
      | inl e ↦ rw (scan_descriptors, e) (no_descriptor (suc left) s s refl)
      | inr (inl e) ↦ rw (scan_descriptors, e) (no_descriptor (suc left) s _ refl)
      | inr (inr (descriptor, e)) ↦
          let rest = scan_descriptors-Descriptors db handle left (offset + 1) _ in
          rw (scan_descriptors, e)
            (record {
              counted = rest.counted ∙ ap (λ n. record (found s) { descriptors = n }) (omega arith);
              bounded = omega (arith, rest.bounded);
            })
    ]

-- The descriptors of characteristics.
unfoldable pub descriptor_count : List GattCharacteristicInfo → ℕ
descriptor_count [] = 0
descriptor_count (characteristic ∷ characteristics) =
    length characteristic.descriptors + descriptor_count characteristics

-- The characteristics and their descriptors are counted, and fit.
pub record Characteristics (left : ℕ) (s : Scan) (result : List GattCharacteristicInfo × Scan)
    : Type 0 where
  pub counted : found result.1 ≡ record (found s) {
    characteristics = s.characteristic_total + length result.0;
    descriptors = s.descriptor_total + descriptor_count result.0;
  }
  pub bounded : length result.0 ≤ left
  pub descriptors_bounded : s.descriptor_total + descriptor_count result.0 ≤ max_descriptors

pub no_characteristic :
    (left : ℕ) (s s1 : Scan)
    → s.descriptor_total ≤ max_descriptors
    → found s1 ≡ found s
    → Characteristics left s ([], s1)
unfolding descriptor_count
no_characteristic left s s1 h same = record {
  counted =
      same
      ∙ ap (λ n. record (found s) { characteristics = n; descriptors = s.descriptor_total })
          (omega arith)
      ∙ ap (λ n. record (found s) { characteristics = s.characteristic_total + 0; descriptors = n })
          (omega arith);
  bounded = omega arith;
  descriptors_bounded = omega (arith, h);
}

-- The characteristic is counted, and its descriptors fit.
pub record Characteristic (s : Scan) (result : GattCharacteristicInfo × Scan) : Type 0 where
  pub counted : found result.1 ≡ record (found s) {
    characteristics = s.characteristic_total + 1;
    descriptors = s.descriptor_total + length result.0.descriptors;
  }
  pub bounded : s.descriptor_total + length result.0.descriptors ≤ max_descriptors

pub scan_characteristic-Characteristic :
    (db : Database) (service_instance : ℕ) (char : CharElement) (s : Scan)
    → s.descriptor_total ≤ max_descriptors
    → Characteristic s (scan_characteristic db service_instance char s)
unfolding scan_characteristic
scan_characteristic-Characteristic db service_instance char s h =
    let described =
      scan_descriptors-Descriptors db char.char_handle (max_descriptors - s.descriptor_total) 0 _ in
    record {
      counted = degrade_if-found _ _ _ ∙ described.counted;
      bounded = omega (arith, h, described.bounded);
    }
