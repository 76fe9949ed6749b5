-- ===== src/Client/Inventory/Held.antt =====
-- What the inventory leaves as it is (components/ble_client_hid/ble_client_hid.cpp).
use esphome_ble_remote.Prelude.{
  ℕ, zero, suc, ◌+◌, ◌-◌, ◌≡◌, ◌⊎◌, refl, sym, ap, subst, All, ◌++◌, ◌∙◌, List, [], ◌∷◌, Bool, true,
  false, Bool-cases, Option-cases, inl, inr, leb, ltb, ◌==◌, ◌||◌, if◌then◌else◌, length, take,
}
use esphome_ble_remote.Prelude.Text.{Text, codes}
use esphome_ble_remote.Client.Limits.{max_services, max_included_services, max_characteristics}
use esphome_ble_remote.Client.Frame.{kept, held}
use esphome_ble_remote.Client.Maps.{MapExists, MapsAreSound}
use esphome_ble_remote.Client.Uuids.{uuid_hid_service}
use esphome_ble_remote.Client.Gatt.{GattIncludedServiceInfo, HidServiceContext, is_uuid16}
use esphome_ble_remote.Client.State.{BleClientHid, operation_failed}
use esphome_ble_remote.Client.Setup.{mark_degraded}
use esphome_ble_remote.Client.Inventory.{
  update, new_context, Answer, at_end, refused, element, ServiceElement, CharElement, Database,
  Scan, degrade_if, add_includes, scan_includes, scan_descriptors, scan_characteristic,
  scan_characteristics, scan_service, scan_services, inventory_gatt_database,
}

pub Answer-cases {ℓ} :
    {A : Type ℓ} (answer : Answer A)
    → (answer ≡ at_end) ⊎ ((answer ≡ refused) ⊎ ((a : A) × (answer ≡ element a)))
Answer-cases at_end = inl refl
Answer-cases refused = inr (inl refl)
Answer-cases (element a) = inr (inr (a, refl))

degrade_if-held :
    (bad : Bool) (reason : Text) (s : Scan) → held (degrade_if bad reason s).client ≡ held s.client
unfolding mark_degraded operation_failed
degrade_if-held true reason s = refl
degrade_if-held false reason s = refl

add_includes-held :
    (includes : List GattIncludedServiceInfo) (s : Scan)
    → held (add_includes includes s).client ≡ held s.client
unfolding add_includes
add_includes-held [] s = refl
add_includes-held (include ∷ includes) s = add_includes-held includes _

scan_includes-held :
    (db : Database) (service : ServiceElement) (s : Scan)
    → held (scan_includes db service s).1.client ≡ held s.client
unfolding scan_includes mark_degraded operation_failed
scan_includes-held db service s =
    elim (Option-cases (db.get_include_count service.start_handle service.end_handle)) [
      | inl e ↦ rw (scan_includes, e) refl
      | inr (count, e) ↦
          let remaining = max_included_services - s.included_total in
          let limited =
            degrade_if-held (ltb remaining count)
              (codes "included service inventory limit exceeded") s in
          let requested = if ltb remaining count then remaining else count in
          elim (Bool-cases (count == 0 || requested == 0)) [
            | inl empty ↦ rw (scan_includes, e, empty) limited
            | inr some_left ↦
                elim (Option-cases
                  (db.get_include_service service.start_handle service.end_handle requested)) [
                    | inl absent ↦ rw (scan_includes, e, some_left, absent) limited
                    | inr (includes, there) ↦
                        rw (scan_includes, e, some_left, there)
                          (add_includes-held (take requested includes) (
                              degrade_if (ltb remaining count)
                                (codes "included service inventory limit exceeded") s)
                            ∙ limited)
                  ]
          ]
    ]

scan_descriptors-held :
    (db : Database) (handle left offset : ℕ) (s : Scan)
    → held (scan_descriptors db handle left offset s).1.client ≡ held s.client
unfolding scan_descriptors mark_degraded operation_failed
scan_descriptors-held db handle zero offset s = refl
scan_descriptors-held db handle (suc left) offset s =
    elim (Answer-cases (db.get_all_descr handle offset)) [
      | inl e ↦ rw (scan_descriptors, e) refl
      | inr (inl e) ↦ rw (scan_descriptors, e) refl
      | inr (inr (descriptor, e)) ↦
          rw (scan_descriptors, e) (scan_descriptors-held db handle left (offset + 1) _)
    ]

scan_characteristic-held :
    (db : Database) (service_instance : ℕ) (char : CharElement) (s : Scan)
    → held (scan_characteristic db service_instance char s).1.client ≡ held s.client
unfolding scan_characteristic
scan_characteristic-held db service_instance char s =
    degrade_if-held _ _ _ ∙ scan_descriptors-held db char.char_handle _ 0 _

scan_characteristics-held :
    (db : Database) (service : ServiceElement) (service_instance left offset : ℕ) (s : Scan)
    → held (scan_characteristics db service service_instance left offset s).1.client ≡ held s.client
unfolding scan_characteristics mark_degraded operation_failed
scan_characteristics-held db service service_instance zero offset s = refl
scan_characteristics-held db service service_instance (suc left) offset s =
    elim (Answer-cases (db.get_all_char service.start_handle service.end_handle offset)) [
      | inl e ↦ rw (scan_characteristics, e) refl
      | inr (inl e) ↦ rw (scan_characteristics, e) refl
      | inr (inr (char, e)) ↦
          rw (scan_characteristics, e)
            (scan_characteristics-held db service service_instance left (offset + 1) _
              ∙ scan_characteristic-held db service_instance char s)
    ]

-- The members that the invariants are about are kept, and each report map is sound.
abbrev pub Scans : BleClientHid → BleClientHid → Type 0
Scans c d = (kept d ≡ kept c) × MapsAreSound d.hid_services

-- The new context of a HID service has no report map yet.
with_context-MapsAreSound :
    (test : Bool) (contexts : List HidServiceContext) (offset : ℕ)
    → MapsAreSound contexts
    → MapsAreSound (if test then contexts ++ new_context offset ∷ [] else contexts)
with_context-MapsAreSound false contexts offset sound = sound
with_context-MapsAreSound true [] offset sound = (tt, tt)
with_context-MapsAreSound true (context ∷ contexts) offset (first, rest) =
    (first, with_context-MapsAreSound true contexts offset rest)

scan_service-Scans :
    (db : Database) (offset : ℕ) (service : ServiceElement) (s : Scan)
    → MapsAreSound s.client.hid_services
    → Scans s.client (scan_service db offset service s).client
unfolding scan_service
scan_service-Scans db offset service s sound =
    let mark = if service.is_primary then codes ":P;" else codes ":S;" in
    let s0 = update (codes "S:" ++ service.uuid.as_128bit ++ mark) s in
    let (includes, s1) = scan_includes db service s0 in
    let left = max_characteristics - s1.characteristic_total in
    let (characteristics, s2) = scan_characteristics db service offset left 0 s1 in
    let same =
      degrade_if-held (leb max_characteristics s2.characteristic_total)
        (codes "characteristic inventory limit exceeded") s2
      ∙ scan_characteristics-held db service offset left 0 s1
      ∙ scan_includes-held db service s0 in
    (
      ap (λ h. (h.0, h.1)) same,
      with_context-MapsAreSound (is_uuid16 service.uuid uuid_hid_service) _ offset
          (subst (All MapExists) (sym (ap (λ h. h.2) same)) sound),
    )

scan_services-Scans :
    (db : Database) (left offset : ℕ) (s : Scan)
    → MapsAreSound s.client.hid_services
    → Scans s.client (scan_services db left offset s).0.client
unfolding scan_services
scan_services-Scans db zero offset s sound = (refl, sound)
scan_services-Scans db (suc left) offset s sound = elim (Answer-cases (db.get_service offset)) [
  | inl e ↦ rw (scan_services, e) (refl, sound)
  | inr (inl e) ↦ rw (scan_services, e) (refl, sound)
  | inr (inr (service, e)) ↦
      let (same, maps) = scan_service-Scans db offset service s sound in
      let (same', maps') =
        scan_services-Scans db left (offset + 1) (scan_service db offset service s) maps in
      rw (scan_services, e) (same' ∙ same, maps')
]

pub inventory-Scans : (db : Database) (c : BleClientHid) → Scans c (inventory_gatt_database db c).0
unfolding inventory_gatt_database
inventory-Scans db c =
    let start : Scan = record {
      included_total = 0;
      characteristic_total = 0;
      descriptor_total = 0;
      normalized = [];
      client = record c { services = []; hid_services = [] };
    } in
    let (scanned, maps) = scan_services-Scans db max_services 0 start tt in
    let finished =
      degrade_if-held
        (leb max_services (length (scan_services db max_services 0 start).0.client.services))
        (codes "service inventory limit exceeded") (scan_services db max_services 0 start).0 in
    elim (Bool-cases (scan_services db max_services 0 start).1) [
      | inl complete ↦ rw complete (
        ap (λ h. (h.0, h.1)) finished ∙ scanned,
        subst (All MapExists) (sym (ap (λ h. h.2) finished)) maps,
      )
      | inr early ↦ rw early (scanned, maps)
    ]
