-- ===== src/Client/Inventory/Bounds.antt =====
-- The limits of the inventory (components/ble_client_hid/ble_client_hid.cpp).
use esphome_ble_remote.Prelude.{
  ℕ, zero, suc, ◌+◌, ◌-◌, ◌≤◌, ◌≡◌, refl, sym, ap, subst, ◌∙◌, List, [], ◌∷◌, ◌++◌, map, arith,
  Bool, true, false, Bool-cases, inl, inr, leb, if◌then◌else◌, length, length-append, append-nil,
}
use esphome_ble_remote.Prelude.Text.{codes}
use esphome_ble_remote.Client.Uuids.{uuid_hid_service}
use esphome_ble_remote.Client.Limits.{
  max_services, max_included_services, max_characteristics, max_descriptors,
}
use esphome_ble_remote.Client.Gatt.{GattServiceInfo, HidServiceContext, is_uuid16}
use esphome_ble_remote.Client.State.{BleClientHid, operation_failed}
use esphome_ble_remote.Client.Setup.{mark_degraded}
use esphome_ble_remote.Client.Inventory.{
  ServiceElement, Database, Scan, update, new_context, scan_includes, scan_characteristic,
  scan_characteristics, scan_service, scan_services, inventory_gatt_database,
}
use esphome_ble_remote.Client.Inventory.Held.{Answer-cases}
use esphome_ble_remote.Client.Inventory.Totals.{
  FoundIsSound, with_service, with_service-IsSound, total, hid_instances, included_of,
  characteristics_of, descriptors_of,
}
use esphome_ble_remote.Client.Inventory.Scans.{
  Found, found, degrade_if-found, scan_includes-Includes, descriptor_count, Characteristics,
  no_characteristic, scan_characteristic-Characteristic,
}

recount :
    (f : Found) {a b c d : ℕ}
    → a ≡ b
    → c ≡ d
    → ◌≡◌ {A = Found}
        (record f { characteristics = a; descriptors = c })
        (record f { characteristics = b; descriptors = d })
recount f {b = b} {c = c} e h =
    ap (λ n. record f { characteristics = n; descriptors = c }) e
    ∙ ap (λ n. record f { characteristics = b; descriptors = n }) h

scan_characteristics-Characteristics :
    (db : Database) (service : ServiceElement) (service_instance left offset : ℕ) (s : Scan)
    → s.descriptor_total ≤ max_descriptors
    → Characteristics left s (scan_characteristics db service service_instance left offset s)
unfolding scan_characteristics mark_degraded operation_failed descriptor_count
scan_characteristics-Characteristics db service service_instance zero offset s h =
    no_characteristic zero s s h refl
scan_characteristics-Characteristics db service service_instance (suc left) offset s h =
    elim (Answer-cases (db.get_all_char service.start_handle service.end_handle offset)) [
      | inl e ↦ rw (scan_characteristics, e) (no_characteristic (suc left) s s h refl)
      | inr (inl e) ↦ rw (scan_characteristics, e) (no_characteristic (suc left) s _ h refl)
      | inr (inr (char, e)) ↦
          let one = scan_characteristic-Characteristic db service_instance char s h in
          let (characteristic, s1) = scan_characteristic db service_instance char s in
          let characteristics = ap (λ (f : Found). f.characteristics) one.counted in
          let descriptors = ap (λ (f : Found). f.descriptors) one.counted in
          let more = scan_characteristics db service service_instance left (offset + 1) in
          let rest =
            scan_characteristics-Characteristics db service service_instance left (offset + 1) s1
              (omega (arith, one.bounded, descriptors)) in
          rw (scan_characteristics, e)
            (record {
              counted =
                  rest.counted
                  ∙ ap
                      (λ (f : Found). record f {
                        characteristics = f.characteristics + length (more s1).0;
                        descriptors = f.descriptors + descriptor_count (more s1).0;
                      })
                      one.counted
                  ∙ recount (found s) (omega arith) (omega arith);
              bounded = omega (arith, rest.bounded);
              descriptors_bounded = omega (arith, rest.descriptors_bounded, descriptors);
            })
    ]

abbrev context_of : ℕ → ServiceElement → List HidServiceContext
context_of offset service =
    if is_uuid16 service.uuid uuid_hid_service then new_context offset ∷ [] else []

context_of_lem :
    (offset : ℕ) (service : ServiceElement)
    → map (λ context. context.service_instance) (context_of offset service)
      ≡ (if is_uuid16 service.uuid uuid_hid_service then offset ∷ [] else [])
context_of_lem offset service = elim (Bool-cases (is_uuid16 service.uuid uuid_hid_service)) [
  | inl hid ↦ rw hid refl
  | inr other ↦ rw other refl
]

if-append :
    (test : Bool) (xs ys : List HidServiceContext)
    → (if test then xs ++ ys else xs) ≡ xs ++ (if test then ys else [])
if-append true xs ys = refl
if-append false xs ys = sym (append-nil xs)

-- A service that is scanned adds what was found of it.
scan_service-IsSound :
    (db : Database) (offset : ℕ) (service : ServiceElement) (s : Scan)
    → FoundIsSound (found s)
    → FoundIsSound (found (scan_service db offset service s))
      × (length (scan_service db offset service s).client.services ≡ length s.client.services + 1)
unfolding scan_service
scan_service-IsSound db offset service s sound =
    let mark = if service.is_primary then codes ":P;" else codes ":S;" in
    let s0 = update (codes "S:" ++ service.uuid.as_128bit ++ mark) s in
    let including = scan_includes-Includes db service s0 sound.included_bounded in
    let (includes, s1) = scan_includes db service s0 in
    let same_descriptors = ap (λ (f : Found). f.descriptors) including.counted in
    let same_characteristics = ap (λ (f : Found). f.characteristics) including.counted in
    let left = max_characteristics - s1.characteristic_total in
    let describing =
      scan_characteristics-Characteristics db service offset left 0 s1
        (omega (arith, same_descriptors, sound.descriptors_bounded)) in
    let (characteristics, s2) = scan_characteristics db service offset left 0 s1 in
    let svc : GattServiceInfo = record {
      uuid = service.uuid;
      instance_ = offset;
      start_handle = service.start_handle;
      end_handle = service.end_handle;
      primary = service.is_primary;
      included_services = includes;
      characteristics = characteristics;
    } in
    let own = new_context offset ∷ [] in
    let is_hid = is_uuid16 service.uuid uuid_hid_service in
    let scanned =
      degrade_if-found (leb max_characteristics s2.characteristic_total)
        (codes "characteristic inventory limit exceeded") s2
      ∙ describing.counted
      ∙ ap
          (λ (f : Found). record f {
            characteristics = f.characteristics + length characteristics;
            descriptors = f.descriptors + descriptor_count characteristics;
          })
          including.counted in
    let whole : found (scan_service db offset service s)
        ≡ with_service svc (context_of offset service) (found s) =
      ap
        (λ (f : Found). record f {
          services = f.services ++ svc ∷ [];
          contexts = if is_hid then f.contexts ++ own else f.contexts;
        })
        scanned
      ∙ ap (λ l. record (with_service svc [] (found s)) { contexts = l })
          (if-append is_hid s.client.hid_services own) in
    (
      subst FoundIsSound (sym whole) (
          with_service-IsSound svc (context_of offset service) (found s) sound including.bounded
            (omega (arith, sound.characteristics_bounded, same_characteristics, describing.bounded))
            (omega (arith, same_descriptors, describing.descriptors_bounded))
            (context_of_lem offset service)),
      ap (λ (f : Found). length f.services) whole ∙ length-append s.client.services (svc ∷ []),
    )

-- The loop over the services: each of its rounds adds one.
scan_services-IsSound :
    (db : Database) (left offset : ℕ) (s : Scan)
    → FoundIsSound (found s)
    → FoundIsSound (found (scan_services db left offset s).0)
      × (length (scan_services db left offset s).0.client.services
          ≤ length s.client.services + left)
unfolding scan_services
scan_services-IsSound db zero offset s sound = (sound, omega arith)
scan_services-IsSound db (suc left) offset s sound = elim (Answer-cases (db.get_service offset)) [
  | inl e ↦ rw (scan_services, e) (sound, omega arith)
  | inr (inl e) ↦ rw (scan_services, e) (sound, omega arith)
  | inr (inr (service, e)) ↦
      let (one, size) = scan_service-IsSound db offset service s sound in
      let (rest, sizes) =
        scan_services-IsSound db left (offset + 1) (scan_service db offset service s) one in
      rw (scan_services, e) (rest, omega (arith, size, sizes))
]

-- The inventory of the component: its limits, and the contexts of its HID services.
pub record InventoryIsSound (c : BleClientHid) : Type 0 where
  pub services : length c.services ≤ max_services
  pub included : total included_of c.services ≤ max_included_services
  pub characteristics : total characteristics_of c.services ≤ max_characteristics
  pub descriptors : total descriptors_of c.services ≤ max_descriptors
  pub contexts : map (λ context. context.service_instance) c.hid_services ≡ hid_instances c.services

Found-Inventory :
    (f : Found) (c : BleClientHid)
    → FoundIsSound f
    → length f.services ≤ max_services
    → c.services ≡ f.services
    → c.hid_services ≡ f.contexts
    → InventoryIsSound c
Found-Inventory f c sound size same contexts = record {
  services = rw same size;
  included = rw same (omega (arith, sound.included, sound.included_bounded));
  characteristics = rw same (omega (arith, sound.characteristics, sound.characteristics_bounded));
  descriptors = rw same (omega (arith, sound.descriptors, sound.descriptors_bounded));
  contexts = rw (same, contexts) sound.contexts;
}

-- Whatever the GATT database answers, and how large it is, the inventory has at most 64 services
-- with 128 included services, 256 characteristics and 512 descriptors in all, and its HID contexts
-- are those of its HID services, in their order, also where the inventory ends early.
pub inventory-InventoryIsSound :
    (db : Database) (c : BleClientHid) → InventoryIsSound (inventory_gatt_database db c).0
unfolding inventory_gatt_database total hid_instances
inventory-InventoryIsSound db c =
    let start : Scan = record {
      included_total = 0;
      characteristic_total = 0;
      descriptor_total = 0;
      normalized = [];
      client = record c { services = []; hid_services = [] };
    } in
    let (sound, size) = scan_services-IsSound db max_services 0 start (record {
      included = refl;
      characteristics = refl;
      descriptors = refl;
      included_bounded = omega arith;
      characteristics_bounded = omega arith;
      descriptors_bounded = omega arith;
      contexts = refl;
    }) in
    let s = (scan_services db max_services 0 start).0 in
    let finished =
      degrade_if-found (leb max_services (length s.client.services))
        (codes "service inventory limit exceeded") s in
    let fits : length s.client.services ≤ max_services = omega (arith, size) in
    elim (Bool-cases (scan_services db max_services 0 start).1) [
      | inl complete ↦ rw complete (
          Found-Inventory (found s) _ sound fits (ap (λ (f : Found). f.services) finished)
            (ap (λ (f : Found). f.contexts) finished))
      | inr early ↦ rw early (Found-Inventory (found s) s.client sound fits refl refl)
    ]
