-- ===== src/Client/Reads/Plan.antt =====
-- The plan of the reads (plan_reads_ of components/ble_client_hid/ble_client_hid.cpp).
use esphome_ble_remote.Prelude.{
  ℕ, ◌≤◌, ◌≡◌, ◌≢◌, refl, sym, ap, subst, List, [], ◌∷◌, ◌++◌, map, arith, length, All, All-append,
  All-map, Distinct, Distinct-snoc, map-snoc, leb, Bool, true, false, ◌||◌, ◌&&◌, Option, none,
  some, Bool-cases, inl, inr, length-append,
}
use esphome_ble_remote.Prelude.Words.{test_bit}
use esphome_ble_remote.Prelude.Text.{codes}
use esphome_ble_remote.Client.Limits.{max_read_operations}
use esphome_ble_remote.Client.Gatt.{
  GattServiceInfo, GattCharacteristicInfo, GattDescriptorInfo, short_uuid,
}
use esphome_ble_remote.Client.State.{Platform, BleClientHid, ReadPurpose, GattReadOperation}
use esphome_ble_remote.Client.Setup.{mark_degraded}
use esphome_ble_remote.Client.Reads.{
  is_planned, is_forensic, add_read, characteristic_plan, descriptor_plan, plan_descriptors,
  plan_characteristics, plan_services, plan_reads,
}

-- No attribute is read twice, the set has the handles of the queue, and the limit is kept.
pub record PlanIsSound (c : BleClientHid) : Type 0 where
  pub distinct : Distinct (map (λ operation. operation.handle) c.read_queue)
  pub planned :
      All (λ operation. is_planned operation.handle c.planned_read_handles ≡ true) c.read_queue
  pub bounded : length c.read_queue ≤ max_read_operations

fresh_handle :
    (handle : ℕ) (planned : List ℕ) (queue : List GattReadOperation)
    → is_planned handle planned ≡ false
    → All (λ operation. is_planned operation.handle planned ≡ true) queue
    → All (λ h. h ≢ handle) (map (λ operation. operation.handle) queue)
fresh_handle handle planned [] h all = tt
fresh_handle handle planned (operation ∷ queue) h all = (
  λ e. absurd (ground (arith, h, all.0, ap (λ x. is_planned x planned) e)),
  fresh_handle handle planned queue h all.1,
)

still_planned :
    (handle k : ℕ) (planned : List ℕ)
    → is_planned k planned ≡ true
    → is_planned k (handle ∷ planned) ≡ true
unfolding is_planned
still_planned handle k planned h = ground (arith, h)

now_planned : (handle : ℕ) (planned : List ℕ) → is_planned handle (handle ∷ planned) ≡ true
unfolding is_planned
now_planned handle planned = ground arith

queued :
    (c : BleClientHid) (operation : GattReadOperation)
    → is_planned operation.handle c.planned_read_handles ≡ false
    → leb max_read_operations (length c.read_queue) ≡ false
    → PlanIsSound c
    → PlanIsSound (record c {
      read_queue = c.read_queue ++ operation ∷ [];
      planned_read_handles = operation.handle ∷ c.planned_read_handles;
    })
queued c operation new room sound =
    let handle = operation.handle in
    let distinct =
      Distinct-snoc (map (λ o. o.handle) c.read_queue) handle sound.distinct
        (fresh_handle handle c.planned_read_handles c.read_queue new sound.planned) in
    record {
      distinct = subst Distinct (sym (map-snoc (λ o. o.handle) c.read_queue operation)) distinct;
      planned =
          All-append (λ o. is_planned o.handle (handle ∷ c.planned_read_handles) ≡ true)
            c.read_queue (operation ∷ [])
            (All-map (λ o h. still_planned handle o.handle c.planned_read_handles h) c.read_queue
              sound.planned)
            (now_planned handle c.planned_read_handles, tt);
      bounded = ground (arith, room, length-append c.read_queue (operation ∷ []));
    }

unchanged :
    (c d : BleClientHid)
    → d.read_queue ≡ c.read_queue
    → d.planned_read_handles ≡ c.planned_read_handles
    → PlanIsSound c
    → PlanIsSound d
unchanged c d same_queue same_handles sound = record {
  distinct = rw same_queue sound.distinct;
  planned = rw (same_queue, same_handles) sound.planned;
  bounded = rw same_queue sound.bounded;
}

add_read-PlanIsSound :
    (service : GattServiceInfo) (characteristic : GattCharacteristicInfo)
    (descriptor : Option GattDescriptorInfo) (purpose : ReadPurpose) (required : Bool)
    (c : BleClientHid)
    → PlanIsSound c
    → PlanIsSound (add_read service characteristic descriptor purpose required c)
unfolding add_read mark_degraded
add_read-PlanIsSound service characteristic none purpose required c sound =
    elim (Bool-cases (is_planned characteristic.handle c.planned_read_handles)) [
      | inl known ↦ rw known sound
      | inr new ↦ elim (Bool-cases (leb max_read_operations (length c.read_queue))) [
        | inl full ↦
            rw (new, full)
              (unchanged c (mark_degraded (codes "read operation limit exceeded") c) refl refl
                sound)
        | inr room ↦ rw (new, room) (queued c _ new room sound)
      ]
    ]
add_read-PlanIsSound service characteristic (some descriptor) purpose required c sound =
    elim (Bool-cases (is_planned descriptor.handle c.planned_read_handles)) [
      | inl known ↦ rw known sound
      | inr new ↦ elim (Bool-cases (leb max_read_operations (length c.read_queue))) [
        | inl full ↦
            rw (new, full)
              (unchanged c (mark_degraded (codes "read operation limit exceeded") c) refl refl
                sound)
        | inr room ↦ rw (new, room) (queued c _ new room sound)
      ]
    ]

plan_descriptors-PlanIsSound :
    (service : GattServiceInfo) (characteristic : GattCharacteristicInfo)
    (descriptors : List GattDescriptorInfo) (c : BleClientHid)
    → PlanIsSound c
    → PlanIsSound (plan_descriptors service characteristic descriptors c)
unfolding plan_descriptors
plan_descriptors-PlanIsSound service characteristic [] c sound = sound
plan_descriptors-PlanIsSound service characteristic (descriptor ∷ descriptors) c sound =
    let plan = descriptor_plan descriptor.uuid in
    elim (Bool-cases (plan.standard || is_forensic c.discovery_mode)) [
      | inl read ↦ rw read (
          plan_descriptors-PlanIsSound service characteristic descriptors _
            (add_read-PlanIsSound service characteristic (some descriptor) _ false c sound))
      | inr skip ↦ rw skip (plan_descriptors-PlanIsSound service characteristic descriptors c sound)
    ]

plan_characteristics-PlanIsSound :
    (p : Platform) (service : GattServiceInfo) (characteristics : List GattCharacteristicInfo)
    (c : BleClientHid)
    → PlanIsSound c
    → PlanIsSound (plan_characteristics p service characteristics c)
unfolding plan_characteristics
plan_characteristics-PlanIsSound p service [] c sound = sound
plan_characteristics-PlanIsSound p service (characteristic ∷ characteristics) c sound =
    let plan = characteristic_plan service.uuid (short_uuid characteristic.uuid) in
    elim (Bool-cases (
      test_bit characteristic.properties p.bit_read
      && (plan.standard || is_forensic c.discovery_mode))) [
        | inl read ↦ rw read (
            plan_characteristics-PlanIsSound p service characteristics _ (
              plan_descriptors-PlanIsSound service characteristic characteristic.descriptors _
                (add_read-PlanIsSound service characteristic none _ plan.required c sound)))
        | inr skip ↦ rw skip (
            plan_characteristics-PlanIsSound p service characteristics _ (
              plan_descriptors-PlanIsSound service characteristic characteristic.descriptors c
                sound))
      ]

plan_services-PlanIsSound :
    (p : Platform) (services : List GattServiceInfo) (c : BleClientHid)
    → PlanIsSound c
    → PlanIsSound (plan_services p services c)
unfolding plan_services
plan_services-PlanIsSound p [] c sound = sound
plan_services-PlanIsSound p (service ∷ services) c sound =
    plan_services-PlanIsSound p services _
      (plan_characteristics-PlanIsSound p service service.characteristics c sound)

-- Whatever the inventory, the plan reads no attribute handle twice, holds 384 reads at most, and has
-- the handle of each planned read in the set of the planned handles.
pub plan_reads-PlanIsSound : (p : Platform) (c : BleClientHid) → PlanIsSound (plan_reads p c)
unfolding plan_reads
plan_reads-PlanIsSound p c =
    plan_services-PlanIsSound p c.services (record c { read_queue = []; planned_read_handles = [] })
      (record { distinct = tt; planned = tt; bounded = omega arith })
