-- ===== src/Client/Reads/Held.antt =====
-- What the plan of the reads and their start leave as they are
-- (components/ble_client_hid/ble_client_hid.cpp).
use esphome_ble_remote.Prelude.{
  ◌≡◌, refl, ◌∙◌, List, [], ◌∷◌, arith, Bool, true, false, Option, none, some, if◌then◌else◌,
}
use esphome_ble_remote.Client.Frame.{held}
use esphome_ble_remote.Client.Gatt.{
  GattServiceInfo, GattCharacteristicInfo, GattDescriptorInfo, short_uuid,
}
use esphome_ble_remote.Client.State.{
  Platform, BleClientHid, ReadPurpose, GattReadOperation, operation_failed,
}
use esphome_ble_remote.Client.Setup.{mark_degraded, note_failure}
use esphome_ble_remote.Client.Reads.{
  add_read, characteristic_plan, descriptor_plan, plan_descriptors, plan_characteristics,
  plan_services, plan_reads, start_read, planned_purpose,
}

-- A branch that may leave things as they are.
pub if-held :
    (test : Bool) (c d e : BleClientHid)
    → held d ≡ held c
    → held e ≡ held c
    → held (if test then d else e) ≡ held c
if-held true c d e h k = h
if-held false c d e h k = k

add_read-held :
    (service : GattServiceInfo) (characteristic : GattCharacteristicInfo)
    (descriptor : Option GattDescriptorInfo) (purpose : ReadPurpose) (required : Bool)
    (c : BleClientHid)
    → held (add_read service characteristic descriptor purpose required c) ≡ held c
unfolding add_read mark_degraded operation_failed
add_read-held service characteristic none purpose required c = ground arith
add_read-held service characteristic (some descriptor) purpose required c = ground arith

plan_descriptors-held :
    (service : GattServiceInfo) (characteristic : GattCharacteristicInfo)
    (descriptors : List GattDescriptorInfo) (c : BleClientHid)
    → held (plan_descriptors service characteristic descriptors c) ≡ held c
unfolding plan_descriptors
plan_descriptors-held service characteristic [] c = refl
plan_descriptors-held service characteristic (descriptor ∷ descriptors) c =
    let plan = descriptor_plan descriptor.uuid in
    plan_descriptors-held service characteristic descriptors _
    ∙ if-held _ c _ _
        (add_read-held service characteristic (some descriptor) (planned_purpose plan) false c) refl

plan_characteristics-held :
    (p : Platform) (service : GattServiceInfo) (characteristics : List GattCharacteristicInfo)
    (c : BleClientHid)
    → held (plan_characteristics p service characteristics c) ≡ held c
unfolding plan_characteristics
plan_characteristics-held p service [] c = refl
plan_characteristics-held p service (characteristic ∷ characteristics) c =
    let plan = characteristic_plan service.uuid (short_uuid characteristic.uuid) in
    let purpose = planned_purpose plan in
    plan_characteristics-held p service characteristics _
    ∙ plan_descriptors-held service characteristic characteristic.descriptors _
    ∙ if-held _ c _ _
        (add_read-held service characteristic none (planned_purpose plan) plan.required c) refl

plan_services-held :
    (p : Platform) (services : List GattServiceInfo) (c : BleClientHid)
    → held (plan_services p services c) ≡ held c
unfolding plan_services
plan_services-held p [] c = refl
plan_services-held p (service ∷ services) c =
    plan_services-held p services _ ∙ plan_characteristics-held p service service.characteristics c

pub plan_reads-held : (p : Platform) (c : BleClientHid) → held (plan_reads p c) ≡ held c
unfolding plan_reads
plan_reads-held p c = plan_services-held p c.services _

pub start_read-held :
    (p : Platform) (operation : GattReadOperation) (rest : List GattReadOperation)
    (c : BleClientHid)
    → held (start_read p operation rest c) ≡ held c
unfolding start_read note_failure mark_degraded operation_failed
start_read-held p operation rest c = ground arith
