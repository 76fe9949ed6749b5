-- ===== src/Client/Invariant/Subscriptions.antt =====
-- The subscriptions keep the invariant (components/ble_client_hid/ble_client_hid.cpp).
use esphome_ble_remote.Prelude.{
  ℕ, ◌≤◌, ◌≡◌, refl, List, [], ◌∷◌, ◌++◌, arith, Bool, true, false, subst, sym, leb, length,
  length-append, Bool-cases, inl, inr,
}
use esphome_ble_remote.Prelude.Text.{codes}
use esphome_ble_remote.Subscription.{
  registration_result, own_cccd_write_attempted, cccd_result, begin,
}
use esphome_ble_remote.Client.Limits.{max_subscriptions}
use esphome_ble_remote.Client.Gatt.{GattServiceInfo, GattCharacteristicInfo}
use esphome_ble_remote.Client.State.{
  Platform, BleClientHid, SubscriptionInfo, operation_succeeded, operation_failed,
}
use esphome_ble_remote.Client.Setup.{
  transition, mark_degraded, note_failure, finalize_setup, drop_subscription,
}
use esphome_ble_remote.Client.Subscribe.{
  start_subscription, start_next_subscription, fail_subscription, handle_registration_result,
  write_current_cccd, handle_cccd_result, subscription_of, wants_subscription, add_subscription,
  subscribe_characteristics, subscribe_services, plan_subscriptions,
}
use esphome_ble_remote.Client.Subscribe.Sound.{
  is_waiting, handlers-AttemptIsSound, start_next_subscription-AttemptIsSound,
}
use esphome_ble_remote.Client.Events.Ready.{SampleIsSound}
use esphome_ble_remote.Client.Maps.{MapsAreSound}
use esphome_ble_remote.Client.Invariant.{
  IsSound, queues-IsSound, held-IsSound, mark_degraded-IsSound,
}

pub handle_registration_result-IsSound :
    (p : Platform) (handle : ℕ) (success : Bool) (c : BleClientHid)
    → IsSound c
    → IsSound (handle_registration_result p handle success c)
unfolding handle_registration_result registration_result transition fail_subscription note_failure
    mark_degraded operation_failed drop_subscription
handle_registration_result-IsSound p handle success c sound =
    queues-IsSound c (handle_registration_result p handle success c) (ground arith)
      (handlers-AttemptIsSound p handle success c sound.attempt).0 sound

pub handle_cccd_result-IsSound :
    (p : Platform) (handle : ℕ) (success : Bool) (c : BleClientHid)
    → IsSound c
    → IsSound (handle_cccd_result p handle success c)
unfolding handle_cccd_result cccd_result transition fail_subscription note_failure mark_degraded
    operation_failed operation_succeeded drop_subscription write_current_cccd
    own_cccd_write_attempted
handle_cccd_result-IsSound p handle success c sound =
    queues-IsSound c (handle_cccd_result p handle success c) (ground arith)
      (handlers-AttemptIsSound p handle success c sound.attempt).1 sound

pub write_current_cccd-IsSound :
    (p : Platform) (c : BleClientHid) → IsSound c → IsSound (write_current_cccd p c)
unfolding write_current_cccd own_cccd_write_attempted transition fail_subscription note_failure
    mark_degraded operation_failed drop_subscription
write_current_cccd-IsSound p c sound =
    queues-IsSound c (write_current_cccd p c) (ground arith)
      (handlers-AttemptIsSound p 0 true c sound.attempt).2 sound

-- One subscription is taken from the queue.
pub start_next_subscription-IsSound :
    (p : Platform) (c : BleClientHid)
    → is_waiting c.setup_phase ≡ false
    → IsSound c
    → IsSound (start_next_subscription p c)
unfolding start_next_subscription start_subscription begin finalize_setup transition note_failure
    mark_degraded operation_failed drop_subscription
start_next_subscription-IsSound p c idle sound = record {
  attempt = start_next_subscription-AttemptIsSound p c sound.attempt idle;
  queue = ground (arith, sound.queue.counted, sound.queue.bytes, sound.queue.reports);
  samples =
      let kept : (start_next_subscription p c).sampled_events ≡ c.sampled_events = ground arith in
      subst SampleIsSound (sym kept) sound.samples;
  subscriptions = ground (arith, sound.subscriptions);
  maps =
      let same : (start_next_subscription p c).hid_services ≡ c.hid_services = ground arith in
      subst MapsAreSound (sym same) sound.maps;
}

-- Other subscriptions to make, within the limit.
pub requeued-IsSound :
    (c : BleClientHid) (queue : List SubscriptionInfo)
    → length queue ≤ max_subscriptions
    → IsSound c
    → IsSound (record c { subscription_queue = queue })
requeued-IsSound c queue h sound = record {
  attempt = record { tracks = sound.attempt.tracks; waits = sound.attempt.waits };
  queue = record {
    counted = sound.queue.counted;
    bytes = sound.queue.bytes;
    reports = sound.queue.reports;
  };
  samples = sound.samples;
  subscriptions = h;
  maps = sound.maps;
}

add_subscription-IsSound :
    (service : GattServiceInfo) (characteristic : GattCharacteristicInfo) (c : BleClientHid)
    → leb max_subscriptions (length c.subscription_queue) ≡ false
    → IsSound c
    → IsSound (add_subscription service characteristic c)
unfolding add_subscription
add_subscription-IsSound service characteristic c room sound =
    let queue = c.subscription_queue ++ subscription_of service characteristic ∷ [] in
    let size = length-append c.subscription_queue (subscription_of service characteristic ∷ []) in
    held-IsSound (record c { subscription_queue = queue })
      (add_subscription service characteristic c) refl
      (requeued-IsSound c queue (ground (arith, room, size)) sound)

subscribe_characteristics-IsSound :
    (p : Platform) (service : GattServiceInfo) (characteristics : List GattCharacteristicInfo)
    (c : BleClientHid)
    → IsSound c
    → IsSound (subscribe_characteristics p service characteristics c)
unfolding subscribe_characteristics
subscribe_characteristics-IsSound p service [] c sound = sound
subscribe_characteristics-IsSound p service (characteristic ∷ characteristics) c sound =
    elim (Bool-cases (wants_subscription p service characteristic c)) [
      | inr unwanted ↦
          rw (subscribe_characteristics, unwanted)
            (subscribe_characteristics-IsSound p service characteristics c sound)
      | inl wanted ↦ elim (Bool-cases (leb max_subscriptions (length c.subscription_queue))) [
        | inl full ↦
            rw (subscribe_characteristics, wanted, full)
              (mark_degraded-IsSound (codes "subscription limit exceeded") c sound)
        | inr room ↦
            rw (subscribe_characteristics, wanted, room)
              (subscribe_characteristics-IsSound p service characteristics _
                (add_subscription-IsSound service characteristic c room sound))
      ]
    ]

subscribe_services-IsSound :
    (p : Platform) (services : List GattServiceInfo) (c : BleClientHid)
    → IsSound c
    → IsSound (subscribe_services p services c)
unfolding subscribe_services
subscribe_services-IsSound p [] c sound = sound
subscribe_services-IsSound p (service ∷ services) c sound =
    subscribe_services-IsSound p services _
      (subscribe_characteristics-IsSound p service service.characteristics c sound)

pub plan_subscriptions-IsSound :
    (p : Platform) (c : BleClientHid) → IsSound c → IsSound (plan_subscriptions p c)
unfolding plan_subscriptions
plan_subscriptions-IsSound p c sound =
    subscribe_services-IsSound p c.services (record c { subscription_queue = [] })
      (requeued-IsSound c [] (omega arith) sound)
