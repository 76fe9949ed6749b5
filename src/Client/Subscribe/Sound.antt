-- ===== src/Client/Subscribe/Sound.antt =====
-- The attempt that is active, and the phase that waits for it
-- (components/ble_client_hid/ble_client_hid.cpp).
use esphome_ble_remote.Prelude.{
  ℕ, ◌≡◌, ◌≢◌, ◌⊎◌, arith, Bool, true, false, not, ◌||◌, Option, none, some, Bool-cases, inl, inr,
  sym, subst,
}
use esphome_ble_remote.Subscription.{
  SubscriptionAttemptState, idle, begin, registration_result, own_cccd_write_attempted, cccd_result,
  reset,
}
use esphome_ble_remote.Client.Names.{SetupPhase, waiting_for_cccd}
use esphome_ble_remote.Client.State.{
  Platform, BleClientHid, SubscriptionInfo, operation_succeeded, operation_failed,
}
use esphome_ble_remote.Client.Setup.{
  transition, mark_degraded, note_failure, finalize_setup, drop_subscription,
}
use esphome_ble_remote.Client.Frame.{kept}
use esphome_ble_remote.Client.Reads.{is_active}
use esphome_ble_remote.Client.Subscribe.{
  start_subscription, start_next_subscription, fail_subscription, handle_registration_result,
  write_current_cccd, handle_cccd_result,
}

abbrev pub is_waiting : SetupPhase → Bool
is_waiting waiting_for_cccd = true
is_waiting _ = false

-- The state of the attempt is that of the active subscription.
abbrev pub Tracks : Option SubscriptionInfo → SubscriptionAttemptState → Type 0
Tracks none s = s.stage ≡ idle
Tracks (some subscription) s =
    (s.stage ≢ idle)
    × (s.characteristic_handle ≡ subscription.characteristic_handle)
    × (s.cccd_handle ≡ subscription.cccd_handle)

-- The phase that waits has a subscription to wait for.
pub record AttemptIsSound (c : BleClientHid) : Type 0 where
  pub tracks : Tracks c.active_subscription c.subscription_state
  pub waits : (not (is_waiting c.setup_phase) || is_active c.active_subscription) ≡ true

pub kept-AttemptIsSound :
    (c d : BleClientHid) → kept d ≡ kept c → AttemptIsSound c → AttemptIsSound d
kept-AttemptIsSound c d same sound = record {
  tracks =
      subst (λ h. Tracks h.0.active_subscription h.0.subscription_state) (sym same) sound.tracks;
  waits =
      subst (λ h. (not (is_waiting h.0.setup_phase) || is_active h.0.active_subscription) ≡ true)
        (sym same) sound.waits;
}

pub handle_registration_result-AttemptIsSound :
    (p : Platform) (handle : ℕ) (success : Bool) (c : BleClientHid)
    → AttemptIsSound c
    → AttemptIsSound (handle_registration_result p handle success c)
unfolding handle_registration_result registration_result transition fail_subscription note_failure
    mark_degraded operation_failed drop_subscription reset
handle_registration_result-AttemptIsSound p handle success c sound =
    ground (arith, sound.tracks, sound.waits)

write_current_cccd-AttemptIsSound :
    (p : Platform) (c : BleClientHid) → AttemptIsSound c → AttemptIsSound (write_current_cccd p c)
unfolding write_current_cccd own_cccd_write_attempted transition fail_subscription note_failure
    mark_degraded operation_failed drop_subscription reset
write_current_cccd-AttemptIsSound p c sound = ground (arith, sound.tracks, sound.waits)

handle_cccd_result-AttemptIsSound :
    (p : Platform) (handle : ℕ) (success : Bool) (c : BleClientHid)
    → AttemptIsSound c
    → AttemptIsSound (handle_cccd_result p handle success c)
unfolding handle_cccd_result cccd_result transition fail_subscription note_failure mark_degraded
    operation_failed operation_succeeded drop_subscription reset write_current_cccd
    own_cccd_write_attempted
handle_cccd_result-AttemptIsSound p handle success c sound =
    ground (arith, sound.tracks, sound.waits)

pub start_next_subscription-AttemptIsSound :
    (p : Platform) (c : BleClientHid)
    → AttemptIsSound c
    → is_waiting c.setup_phase ≡ false
    → AttemptIsSound (start_next_subscription p c)
unfolding start_next_subscription start_subscription begin finalize_setup transition note_failure
    mark_degraded operation_failed drop_subscription reset
start_next_subscription-AttemptIsSound p c sound phase =
    ground (arith, sound.tracks, sound.waits, phase)

-- Where the state of the attempt is that of the active subscription and the waiting phase has a
-- subscription, each handler of the subscriptions keeps that: the results of a registration and of a
-- descriptor write, the component's own write, and the start of the next subscription in a phase
-- that does not wait.
pub handlers-AttemptIsSound :
    (p : Platform) (handle : ℕ) (success : Bool) (c : BleClientHid)
    → AttemptIsSound c
    → AttemptIsSound (handle_registration_result p handle success c)
      × AttemptIsSound (handle_cccd_result p handle success c)
      × AttemptIsSound (write_current_cccd p c)
      × ((is_waiting c.setup_phase ≡ true) ⊎ AttemptIsSound (start_next_subscription p c))
handlers-AttemptIsSound p handle success c sound = (
  handle_registration_result-AttemptIsSound p handle success c sound,
  handle_cccd_result-AttemptIsSound p handle success c sound,
  write_current_cccd-AttemptIsSound p c sound,
  elim (Bool-cases (is_waiting c.setup_phase)) [
    | inl waiting ↦ inl waiting
    | inr other ↦ inr (start_next_subscription-AttemptIsSound p c sound other)
  ],
)
