-- ===== src/Client/Invariant.antt =====
-- The invariant of the whole component (components/ble_client_hid/ble_client_hid.cpp).
pub mod Subscriptions
pub mod Setup
pub mod Events
pub mod Loop
pub mod Reach
pub mod Progress
use esphome_ble_remote.Prelude.{
  ℕ, List, ◌≤◌, ◌≡◌, sym, ap, subst, All, Bool, true, false, ◌||◌, not, length, if◌then◌else◌, refl,
  ◌++◌, [], ◌∷◌,
}
use esphome_ble_remote.Prelude.Text.{Text}
use esphome_ble_remote.Buffer.{OrderedEventBuffer}
use esphome_ble_remote.Client.Limits.{
  max_subscriptions, max_pending_report_bytes, max_pending_reports,
}
use esphome_ble_remote.Client.Names.{SetupPhase, degraded, ready}
use esphome_ble_remote.Client.State.{
  Platform, BleClientHid, Effect, perform, called, operation_failed, update_conn_params,
  node_established, status_clear_warning, SubscriptionInfo, PendingHidReport,
}
use esphome_ble_remote.Client.Frame.{Core, core, kept, held}
use esphome_ble_remote.Client.Maps.{MapExists, MapsAreSound}
use esphome_ble_remote.Client.Gatt.{HidServiceContext}
use esphome_ble_remote.Client.Setup.{transition, mark_degraded, finalize_setup}
use esphome_ble_remote.Client.Subscribe.Sound.{
  AttemptIsSound, Tracks, is_waiting, kept-AttemptIsSound,
}
use esphome_ble_remote.Client.Queue.Bounds.{QueueIsSound, total_bytes}
use esphome_ble_remote.Client.Events.Ready.{SampleIsSound}

-- The attempt is that of the active subscription and the waiting phase has one; the queue of reports
-- is counted right and within its limits; the events that are held back can be emitted and are
-- within the capacity; the subscriptions are within their limit; and each report map has the fields
-- that its reports name.
pub record IsSound (c : BleClientHid) : Type 0 where
  pub attempt : AttemptIsSound c
  pub queue : QueueIsSound c
  pub samples : SampleIsSound c.sampled_events
  pub subscriptions : length c.subscription_queue ≤ max_subscriptions
  pub maps : MapsAreSound c.hid_services

kept-QueueIsSound : (c d : BleClientHid) → kept d ≡ kept c → QueueIsSound c → QueueIsSound d
kept-QueueIsSound c d same sound = record {
  counted =
      subst (λ h. h.0.pending_report_bytes ≡ total_bytes h.0.pending_reports) (sym same)
        sound.counted;
  bytes =
      subst (λ h. total_bytes h.0.pending_reports ≤ max_pending_report_bytes) (sym same)
        sound.bytes;
  reports = subst (λ h. length h.0.pending_reports ≤ max_pending_reports) (sym same) sound.reports;
}

pub kept-IsSound :
    (c d : BleClientHid) → kept d ≡ kept c → MapsAreSound d.hid_services → IsSound c → IsSound d
kept-IsSound c d same maps sound = record {
  attempt = kept-AttemptIsSound c d same sound.attempt;
  queue = kept-QueueIsSound c d same sound.queue;
  samples = subst (λ h. SampleIsSound h.1) (sym same) sound.samples;
  subscriptions =
      subst (λ h. length h.0.subscription_queue ≤ max_subscriptions) (sym same) sound.subscriptions;
  maps = maps;
}

pub held-IsSound : (c d : BleClientHid) → held d ≡ held c → IsSound c → IsSound d
held-IsSound c d same sound =
    kept-IsSound c d (ap (λ h. (h.0, h.1)) same)
      (subst (λ h. All MapExists h.2) (sym same) sound.maps) sound

-- Another phase, which does not wait for a subscription.
pub phase-IsSound :
    (c : BleClientHid) (phase : SetupPhase)
    → is_waiting phase ≡ false
    → IsSound c
    → IsSound (record c { setup_phase = phase })
phase-IsSound c phase idle sound = record {
  attempt = record { tracks = sound.attempt.tracks; waits = rw idle refl };
  queue = record {
    counted = sound.queue.counted;
    bytes = sound.queue.bytes;
    reports = sound.queue.reports;
  };
  samples = sound.samples;
  subscriptions = sound.subscriptions;
  maps = sound.maps;
}

pub transition-IsSound :
    (p : Platform) (phase : SetupPhase) (c : BleClientHid)
    → is_waiting phase ≡ false
    → IsSound c
    → IsSound (transition p phase c)
unfolding transition
transition-IsSound p phase c idle sound =
    held-IsSound (record c { setup_phase = phase }) (transition p phase c) refl
      (phase-IsSound c phase idle sound)

pub mark_degraded-IsSound :
    (reason : Text) (c : BleClientHid) → IsSound c → IsSound (mark_degraded reason c)
unfolding mark_degraded operation_failed
mark_degraded-IsSound reason c sound = held-IsSound c (mark_degraded reason c) refl sound

pub perform-IsSound : (e : Effect) (c : BleClientHid) → IsSound c → IsSound (perform e c)
perform-IsSound e c sound = held-IsSound c (perform e c) refl sound

pub if-IsSound :
    (test : Bool) (c d : BleClientHid) → IsSound c → IsSound d → IsSound (if test then c else d)
if-IsSound true c d h k = h
if-IsSound false c d h k = k

pub finalize_setup-IsSound :
    (p : Platform) (c : BleClientHid) → IsSound c → IsSound (finalize_setup p c)
unfolding finalize_setup
finalize_setup-IsSound p c sound =
    let c1 =
      if c.preferred_conn_params_valid
      then perform (update_conn_params c.preferred_conn_params) c
      else c in
    let asked =
      if-IsSound c.preferred_conn_params_valid _ c
        (perform-IsSound (update_conn_params c.preferred_conn_params) c sound) sound in
    perform-IsSound node_established _ (
      if-IsSound c1.degraded (transition p degraded c1)
        (transition p ready (perform status_clear_warning c1))
        (transition-IsSound p degraded c1 refl asked)
        (transition-IsSound p ready _ refl (perform-IsSound status_clear_warning c1 asked)))

-- What the invariant asks of the queues and the buffer, which the subscriptions leave as they are.
abbrev pub queues :
    BleClientHid
    → List SubscriptionInfo
      × List PendingHidReport
      × ℕ
      × OrderedEventBuffer
      × List HidServiceContext
queues c = (
  c.subscription_queue, c.pending_reports, c.pending_report_bytes, c.sampled_events, c.hid_services,
)

pub queues-IsSound :
    (c d : BleClientHid) → queues d ≡ queues c → AttemptIsSound d → IsSound c → IsSound d
queues-IsSound c d same attempt sound = record {
  attempt = attempt;
  queue = record {
    counted = subst (λ q. q.2 ≡ total_bytes q.1) (sym same) sound.queue.counted;
    bytes = subst (λ q. total_bytes q.1 ≤ max_pending_report_bytes) (sym same) sound.queue.bytes;
    reports = subst (λ q. length q.1 ≤ max_pending_reports) (sym same) sound.queue.reports;
  };
  samples = subst (λ q. SampleIsSound q.3) (sym same) sound.samples;
  subscriptions = subst (λ q. length q.0 ≤ max_subscriptions) (sym same) sound.subscriptions;
  maps = subst (λ q. MapsAreSound q.4) (sym same) sound.maps;
}
