-- ===== src/Client/Handler/Sound.antt =====
-- The events of ESP-IDF and the active attempt (components/ble_client_hid/ble_client_hid.cpp).
use esphome_ble_remote.Prelude.{
  ℕ, ◌+◌, ◌≡◌, refl, List, [], ◌∷◌, arith, length, Bool, true, false, ◌||◌, ◌&&◌, Bool-cases, inl,
  inr, if◌then◌else◌, ltb, leb,
}
use esphome_ble_remote.Prelude.Words.{u64}
use esphome_ble_remote.Subscription.{reset}
use esphome_ble_remote.Decode.Report.{payload_length}
use esphome_ble_remote.Client.Limits.{max_pending_reports, max_pending_report_bytes}
use esphome_ble_remote.Client.State.{Platform, BleClientHid, PendingHidReport, operation_failed}
use esphome_ble_remote.Client.Values.Held.{finish_active_read-kept}
use esphome_ble_remote.Client.Setup.{
  transition, mark_degraded, finalize_setup, reset_connection_state,
}
use esphome_ble_remote.Client.Values.{finish_active_read}
use esphome_ble_remote.Client.Queue.{Notification, drop_oldest, make_room, enqueue_input_report}
use esphome_ble_remote.Client.Subscribe.Sound.{
  AttemptIsSound, kept-AttemptIsSound, handlers-AttemptIsSound,
}
use esphome_ble_remote.Client.Handler.{
  GattcEvent, connect_evt, disconnect_evt, srvc_chg_evt, search_cmpl_evt, read_evt,
  reg_for_notify_evt, write_descr_evt, notify_evt, congest_evt, queue_full_evt, other_evt,
  gattc_event_handler, is_handle_of, on_notification, on_battery, request_rediscovery,
}

-- A step that leaves the subscription and the phase as they are.
pub record Same (c d : BleClientHid) : Type 0 where
  active : d.active_subscription ≡ c.active_subscription
  state : d.subscription_state ≡ c.subscription_state
  phase : d.setup_phase ≡ c.setup_phase

pub Same-AttemptIsSound : (c d : BleClientHid) → Same c d → AttemptIsSound c → AttemptIsSound d
Same-AttemptIsSound c d same sound = record {
  tracks = rw (same.active, same.state) sound.tracks;
  waits = rw (same.active, same.phase) sound.waits;
}

nothing : (c : BleClientHid) → Same c c
nothing c = record { active = refl; state = refl; phase = refl }

make_room-Same :
    (p : Platform) (added : ℕ) (pending : List PendingHidReport) (c : BleClientHid)
    → Same c (make_room p added pending c)
unfolding make_room drop_oldest
make_room-Same p added [] c = nothing c
make_room-Same p added (oldest ∷ rest) c =
    elim (Bool-cases (
      leb max_pending_reports (length (oldest ∷ rest))
      || ltb max_pending_report_bytes (c.pending_report_bytes + added))) [
        | inl full ↦
            let next = make_room-Same p added rest (drop_oldest p oldest rest c) in
            rw (make_room, full)
              (record { active = next.active; state = next.state; phase = next.phase })
        | inr room ↦ rw (make_room, room) (nothing c)
      ]

pub enqueue-Same :
    (p : Platform) (n : Notification) (seq_id : ℕ) (c : BleClientHid)
    → Same c (enqueue_input_report p n seq_id c)
unfolding enqueue_input_report
enqueue-Same p n seq_id c =
    let room = make_room-Same p (payload_length n.value) c.pending_reports c in
    ground (arith, room.active, room.state, room.phase)

guarded :
    (test : Bool) {c d : BleClientHid}
    → AttemptIsSound c
    → AttemptIsSound d
    → AttemptIsSound (if test then c else d)
guarded true h k = h
guarded false h k = k

on_notification-Same :
    (p : Platform) (n : Notification) (c : BleClientHid) → Same c (on_notification p n c)
unfolding on_notification on_battery request_rediscovery
on_notification-Same p n c =
    let queued =
      enqueue-Same p n c.next_seq_id (record c { next_seq_id = u64 (c.next_seq_id + 1) }) in
    ground (arith, queued.active, queued.state, queued.phase)

-- Where the state of the attempt is that of the active subscription, and the waiting phase has a
-- subscription, every event of ESP-IDF leaves it so: connections, the end of the discovery, reads,
-- registrations, descriptor writes, notifications and congestion, in any phase and of any handle,
-- device or status.
pub gattc_event_handler-AttemptIsSound :
    (p : Platform) (event : GattcEvent) (c : BleClientHid)
    → AttemptIsSound c
    → AttemptIsSound (gattc_event_handler p event c)
unfolding gattc_event_handler reset_connection_state transition mark_degraded operation_failed
    finalize_setup request_rediscovery reset
gattc_event_handler-AttemptIsSound p (connect_evt own) c sound =
    ground (arith, sound.tracks, sound.waits)
gattc_event_handler-AttemptIsSound p (disconnect_evt own) c sound =
    ground (arith, sound.tracks, sound.waits)
gattc_event_handler-AttemptIsSound p (srvc_chg_evt own) c sound =
    ground (arith, sound.tracks, sound.waits)
gattc_event_handler-AttemptIsSound p (search_cmpl_evt own success) c sound =
    ground (arith, sound.tracks, sound.waits)
gattc_event_handler-AttemptIsSound p (congest_evt own congested) c sound =
    ground (arith, sound.tracks, sound.waits)
gattc_event_handler-AttemptIsSound p (queue_full_evt own is_full) c sound =
    ground (arith, sound.tracks, sound.waits)
gattc_event_handler-AttemptIsSound p other_evt c sound = sound
gattc_event_handler-AttemptIsSound p (read_evt own handle success value) c sound =
    guarded (own && is_handle_of handle c.active_read)
      (kept-AttemptIsSound c (finish_active_read p success value c)
        (finish_active_read-kept p success value c) sound)
      sound
gattc_event_handler-AttemptIsSound p (reg_for_notify_evt handle success) c sound =
    (handlers-AttemptIsSound p handle success c sound).0
gattc_event_handler-AttemptIsSound p (write_descr_evt own handle success) c sound =
    guarded own (handlers-AttemptIsSound p handle success c sound).1 sound
gattc_event_handler-AttemptIsSound p (notify_evt own n) c sound =
    guarded own (Same-AttemptIsSound c _ (on_notification-Same p n c) sound) sound
