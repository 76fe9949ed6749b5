-- ===== src/Client/Invariant/Events.antt =====
-- The events of ESP-IDF keep the invariant (components/ble_client_hid/ble_client_hid.cpp).
use esphome_ble_remote.Prelude.{
  ℕ, ◌+◌, ◌≡◌, refl, sym, subst, List, [], ◌∷◌, arith, false, ◌&&◌, ◌||◌, not, length, leb, ltb,
  Bool-cases, inl, inr,
}
use esphome_ble_remote.Prelude.Words.{u64}
use esphome_ble_remote.Prelude.Text.{codes}
use esphome_ble_remote.Buffer.{clear}
use esphome_ble_remote.Subscription.{reset}
use esphome_ble_remote.Decode.Report.{payload_length}
use esphome_ble_remote.Client.Limits.{max_pending_reports, max_pending_report_bytes}
use esphome_ble_remote.Client.Names.{SetupPhase, disconnected, waiting_for_discovery, inventory}
use esphome_ble_remote.Client.State.{
  Platform, BleClientHid, PendingHidReport, perform, status_set_warning, request_encryption,
}
use esphome_ble_remote.Client.Setup.{
  transition, mark_degraded, reset_connection_state, finalize_setup,
}
use esphome_ble_remote.Client.Values.{finish_active_read}
use esphome_ble_remote.Client.Values.Held.{finish_active_read-kept}
use esphome_ble_remote.Client.Values.Maps.{finish_active_read-MapsAreSound}
use esphome_ble_remote.Client.Maps.{MapsAreSound}
use esphome_ble_remote.Client.Queue.{Notification, drop_oldest, make_room, enqueue_input_report}
use esphome_ble_remote.Client.Queue.Bounds.{total_bytes, enqueue_input_report-QueueIsSound}
use esphome_ble_remote.Client.Subscribe.Sound.{is_waiting}
use esphome_ble_remote.Client.Events.Ready.{SampleIsSound, emptied-SampleIsSound}
use esphome_ble_remote.Client.Handler.{
  GattcEvent, connect_evt, disconnect_evt, srvc_chg_evt, search_cmpl_evt, read_evt,
  reg_for_notify_evt, write_descr_evt, notify_evt, congest_evt, queue_full_evt, other_evt,
  gattc_event_handler, is_handle_of, on_notification, on_battery, request_rediscovery,
}
use esphome_ble_remote.Client.Handler.Sound.{enqueue-Same, Same-AttemptIsSound}
use esphome_ble_remote.Client.Invariant.{
  IsSound, kept-IsSound, held-IsSound, transition-IsSound, mark_degraded-IsSound, perform-IsSound,
  if-IsSound, finalize_setup-IsSound,
}
use esphome_ble_remote.Client.Invariant.Subscriptions.{
  handle_registration_result-IsSound, handle_cccd_result-IsSound,
}

-- A connection that begins or ends leaves nothing of the one before.
reset-IsSound :
    (p : Platform) (phase : SetupPhase) (c : BleClientHid)
    → is_waiting phase ≡ false
    → IsSound (transition p phase (reset_connection_state c))
unfolding reset_connection_state reset clear total_bytes transition
reset-IsSound p phase c idle = record {
  attempt = record { tracks = refl; waits = rw idle refl };
  queue = record { counted = refl; bytes = omega arith; reports = omega arith };
  samples = emptied-SampleIsSound c.sampled_events;
  subscriptions = omega arith;
  maps = tt;
}

make_room_keeps :
    (p : Platform) (added : ℕ) (pending : List PendingHidReport) (c : BleClientHid)
    → ((make_room p added pending c).subscription_queue ≡ c.subscription_queue)
      × ((make_room p added pending c).sampled_events ≡ c.sampled_events)
      × ((make_room p added pending c).hid_services ≡ c.hid_services)
unfolding make_room drop_oldest
make_room_keeps p added [] c = (refl, refl, refl)
make_room_keeps p added (oldest ∷ rest) c =
    elim (Bool-cases (
      leb max_pending_reports (length (oldest ∷ rest))
      || ltb max_pending_report_bytes (c.pending_report_bytes + added))) [
        | inl full ↦
            rw (make_room, full) (make_room_keeps p added rest (drop_oldest p oldest rest c))
        | inr room ↦ rw (make_room, room) (refl, refl, refl)
      ]

enqueue-IsSound :
    (p : Platform) (n : Notification) (seq_id : ℕ) (c : BleClientHid)
    → IsSound c
    → IsSound (enqueue_input_report p n seq_id c)
unfolding enqueue_input_report
enqueue-IsSound p n seq_id c sound =
    let (same_queue, same_events, same_services) =
      make_room_keeps p (payload_length n.value) c.pending_reports c in
    let kept : (enqueue_input_report p n seq_id c).sampled_events ≡ c.sampled_events =
      ground (arith, same_events) in
    let services : (enqueue_input_report p n seq_id c).hid_services ≡ c.hid_services =
      ground (arith, same_services) in
    record {
      attempt =
          Same-AttemptIsSound c (enqueue_input_report p n seq_id c) (enqueue-Same p n seq_id c)
            sound.attempt;
      queue = (enqueue_input_report-QueueIsSound p n seq_id c sound.queue).0;
      samples = subst SampleIsSound (sym kept) sound.samples;
      subscriptions = ground (arith, same_queue, sound.subscriptions);
      maps = subst MapsAreSound (sym services) sound.maps;
    }

on_notification-IsSound :
    (p : Platform) (n : Notification) (c : BleClientHid)
    → IsSound c
    → IsSound (on_notification p n c)
unfolding on_notification on_battery request_rediscovery
on_notification-IsSound p n c sound =
    let c1 = record c { next_seq_id = u64 (c.next_seq_id + 1) } in
    let sound1 = held-IsSound c c1 refl sound in
    if-IsSound (c.service_changed_handles n.handle) _ _
      (held-IsSound c1 (request_rediscovery c1) refl sound1)
      (if-IsSound (c.battery_handles n.handle) (on_battery n c1) _
        (held-IsSound c1 (on_battery n c1) (ground arith) sound1)
        (if-IsSound (c.hid_report_handles n.handle) (enqueue_input_report p n c.next_seq_id c1) c1
          (enqueue-IsSound p n c.next_seq_id c1 sound1) sound1))

-- Every event of ESP-IDF keeps the invariant.
pub gattc_event_handler-IsSound :
    (p : Platform) (event : GattcEvent) (c : BleClientHid)
    → IsSound c
    → IsSound (gattc_event_handler p event c)
unfolding gattc_event_handler request_rediscovery
gattc_event_handler-IsSound p (connect_evt own) c sound =
    if-IsSound own _ c
      (perform-IsSound request_encryption _ (reset-IsSound p waiting_for_discovery c refl)) sound
gattc_event_handler-IsSound p (disconnect_evt own) c sound =
    let warned = perform (status_set_warning (codes "Disconnected")) c in
    if-IsSound own (transition p disconnected (reset_connection_state warned)) c
      (reset-IsSound p disconnected warned refl) sound
gattc_event_handler-IsSound p (srvc_chg_evt own) c sound =
    if-IsSound own (request_rediscovery c) c (held-IsSound c (request_rediscovery c) refl sound)
      sound
gattc_event_handler-IsSound p (search_cmpl_evt own success) c sound =
    let failed = mark_degraded (codes "GATT service discovery failed") c in
    if-IsSound (not own) c _ sound (
      if-IsSound success (transition p inventory c) (finalize_setup p failed)
        (transition-IsSound p inventory c refl sound)
        (finalize_setup-IsSound p failed (mark_degraded-IsSound _ c sound)))
gattc_event_handler-IsSound p (read_evt own handle success value) c sound =
    if-IsSound (own && is_handle_of handle c.active_read) (finish_active_read p success value c) c
      (kept-IsSound c (finish_active_read p success value c)
        (finish_active_read-kept p success value c)
        (finish_active_read-MapsAreSound p success value c sound.maps) sound)
      sound
gattc_event_handler-IsSound p (reg_for_notify_evt handle success) c sound =
    handle_registration_result-IsSound p handle success c sound
gattc_event_handler-IsSound p (write_descr_evt own handle success) c sound =
    if-IsSound own _ c (handle_cccd_result-IsSound p handle success c sound) sound
gattc_event_handler-IsSound p (notify_evt own n) c sound =
    if-IsSound own (on_notification p n c) c (on_notification-IsSound p n c sound) sound
gattc_event_handler-IsSound p (congest_evt own congested) c sound =
    let c1 = record c { congested = congested } in
    if-IsSound own c1 c (held-IsSound c c1 refl sound) sound
gattc_event_handler-IsSound p (queue_full_evt own is_full) c sound =
    let c1 = record c { congested = is_full } in
    if-IsSound own c1 c (held-IsSound c c1 refl sound) sound
gattc_event_handler-IsSound p other_evt c sound = sound
