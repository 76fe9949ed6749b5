-- ===== src/Tests/Client.antt =====
-- The component of components/ble_client_hid/ble_client_hid.cpp at concrete inputs.
use esphome_ble_remote.Prelude.{
  ℕ, ◌+◌, ◌≡◌, ◌↔◌, ◌⊎◌, refl, true, false, none, some, List, [], ◌∷◌, map, arith, leb,
}
use esphome_ble_remote.Prelude.Text.{codes}
use esphome_ble_remote.Prelude.Words.{u32}
use esphome_ble_remote.Client.Events.{make_hid_event, emit_hid_event}
use esphome_ble_remote.Client.Events.Total.{Fires, emit_hid_event-make_hid_event}
use esphome_ble_remote.Schema.Usage.{exact, bytes}
use esphome_ble_remote.Subscription.{reset}
use esphome_ble_remote.Tables.{UsageRecord, binary_find}
use esphome_ble_remote.Tables.Search.{Ascending, AscendsIn, Ascending-lt, IsAt, binary_find-finds}
use esphome_ble_remote.Client.Names.{reading, registering, elapsed}
use esphome_ble_remote.Client.Names.Elapsed.{elapsed-wraps}
use esphome_ble_remote.Client.State.{BleClientHid}
use esphome_ble_remote.Client.Reads.{plan_reads}
use esphome_ble_remote.Client.Reads.Plan.{PlanIsSound, plan_reads-PlanIsSound}
use esphome_ble_remote.Client.Subscribe.{
  handle_registration_result, handle_cccd_result, write_current_cccd, start_next_subscription,
}
use esphome_ble_remote.Client.Subscribe.Sound.{AttemptIsSound, is_waiting, handlers-AttemptIsSound}
use esphome_ble_remote.Client.Queue.{Notification, enqueue_input_report}
use esphome_ble_remote.Client.Queue.Bounds.{
  QueueIsSound, IsQueued, is_refused, total_bytes, enqueue_input_report-QueueIsSound,
}
use esphome_ble_remote.Client.Handler.{write_descr_evt, gattc_event_handler}
use esphome_ble_remote.Client.Handler.Sound.{gattc_event_handler-AttemptIsSound}
use esphome_ble_remote.Client.Advertisement.{log_field, log_advertisement_elements}
use esphome_ble_remote.Client.Advertisement.RoundTrip.{
  Element, encode, log_advertisement_elements-encode,
}
use esphome_ble_remote.Tests.Samples.{
  platform, component, wheel, waiting_report, queueing, report_subscription, registering_state,
}

abbrev row : ℕ → UsageRecord
row id = record { id = id; name = "Usage"; kinds = "DV" }

abbrev table : List UsageRecord
table = row 1 ∷ row 4 ∷ row 9 ∷ []

table_up : AscendsIn table (λ value. value.id) 0 3
unfolding Ascending
table_up i j x y b l e ei ej =
    Ascending-lt (λ value. value.id) table i j
      ((omega arith, (omega arith, tt)), ((omega arith, tt), (tt, tt))) l ei ej

binary_find-finds_example :
    (binary_find table (λ value. value.id) 9 0 3 ≡ some (row 9))
    ↔ ((i : ℕ) × IsAt table (λ value. value.id) 9 0 3 (row 9) i)
binary_find-finds_example =
    binary_find-finds table (λ value. value.id) 9 0 3 (row 9) table_up (omega arith)

elapsed-wraps_example : elapsed (u32 (4294967000 + 15000)) 4294967000 15000 ≡ leb 15000 15000
elapsed-wraps_example = elapsed-wraps 4294967000 15000 15000 (omega arith) (omega arith)

abbrev stuck : BleClientHid
stuck = component reading none reset [] 0

plan_reads-PlanIsSound_example : PlanIsSound (plan_reads platform stuck)
plan_reads-PlanIsSound_example = plan_reads-PlanIsSound platform stuck

abbrev subscribing : BleClientHid
subscribing = component registering (some report_subscription) registering_state [] 0

subscribing_sound : AttemptIsSound subscribing
subscribing_sound = record { tracks = (λ e. cc, refl, refl); waits = refl }

handlers-AttemptIsSound_example :
    AttemptIsSound (handle_registration_result platform 20 true subscribing)
    × AttemptIsSound (handle_cccd_result platform 20 true subscribing)
    × AttemptIsSound (write_current_cccd platform subscribing)
    × ((is_waiting registering ≡ true)
        ⊎ AttemptIsSound (start_next_subscription platform subscribing))
handlers-AttemptIsSound_example =
    handlers-AttemptIsSound platform 20 true subscribing subscribing_sound

abbrev moved : Notification
moved = record { handle = 20; value = bytes (0 ∷ 5 ∷ []); is_notify = true }

queueing_sound : QueueIsSound queueing
unfolding total_bytes
queueing_sound = record { counted = refl; bytes = omega arith; reports = omega arith }

enqueue_input_report-QueueIsSound_example :
    QueueIsSound (enqueue_input_report platform moved 5 queueing)
    × (((is_refused moved ≡ true) × (enqueue_input_report platform moved 5 queueing ≡ queueing))
        ⊎ ((is_refused moved ≡ false)
            × IsQueued moved 5 queueing (enqueue_input_report platform moved 5 queueing)))
enqueue_input_report-QueueIsSound_example =
    enqueue_input_report-QueueIsSound platform moved 5 queueing queueing_sound

abbrev elements : List Element
elements = record { type = 1; value = 6 ∷ [] } ∷ record { type = 9; value = codes "Remote" } ∷ []

log_advertisement_elements-encode_example :
    log_advertisement_elements (encode elements) ≡ map (λ e. log_field e.type e.value) elements
log_advertisement_elements-encode_example = log_advertisement_elements-encode elements

gattc_event_handler-AttemptIsSound_example :
    AttemptIsSound (gattc_event_handler platform (write_descr_evt true 23 false) subscribing)
gattc_event_handler-AttemptIsSound_example =
    gattc_event_handler-AttemptIsSound platform (write_descr_evt true 23 false) subscribing
      subscribing_sound

emit_hid_event-make_hid_event_example :
    Fires
      (make_hid_event platform subscribing waiting_report (codes "01 02 03") (some wheel) exact
        ∷ [])
      queueing
      (emit_hid_event
        (make_hid_event platform subscribing waiting_report (codes "01 02 03") (some wheel) exact)
        queueing)
emit_hid_event-make_hid_event_example =
    emit_hid_event-make_hid_event platform subscribing queueing waiting_report (codes "01 02 03")
      (some wheel) exact
