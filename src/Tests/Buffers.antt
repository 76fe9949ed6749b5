-- ===== src/Tests/Buffers.antt =====
-- The buffer, the subscription attempt and the boot decoder at concrete inputs.
use esphome_ble_remote.Prelude.{
  ℕ, ◌+◌, ◌≡◌, refl, Bool, true, false, some, List, [], ◌∷◌, arith, leb,
}
use esphome_ble_remote.Prelude.Int.{ℤ, pos, negsuc, ◌+ℤ◌}
use esphome_ble_remote.Prelude.Text.{codes}
use esphome_ble_remote.Prelude.Words.{u32}
use esphome_ble_remote.Event.{HidEvent, find}
use esphome_ble_remote.Schema.Usage.{sum}
use esphome_ble_remote.Buffer.{
  SampledEventKey, PendingEvent, OrderedEventBuffer, Contribution, saturating_add, accumulate,
  key_eq,
}
use esphome_ble_remote.Buffer.Saturating.{clamp, saturating_add-clamp}
use esphome_ble_remote.Buffer.Accumulate.{entry, IsStamped}
use esphome_ble_remote.Buffer.Capacity.{
  Outcome, BufferIsSound, accumulate-Outcome, accumulate-BufferIsSound,
}
use esphome_ble_remote.Buffer.Total.{accumulate_all, accumulate_all-SumsTo}
use esphome_ble_remote.Subscription.{
  SubscriptionAttemptState, registration_result, fallback_due, waiting_for_cccd,
}
use esphome_ble_remote.Subscription.Fallback.{fallback_due-registration_result}
use esphome_ble_remote.Subscription.Settle.{
  cccd_results, verdicts, progress_of, cccd_results-verdicts,
}
use esphome_ble_remote.Boot.{reset}
use esphome_ble_remote.Boot.Replay.{replay, key_field}
use esphome_ble_remote.Boot.Modifiers.{modifier_field, modifier_usage}
use esphome_ble_remote.Boot.Keys.{
  decode_reports, last_key, last_modifier, silent, replay-decode_reports,
}
use esphome_ble_remote.Tests.Samples.{registering_state, keyboard_source}

saturating_add-clamp_example :
    saturating_add (pos 9223372036854775800) (pos 100) ≡ clamp (pos 9223372036854775800 +ℤ pos 100)
saturating_add-clamp_example =
    saturating_add-clamp (pos 9223372036854775800) (pos 100) (omega arith, omega arith)
      (omega arith, omega arith)

abbrev x_key : SampledEventKey
x_key = record { service_instance = 0; field_id = 3; report_id = 0; report_kind = 1 }

abbrev stamped : HidEvent
stamped = ("seq_id_from", codes "7") ∷ []

abbrev pending_x : PendingEvent
pending_x = record {
  key = x_key;
  aggregation = sum;
  value = pos 5;
  raw_value = pos 5;
  event = stamped;
}

abbrev buffer : OrderedEventBuffer
buffer = record { capacity = 16; pending = pending_x ∷ [] }

abbrev moved : ℤ → Contribution
moved value = record {
  key = x_key;
  aggregation = sum;
  value = value;
  raw_value = value;
  event = stamped;
}

stamp : IsStamped stamped
unfolding find
stamp = (codes "7", refl)

pending_entry : entry x_key (pending_x ∷ []) ≡ some pending_x
unfolding entry key_eq
pending_entry = refl

accumulate-Outcome_example :
    (b' : OrderedEventBuffer) × (done : Bool) × (accumulate buffer (moved (pos 2))
      ≡ some (b', done))
    × Outcome buffer (moved (pos 2)) b' done
accumulate-Outcome_example = accumulate-Outcome buffer (moved (pos 2)) (stamp, tt)

accumulate-BufferIsSound_example :
    (b' : OrderedEventBuffer) × (done : Bool) × (accumulate buffer (moved (pos 2))
      ≡ some (b', done))
    × BufferIsSound b'
accumulate-BufferIsSound_example =
    accumulate-BufferIsSound buffer (moved (pos 2))
      (record { bounded = omega arith; distinct = (tt, tt); stamped = (stamp, tt) }) stamp

accumulate_all-SumsTo_example :
    (b' : OrderedEventBuffer) × (q : PendingEvent) × (accumulate_all buffer
        (moved (pos 2) ∷ moved (negsuc 9) ∷ [])
      ≡ some b')
    × (entry x_key b'.pending ≡ some q)
    × (q.value ≡ negsuc 2)
unfolding ◌+ℤ◌
accumulate_all-SumsTo_example =
    accumulate_all-SumsTo (moved (pos 2) ∷ moved (negsuc 9) ∷ []) x_key buffer pending_x (negsuc 2)
      (stamp, tt) pending_entry
      (
        refl,
        refl,
        (omega arith, omega arith),
        (omega arith, omega arith),
        (omega arith, omega arith),
        (
          refl,
          refl,
          (omega arith, omega arith),
          (omega arith, omega arith),
          (omega arith, omega arith),
          refl,
        ),
      )

fallback_due-registration_result_example :
    fallback_due
      (registration_result registering_state 20 true 4294967200 250).0
      (u32 (4294967200 + 300))
    ≡ leb 250 300
fallback_due-registration_result_example =
    fallback_due-registration_result registering_state 4294967200 250 300 refl refl (omega arith)
      (omega arith)

abbrev waiting_state : SubscriptionAttemptState
waiting_state = record registering_state { stage = waiting_for_cccd }

cccd_results-verdicts_example :
    cccd_results waiting_state ((23, false) ∷ (9, true) ∷ (23, true) ∷ [])
    ≡ verdicts 23 (progress_of waiting_for_cccd false) ((23, false) ∷ (9, true) ∷ (23, true) ∷ [])
cccd_results-verdicts_example =
    cccd_results-verdicts waiting_state ((23, false) ∷ (9, true) ∷ (23, true) ∷ [])

abbrev typed : List (List ℕ)
typed = (2 ∷ 0 ∷ 4 ∷ 5 ∷ 0 ∷ 0 ∷ 0 ∷ 0 ∷ []) ∷ (1 ∷ []) ∷ (0 ∷ 0 ∷ 5 ∷ 0 ∷ 0 ∷ 0 ∷ 0 ∷ 0 ∷ []) ∷ []

replay-decode_reports_example :
    (replay (decode_reports reset keyboard_source typed) silent key_field 4
      ≡ last_key 4 false typed)
    × (replay
          (decode_reports reset keyboard_source typed)
          silent
          (modifier_field 1)
          (modifier_usage 1)
        ≡ last_modifier 1 false typed)
replay-decode_reports_example = replay-decode_reports keyboard_source typed 4 1 refl (omega arith)
