-- ===== src/Client/Sampling/Sound.antt =====
-- The processing of reports, the buffer of held back events and exceptions
-- (components/ble_client_hid/ble_client_hid.cpp).
use esphome_ble_remote.Prelude.{
  ◌≡◌, refl, sym, ap, ◌∙◌, Bool, true, false, Option, none, some, List, [], ◌∷◌, ◌++◌, map,
  All-append, Bool-cases, inl, inr, subst, if◌then◌else◌, ◌==◌,
}
use esphome_ble_remote.Prelude.Text.{Text}
use esphome_ble_remote.Schema.Usage.{HidReportItemValue, HidDecodeStatus}
use esphome_ble_remote.Event.{HidEvent}
use esphome_ble_remote.Buffer.{drain, drain_before, is_empty}
use esphome_ble_remote.Client.State.{Platform, BleClientHid, PendingHidReport, called}
use esphome_ble_remote.Client.Frame.{Core, core, kept}
use esphome_ble_remote.Client.Maps.{MapsAreSound}
use esphome_ble_remote.Client.Events.{make_hid_event, emit_hid_event, emit_all}
use esphome_ble_remote.Client.Events.Total.{Fires, emit_hid_event-make_hid_event}
use esphome_ble_remote.Client.Events.Ready.{
  Emits, SampleIsSound, make_hid_event-IsReady, accumulate-SampleIsSound, emptied-SampleIsSound,
  emit_all-Fires, pending-Emits,
}
use esphome_ble_remote.Decode.Report.{Decoded}
use esphome_ble_remote.Client.Gatt.{HidServiceContext}
use esphome_ble_remote.Client.Sampling.{
  flush_sampled_events, update_sampling_window, contribution, accumulate_event, emit_barrier,
  RunMode, outside, emitting, accumulating, end_run, process_values, process_decoded_values,
  unrecognized, process_input_report, is_passthrough, run_mode, run_step, retry,
}
use esphome_ble_remote.Client.Sampling.Decoding.{decode_report-Decodes}

-- What is as it was in a run: the core, and the HID contexts.
abbrev pub left : BleClientHid → Core × List HidServiceContext
left c = (core c, c.hid_services)

-- Nothing is thrown, the core and the contexts are as they were, and the buffer is sound.
abbrev pub Runs : BleClientHid → Option BleClientHid → Type 0
Runs c result =
    (d : BleClientHid) × (result ≡ some d) × (left d ≡ left c) × SampleIsSound d.sampled_events

done : (c : BleClientHid) → SampleIsSound c.sampled_events → Runs c (some c)
done c sound = (c, refl, refl, sound)

pub Runs-then :
    (c : BleClientHid) (result : Option BleClientHid) (next : BleClientHid → Option BleClientHid)
    → Runs c result
    → ((d : BleClientHid) → SampleIsSound d.sampled_events → Runs d (next d))
    → Runs c (elim result [ none ↦ none | some d ↦ next d ])
Runs-then c result next (d, e, kept, sound) rest =
    let (d', e', kept', sound') = rest d sound in rw e (d', e', kept' ∙ kept, sound')

-- Events that are fired from a buffer that is sound.
Fires-Runs :
    (events : List HidEvent) (c : BleClientHid) (result : Option BleClientHid)
    → SampleIsSound c.sampled_events
    → Fires events c result
    → Runs c result
Fires-Runs events c result sound (effects, e, fires) =
    (record c { effects = effects }, e, refl, sound)

guarded :
    (test : Bool) (c : BleClientHid) {a b : Option BleClientHid}
    → Runs c a
    → Runs c b
    → Runs c (if test then a else b)
guarded true c h k = h
guarded false c h k = k

pub flush-Runs :
    (c : BleClientHid) → SampleIsSound c.sampled_events → Runs c (flush_sampled_events c)
unfolding flush_sampled_events drain
flush-Runs c sound =
    let events = map (λ p. p.event) c.sampled_events.pending in
    let c1 = record c { sampled_events = record c.sampled_events { pending = [] } } in
    guarded (is_empty c.sampled_events) c (done c sound) (
      Fires-Runs events c1 (emit_all events c1) (emptied-SampleIsSound c.sampled_events)
        (emit_all-Fires events c1 (pending-Emits c.sampled_events.pending sound.ready)))

pub update_sampling_window-Runs :
    (p : Platform) (c : BleClientHid)
    → SampleIsSound c.sampled_events
    → Runs c (update_sampling_window p c)
unfolding update_sampling_window
update_sampling_window-Runs p c sound = guarded _ c (done c sound) (
    guarded _ c (called c, refl, refl, sound)
      (guarded _ c (record (called c) { sampling_window_active = false }, refl, refl, sound)
        (Runs-then c _ (λ d. some (record d { sampling_window_started_us = p.micros c.calls }))
          (flush-Runs (called c) sound) (λ d s. (_, refl, refl, s)))))

module _ (p : Platform) (report : PendingHidReport) (raw : Text) (status : HidDecodeStatus) where
  emits :
      (v : HidReportItemValue) (c : BleClientHid)
      → SampleIsSound c.sampled_events
      → Runs c (emit_hid_event (make_hid_event p c report raw (some v) status) c)
  emits v c sound =
      Fires-Runs (make_hid_event p c report raw (some v) status ∷ []) c _ sound
        (emit_hid_event-make_hid_event p c c report raw (some v) status)

  retry-Runs :
      (v : HidReportItemValue) (c : BleClientHid)
      → SampleIsSound c.sampled_events
      → Runs c (retry p (contribution p report raw status v c) c)
  unfolding contribution
  retry-Runs v c sound =
      let made = make_hid_event-IsReady p c report raw v status in
      let (b, added, e, s) =
        accumulate-SampleIsSound c.sampled_events (contribution p report raw status v c) sound
          made in
      rw (retry, e) (_, refl, refl, s)

  accumulate_event-Runs :
      (v : HidReportItemValue) (c : BleClientHid)
      → SampleIsSound c.sampled_events
      → Runs c (accumulate_event p report raw status v c)
  unfolding accumulate_event contribution
  accumulate_event-Runs v c sound =
      let made = make_hid_event-IsReady p c report raw v status in
      let (b, added, e, s) =
        accumulate-SampleIsSound c.sampled_events (contribution p report raw status v c) sound
          made in
      let c1 = record c { sampled_events = b } in
      elim (Bool-cases added) [
        | inl taken ↦ rw (accumulate_event, e, taken) (c1, refl, refl, s)
        | inr refused ↦
            rw (accumulate_event, e, refused)
              (Runs-then c _ (λ c2. retry p (contribution p report raw status v c2) c2)
                (flush-Runs c1 s) (retry-Runs v))
      ]

  emit_barrier-Runs :
      (v : Option HidReportItemValue) (c d : BleClientHid)
      → SampleIsSound d.sampled_events
      → Runs d (emit_barrier (make_hid_event p c report raw v status) d)
  unfolding emit_barrier drain_before drain
  emit_barrier-Runs v c d sound =
      let barrier = make_hid_event p c report raw v status in
      let events = map (λ p. p.event) d.sampled_events.pending in
      let d1 = record d { sampled_events = record d.sampled_events { pending = [] } } in
      let emits =
        All-append Emits events (barrier ∷ []) (pending-Emits d.sampled_events.pending sound.ready)
          (λ e. emit_hid_event-make_hid_event p c e report raw v status, tt) in
      Runs-then d _ (λ e. some (record e { sampling_window_active = false }))
        (Fires-Runs (events ++ barrier ∷ []) d1 (emit_all (events ++ barrier ∷ []) d1)
          (emptied-SampleIsSound d.sampled_events)
          (emit_all-Fires (events ++ barrier ∷ []) d1 emits))
        (λ e s. (_, refl, refl, s))

  end_run-Sound :
      (mode : RunMode) (c : BleClientHid)
      → SampleIsSound c.sampled_events
      → (left (end_run p mode c) ≡ left c) × SampleIsSound (end_run p mode c).sampled_events
  unfolding end_run
  end_run-Sound outside c sound = (refl, sound)
  end_run-Sound emitting c sound = (refl, sound)
  end_run-Sound accumulating c sound = (refl, sound)

  run_step-Runs :
      (v : HidReportItemValue) (mode : RunMode) (c : BleClientHid)
      → SampleIsSound c.sampled_events
      → Runs c (run_step p report raw status v mode c)
  run_step-Runs v outside c sound = emits v c sound
  run_step-Runs v emitting c sound = emits v c sound
  run_step-Runs v accumulating c sound = accumulate_event-Runs v c sound

  process_values-Runs :
      (values : List HidReportItemValue) (mode : RunMode) (c : BleClientHid)
      → SampleIsSound c.sampled_events
      → Runs c (process_values p report raw status values mode c)
  unfolding process_values
  process_values-Runs [] mode c sound =
      let (kept, s) = end_run-Sound mode c sound in (end_run p mode c, refl, kept, s)
  process_values-Runs (v ∷ values) mode c sound =
      elim (Bool-cases (c.event_sampling_interval_us == 0)) [
        | inl off ↦
            rw (process_values, off)
              (Runs-then c _ (λ d. process_values p report raw status values outside d)
                (emits v c sound) (process_values-Runs values outside))
        | inr on ↦ elim (Bool-cases (is_passthrough v.aggregation)) [
          | inl passed ↦
              let c1 = end_run p mode c in
              let (kept, s) = end_run-Sound mode c sound in
              let (d, e, k, s') =
                Runs-then c1 _ (λ d. process_values p report raw status values outside d)
                  (emit_barrier-Runs (some v) c1 c1 s) (process_values-Runs values outside) in
              rw (process_values, on, passed) (d, e, k ∙ kept, s')
          | inr held ↦
              let mode1 = run_mode mode c.sampling_window_active in
              rw (process_values, on, held)
                (Runs-then c _ (λ d. process_values p report raw status values mode1 d)
                  (run_step-Runs v mode1 c sound) (process_values-Runs values mode1))
        ]
      ]

  process_decoded_values-Runs :
      (values : List HidReportItemValue) (c : BleClientHid)
      → SampleIsSound c.sampled_events
      → Runs c (process_decoded_values p report raw status values c)
  unfolding process_decoded_values
  process_decoded_values-Runs values c sound =
      Runs-then c _ (λ d. process_values p report raw status values outside d)
        (update_sampling_window-Runs p c sound) (process_values-Runs values outside)

unrecognized-Runs :
    (p : Platform) (report : PendingHidReport) (raw : Text) (decoded : Decoded) (c : BleClientHid)
    → SampleIsSound c.sampled_events
    → Runs c (unrecognized p report raw decoded c)
unfolding unrecognized
unrecognized-Runs p report raw decoded c sound =
    guarded _ c (emit_barrier-Runs p report raw decoded.status none c c sound) (done c sound)

-- From a component whose held back events are sound and whose report maps name no field that they
-- do not have, the processing of a report throws no exception and reads no field out of range,
-- whatever the report. The held back events and the report maps are then sound again, and the
-- queues, the phase and the subscription are as they were.
pub process_input_report-Runs :
    (p : Platform) (report : PendingHidReport) (raw : Text) (c : BleClientHid)
    → SampleIsSound c.sampled_events
    → MapsAreSound c.hid_services
    → (d : BleClientHid) × (process_input_report p report raw c ≡ some d)
      × (core d ≡ core c)
      × SampleIsSound d.sampled_events
      × MapsAreSound d.hid_services
unfolding process_input_report
process_input_report-Runs p report raw c sound maps =
    let (c1, decoded, e1, same, maps1) = decode_report-Decodes report c maps in
    let (d, e, k, s) =
      Runs-then c1 _ (λ c2. unrecognized p report raw decoded c2)
        (process_decoded_values-Runs p report raw decoded.status decoded.values c1
          (subst SampleIsSound (sym (ap (λ h. h.1) same)) sound))
        (unrecognized-Runs p report raw decoded) in
    (
      d,
      rw (process_input_report, e1) e,
      ap (λ h. h.0) k ∙ ap (λ h. h.0) same,
      s,
      subst MapsAreSound (sym (ap (λ h. h.1) k)) maps1,
    )
