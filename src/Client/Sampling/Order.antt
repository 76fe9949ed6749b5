-- ===== src/Client/Sampling/Order.antt =====
-- The order in which values come out as events (components/ble_client_hid/ble_client_hid.cpp).
use esphome_ble_remote.Prelude.{
  ◌≡◌, refl, sym, ap, ◌∙◌, true, false, All, Option, some, List, [], ◌∷◌, ◌++◌, map, append-nil,
  append_assoc, ◌==◌, arith, All-append,
}
use esphome_ble_remote.Prelude.Text.{Text}
use esphome_ble_remote.Schema.Usage.{HidReportItemValue, HidDecodeStatus}
use esphome_ble_remote.Event.{HidEvent}
use esphome_ble_remote.Client.State.{Platform, BleClientHid, PendingHidReport, Effect}
use esphome_ble_remote.Buffer.{drain, drain_before}
use esphome_ble_remote.Client.Events.{make_hid_event, report_event}
use esphome_ble_remote.Client.Events.Total.{Fires, fired, emit_hid_event-make_hid_event}
use esphome_ble_remote.Client.Events.Ready.{
  Emits, SampleIsSound, emptied-SampleIsSound, emit_all-Fires, pending-Emits,
}
use esphome_ble_remote.Client.Sampling.{
  emit_barrier, outside, end_run, process_values, process_decoded_values, update_sampling_window,
  is_passthrough,
}
use esphome_ble_remote.Client.Sampling.Window.{
  held_back, drained, frame, update_sampling_window-releases, all_out,
}

-- Without sampling the window is left alone.
update_unsampled :
    (p : Platform) (c : BleClientHid)
    → (c.event_sampling_interval_us == 0) ≡ true
    → update_sampling_window p c ≡ some c
unfolding update_sampling_window
update_unsampled p c off = ground (arith, off)

module _ (p : Platform) (report : PendingHidReport) (raw : Text) (status : HidDecodeStatus) where
  abbrev pub event_of : BleClientHid → HidReportItemValue → HidEvent
  event_of c v = make_hid_event p c report raw (some v) status

  process_values-Fires :
      (values : List HidReportItemValue) (c : BleClientHid)
      → (c.event_sampling_interval_us == 0) ≡ true
      → Fires (map (event_of c) values) c (process_values p report raw status values outside c)
  unfolding process_values end_run make_hid_event
  process_values-Fires [] c off = (c.effects, refl, sym (append-nil (fired c.effects)))
  process_values-Fires (v ∷ values) c off =
      let (s1, e1, f1) = emit_hid_event-make_hid_event p c c report raw (some v) status in
      let (s2, e2, f2) = process_values-Fires values (record c { effects = s1 }) off in
      (
        s2,
        rw (process_values, off, e1) e2,
        f2
            ∙ ap (λ l. l ++ map (event_of c) values) f1
            ∙ append_assoc (fired c.effects) (event_of c v ∷ []) (map (event_of c) values),
      )

  -- Without sampling (an interval of 0), the values of a report are fired as events, one for each
  -- value, in the order of the values, and nothing else of the component changes.
  pub process_decoded_values-Fires :
      (values : List HidReportItemValue) (c : BleClientHid)
      → (c.event_sampling_interval_us == 0) ≡ true
      → Fires (map (event_of c) values) c (process_decoded_values p report raw status values c)
  unfolding process_decoded_values update_sampling_window
  process_decoded_values-Fires values c off =
      rw (process_decoded_values, update_unsampled p c off) (process_values-Fires values c off)

emit_barrier-order :
    (p : Platform) (report : PendingHidReport) (raw : Text) (status : HidDecodeStatus)
    (v : Option HidReportItemValue) (c : BleClientHid)
    → SampleIsSound c.sampled_events
    → (effects : List Effect) × (emit_barrier (make_hid_event p c report raw v status) c
        ≡ some (record (drained c) { effects = effects; sampling_window_active = false }))
      × (fired effects
          ≡ fired c.effects ++ (held_back c ++ make_hid_event p c report raw v status ∷ []))
unfolding emit_barrier drain_before drain
emit_barrier-order p report raw status v c sound =
    let barrier = make_hid_event p c report raw v status in
    let emits =
      All-append Emits (held_back c) (barrier ∷ [])
        (pending-Emits c.sampled_events.pending sound.ready)
        (λ d. emit_hid_event-make_hid_event p c d report raw v status, tt) in
    let (effects, e, fires) = emit_all-Fires (held_back c ++ barrier ∷ []) (drained c) emits in
    (effects, rw (emit_barrier, e) refl, fires)

module _ (p : Platform) (report : PendingHidReport) (raw : Text) (status : HidDecodeStatus) where
  event_of-frame :
      (c d : BleClientHid)
      → frame d ≡ frame c
      → event_of p report raw status d ≡ event_of p report raw status c
  unfolding make_hid_event report_event
  event_of-frame c d same =
      ap (λ f. event_of p report raw status (record c { services = f.0; hid_services = f.1 })) same

  process_values-passes :
      (v : HidReportItemValue) (values : List HidReportItemValue) (c : BleClientHid)
      → (c.event_sampling_interval_us == 0) ≡ false
      → All (λ w. is_passthrough w.aggregation ≡ true) (v ∷ values)
      → SampleIsSound c.sampled_events
      → (effects : List Effect) × (process_values p report raw status (v ∷ values) outside c
          ≡ some (record (drained c) { effects = effects; sampling_window_active = false }))
        × (fired effects
            ≡ fired c.effects ++ (held_back c ++ map (event_of p report raw status c) (v ∷ values)))
  unfolding process_values end_run make_hid_event
  process_values-passes v [] c on (passed, _) sound =
      let (effects, e, fires) = emit_barrier-order p report raw status (some v) c sound in
      (effects, rw (process_values, on, passed, e) refl, fires)
  process_values-passes v (w ∷ values) c on (passed, rest) sound =
      let (s1, e1, f1) = emit_barrier-order p report raw status (some v) c sound in
      let c1 = record (drained c) { effects = s1; sampling_window_active = false } in
      let (s2, e2, f2) =
        process_values-passes w values c1 on rest (emptied-SampleIsSound c.sampled_events) in
      let one = event_of p report raw status c v ∷ [] in
      let others = map (event_of p report raw status c) (w ∷ values) in
      (
        s2,
        rw (process_values, on, passed, e1) e2,
        f2
            ∙ ap (λ l. l ++ others) f1
            ∙ append_assoc (fired c.effects) (held_back c ++ one) others
            ∙ ap (λ l. fired c.effects ++ l) (append_assoc (held_back c) one others),
      )

  -- With sampling on, the values of a report that are all passed through (one at least) do not
  -- overtake the events that are held back, whether or not the window is due: all that are held back
  -- are fired first, in the order of the buffer, and then one event for each value, in the order of
  -- the values; nothing is thrown, nothing is held back afterwards, and the window is closed.
  pub process_decoded_values-passes :
      (v : HidReportItemValue) (values : List HidReportItemValue) (c : BleClientHid)
      → (c.event_sampling_interval_us == 0) ≡ false
      → All (λ w. is_passthrough w.aggregation ≡ true) (v ∷ values)
      → SampleIsSound c.sampled_events
      → (d : BleClientHid) × (process_decoded_values p report raw status (v ∷ values) c ≡ some d)
        × (fired d.effects
            ≡ fired c.effects ++ (held_back c ++ map (event_of p report raw status c) (v ∷ values)))
        × (held_back d ≡ [])
        × (d.sampling_window_active ≡ false)
  unfolding process_decoded_values
  process_decoded_values-passes v values c on passed sound =
      let (c1, e1, updated) = update_sampling_window-releases p c sound in
      let on1 = ap (λ f. f.2 == 0) updated.same ∙ on in
      let (effects, e, fires) = process_values-passes v values c1 on1 passed updated.samples in
      let events = λ (d : BleClientHid). map (event_of p report raw status d) (v ∷ values) in
      let same = ap (λ make. map make (v ∷ values)) (event_of-frame c c1 updated.same) in
      (
        record (drained c1) { effects = effects; sampling_window_active = false },
        rw (process_decoded_values, e1) e,
        fires
            ∙ ap (λ l. fired c1.effects ++ (held_back c1 ++ l)) same
            ∙ sym (append_assoc (fired c1.effects) (held_back c1) (events c))
            ∙ ap (λ l. l ++ events c) (all_out p c c1 updated)
            ∙ append_assoc (fired c.effects) (held_back c) (events c),
        refl,
        refl,
      )
