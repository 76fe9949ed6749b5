-- ===== src/Client/Invariant/Loop.antt =====
-- A round of loop and the invariant (components/ble_client_hid/ble_client_hid.cpp).
use esphome_ble_remote.Prelude.{
  ℕ, zero, suc, ◌-◌, ◌≡◌, refl, sym, ap, subst, ◌∙◌, Option, some, List, ◌∷◌, arith, ltb, length,
  Bool-cases, inl, inr, List-cases,
}
use esphome_ble_remote.Prelude.Words.{sub_u32}
use esphome_ble_remote.Client.Limits.{max_processing_time_us, max_reports_per_loop}
use esphome_ble_remote.Client.Names.{SetupPhase}
use esphome_ble_remote.Client.State.{Platform, BleClientHid, PendingHidReport, called}
use esphome_ble_remote.Client.Frame.{core}
use esphome_ble_remote.Client.Setup.{handle_phase_timeout}
use esphome_ble_remote.Client.Inventory.{Database}
use esphome_ble_remote.Client.Queue.Bounds.{total_bytes}
use esphome_ble_remote.Client.Events.{format_value}
use esphome_ble_remote.Client.Events.Ready.{SampleIsSound}
use esphome_ble_remote.Client.Sampling.{update_sampling_window}
use esphome_ble_remote.Client.Sampling.Sound.{
  Runs, process_input_report-Runs, update_sampling_window-Runs,
}
use esphome_ble_remote.Client.Handler.{rediscover, run_phase, process_queue, loop, and_then}
use esphome_ble_remote.Client.Invariant.{IsSound, kept-IsSound, held-IsSound}
use esphome_ble_remote.Client.Maps.{MapsAreSound}
use esphome_ble_remote.Client.Invariant.Setup.{
  rediscover-IsSound, run_phase-IsSound, handle_phase_timeout-IsSound,
}

-- Nothing is thrown, the invariant holds, and the phase is the given one.
abbrev pub Succeeds : SetupPhase → Option BleClientHid → Type 0
Succeeds phase result = (d : BleClientHid) × (result ≡ some d) × IsSound d × (d.setup_phase ≡ phase)

core-IsSound :
    (c d : BleClientHid)
    → core d ≡ core c
    → SampleIsSound d.sampled_events
    → MapsAreSound d.hid_services
    → IsSound c
    → IsSound d
core-IsSound c d same samples maps sound =
    let c1 = record c { sampled_events = d.sampled_events } in
    kept-IsSound c1 d (ap (λ k. (k, d.sampled_events)) same) maps (record {
      attempt = record { tracks = sound.attempt.tracks; waits = sound.attempt.waits };
      queue = record {
        counted = sound.queue.counted;
        bytes = sound.queue.bytes;
        reports = sound.queue.reports;
      };
      samples = samples;
      subscriptions = sound.subscriptions;
      maps = sound.maps;
    })

Runs-Succeeds :
    (c : BleClientHid) (result : Option BleClientHid)
    → IsSound c
    → Runs c result
    → Succeeds c.setup_phase result
Runs-Succeeds c result sound (d, e, same, samples) = (
  d,
  e,
  core-IsSound c d (ap (λ k. k.0) same) samples
      (subst (λ k. MapsAreSound k.1) (sym same) sound.maps) sound,
  ap (λ k. k.0.setup_phase) same,
)

and_then-Succeeds :
    (phase : SetupPhase) (result : Option BleClientHid) (next : BleClientHid → Option BleClientHid)
    → Succeeds phase result
    → ((d : BleClientHid) → IsSound d → Succeeds d.setup_phase (next d))
    → Succeeds phase (and_then result next)
and_then-Succeeds phase result next (d, e, sound, same) rest =
    let (d', e', sound', same') = rest d sound in rw e (d', e', sound', same' ∙ same)

-- The report in front is taken from the queue.
taken-IsSound :
    (report : PendingHidReport) (rest : List PendingHidReport) (c : BleClientHid)
    → c.pending_reports ≡ report ∷ rest
    → IsSound c
    → IsSound (record (called c) {
      pending_reports = rest;
      pending_report_bytes = c.pending_report_bytes - length report.payload;
    })
unfolding total_bytes
taken-IsSound report rest c e sound =
    let bytes = ap total_bytes e in
    let reports = ap length e in
    record {
      attempt = record { tracks = sound.attempt.tracks; waits = sound.attempt.waits };
      queue = record {
        counted = omega (arith, sound.queue.counted, bytes);
        bytes = omega (arith, sound.queue.bytes, bytes);
        reports = omega (arith, sound.queue.reports, reports);
      };
      samples = sound.samples;
      subscriptions = sound.subscriptions;
      maps = sound.maps;
    }

process_queue-Succeeds :
    (p : Platform) (left started : ℕ) (c : BleClientHid)
    → IsSound c
    → Succeeds c.setup_phase (process_queue p left started c)
unfolding process_queue
process_queue-Succeeds p zero started c sound = (c, refl, sound, refl)
process_queue-Succeeds p (suc left) started c sound = elim (List-cases c.pending_reports) [
  | inl empty ↦ rw (process_queue, empty) (c, refl, sound, refl)
  | inr (report, rest, e) ↦
      elim (Bool-cases (ltb (sub_u32 (p.micros c.calls) started) max_processing_time_us)) [
        | inr late ↦
            rw (process_queue, e, late) (called c, refl, held-IsSound c (called c) refl sound, refl)
        | inl timely ↦
            let c1 = record (called c) {
              pending_reports = rest;
              pending_report_bytes = c.pending_report_bytes - length report.payload;
            } in
            let sound1 = taken-IsSound report rest c e sound in
            let (d, done, same, samples, maps) =
              process_input_report-Runs p report (format_value p report.payload) c1 sound1.samples
                sound1.maps in
            let sound2 = core-IsSound c1 d same samples maps sound1 in
            let (d', done', sound3, same') = process_queue-Succeeds p left started d sound2 in
            rw (process_queue, e, timely, done)
              (d', done', sound3, same' ∙ ap (λ k. k.setup_phase) same)
      ]
]

window-Succeeds :
    (p : Platform) (c : BleClientHid)
    → IsSound c
    → Succeeds c.setup_phase (update_sampling_window p c)
window-Succeeds p c sound =
    Runs-Succeeds c (update_sampling_window p c) sound
      (update_sampling_window-Runs p c sound.samples)

-- What a round does before the reports.
abbrev pub set_up : Platform → Database → BleClientHid → BleClientHid
set_up p db c = handle_phase_timeout p (run_phase p db (rediscover c).setup_phase (rediscover c))

-- In a component that is sound, a round of `loop` throws nothing and ends in one that is sound:
-- whatever the phase, the database, the clocks and the reports that are waiting. The reports leave
-- the phase as the set-up has it.
pub loop-Succeeds :
    (p : Platform) (db : Database) (c : BleClientHid)
    → IsSound c
    → Succeeds (set_up p db c).setup_phase (loop p db c)
unfolding loop
loop-Succeeds p db c sound =
    let c1 = rediscover c in
    let c2 = set_up p db c in
    let sound2 =
      handle_phase_timeout-IsSound p (run_phase p db c1.setup_phase c1)
        (run_phase-IsSound p db c1.setup_phase c1 refl (rediscover-IsSound c sound)) in
    and_then-Succeeds c2.setup_phase (update_sampling_window p c2) _ (window-Succeeds p c2 sound2)
      (λ c3 sound3.
        and_then-Succeeds c3.setup_phase
          (process_queue p max_reports_per_loop (p.micros c3.calls) (called c3)) _
          (process_queue-Succeeds p max_reports_per_loop (p.micros c3.calls) (called c3)
            (held-IsSound c3 (called c3) refl sound3))
          (window-Succeeds p))
