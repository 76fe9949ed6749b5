-- ===== src/Client/Sampling/Window.antt =====
-- The update of the sampling window (update_sampling_window_ of
-- components/ble_client_hid/ble_client_hid.cpp).
use esphome_ble_remote.Prelude.{
  ℕ, ◌≡◌, refl, sym, ap, ◌∙◌, Bool, true, false, not, ◌||◌, ◌&&◌, Bool-cases, inl, inr, length,
  if◌then◌else◌, some, List, [], ◌∷◌, ◌++◌, map, append-nil, ◌==◌, arith,
}
use esphome_ble_remote.Event.{HidEvent}
use esphome_ble_remote.Client.Names.{elapsed}
use esphome_ble_remote.Client.State.{Platform, BleClientHid, called}
use esphome_ble_remote.Buffer.{PendingEvent, drain, is_empty}
use esphome_ble_remote.Client.Gatt.{GattServiceInfo, HidServiceContext}
use esphome_ble_remote.Client.Events.Total.{fired}
use esphome_ble_remote.Client.Events.Ready.{
  SampleIsSound, emptied-SampleIsSound, emit_all-Fires, pending-Emits,
}
use esphome_ble_remote.Client.Sampling.{flush_sampled_events, update_sampling_window}

-- The events that are held back, in the order of the buffer.
abbrev pub held_back : BleClientHid → List HidEvent
held_back c = map (λ p. p.event) c.sampled_events.pending

abbrev pub drained : BleClientHid → BleClientHid
drained c = record c { sampled_events = record c.sampled_events { pending = [] } }

-- What the events that are made depend on, and whether there is sampling.
abbrev pub frame : BleClientHid → List GattServiceInfo × List HidServiceContext × ℕ
frame c = (c.services, c.hid_services, c.event_sampling_interval_us)

-- A window is open, sampling is on, and the interval has elapsed on the microsecond clock.
abbrev pub is_due : Platform → BleClientHid → Bool
is_due p c =
    not (not c.sampling_window_active || c.event_sampling_interval_us == 0)
    && elapsed (p.micros c.calls) c.sampling_window_started_us c.event_sampling_interval_us

-- What the update of the window makes of the component.
pub record IsUpdated (p : Platform) (c d : BleClientHid) : Type 0 where
  pub fires : fired d.effects ≡ fired c.effects ++ (if is_due p c then held_back c else [])
  pub holds : held_back d ≡ (if is_due p c then [] else held_back c)
  pub active :
      d.sampling_window_active
      ≡ (if is_due p c then not (is_empty c.sampled_events) else c.sampling_window_active)
  pub started : d.sampling_window_started_us ≡ (
      if is_due p c && not (is_empty c.sampled_events)
      then p.micros c.calls
      else c.sampling_window_started_us)
  pub samples : SampleIsSound d.sampled_events
  pub same : frame d ≡ frame c

idle-IsUpdated :
    (p : Platform) (c d : BleClientHid)
    → is_due p c ≡ false
    → fired d.effects ≡ fired c.effects
    → held_back d ≡ held_back c
    → d.sampling_window_active ≡ c.sampling_window_active
    → d.sampling_window_started_us ≡ c.sampling_window_started_us
    → SampleIsSound d.sampled_events
    → frame d ≡ frame c
    → IsUpdated p c d
idle-IsUpdated p c d idle effects events active started samples same = record {
  fires = rw idle (effects ∙ sym (append-nil (fired c.effects)));
  holds = rw idle events;
  active = rw idle active;
  started = rw idle started;
  samples = samples;
  same = same;
}

no_events : (ps : List PendingEvent) → (length ps == 0) ≡ true → map (λ p. p.event) ps ≡ []
no_events [] h = refl
no_events (p ∷ ps) h = ground (arith, h)

is_open :
    (c : BleClientHid)
    → (not c.sampling_window_active || c.event_sampling_interval_us == 0) ≡ false
    → c.sampling_window_active ≡ true
is_open c on = ground (arith, on)

pub update_sampling_window-releases :
    (p : Platform) (c : BleClientHid)
    → SampleIsSound c.sampled_events
    → (d : BleClientHid) × (update_sampling_window p c ≡ some d) × IsUpdated p c d
unfolding update_sampling_window flush_sampled_events drain
update_sampling_window-releases p c sound =
    let now = p.micros c.calls in
    elim (Bool-cases (not c.sampling_window_active || c.event_sampling_interval_us == 0)) [
      | inl off ↦ (
        c,
        rw (update_sampling_window, off) refl,
        idle-IsUpdated p c c (rw off refl) refl refl refl refl sound refl,
      )
      | inr on ↦
          elim (Bool-cases
            (elapsed now c.sampling_window_started_us c.event_sampling_interval_us)) [
              | inr early ↦ (
                called c,
                rw (update_sampling_window, on, early) refl,
                idle-IsUpdated p c (called c) (rw (on, early) refl) refl refl refl refl sound refl,
              )
              | inl late ↦ elim (Bool-cases (is_empty c.sampled_events)) [
                | inl empty ↦
                    let none_held = no_events c.sampled_events.pending empty in
                    (
                      record (called c) { sampling_window_active = false },
                      rw (update_sampling_window, on, late, empty) refl,
                      record {
                        fires = rw (on, late, none_held) (sym (append-nil (fired c.effects)));
                        holds = rw (on, late) none_held;
                        active = rw (on, late, empty) refl;
                        started = rw (on, late, empty) refl;
                        samples = sound;
                        same = refl;
                      },
                    )
                | inr filled ↦
                    let (effects, e, fires) =
                      emit_all-Fires (held_back c) (drained (called c))
                        (pending-Emits c.sampled_events.pending sound.ready) in
                    (
                      record (drained (called c)) {
                        effects = effects;
                        sampling_window_started_us = now;
                      },
                      rw (update_sampling_window, on, late, filled, e) refl,
                      record {
                        fires = rw (on, late) fires;
                        holds = rw (on, late) refl;
                        active = rw (on, late, filled) (is_open c on);
                        started = rw (on, late, filled) refl;
                        samples = emptied-SampleIsSound c.sampled_events;
                        same = refl;
                      },
                    )
              ]
            ]
    ]

-- What is fired and what is held back are together what they were.
pub all_out :
    (p : Platform) (c d : BleClientHid)
    → IsUpdated p c d
    → fired d.effects ++ held_back d ≡ fired c.effects ++ held_back c
all_out p c d updated = elim (Bool-cases (is_due p c)) [
  | inl due ↦
      let fires : fired d.effects ≡ fired c.effects ++ held_back c = rw due at updated.fires in
      let holds : held_back d ≡ [] = rw due at updated.holds in
      ap (λ l. fired d.effects ++ l) holds ∙ append-nil (fired d.effects) ∙ fires
  | inr idle ↦
      let fires : fired d.effects ≡ fired c.effects ++ [] = rw idle at updated.fires in
      let holds : held_back d ≡ held_back c = rw idle at updated.holds in
      ap (λ l. fired d.effects ++ l) holds
      ∙ ap (λ l. l ++ held_back c) (fires ∙ append-nil (fired c.effects))
]
