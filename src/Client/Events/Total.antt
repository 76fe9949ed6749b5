-- ===== src/Client/Events/Total.antt =====
-- The emission of the events that are made (emit_hid_event_ of
-- components/ble_client_hid/ble_client_hid.cpp).
use esphome_ble_remote.Prelude.{
  ◌≡◌, refl, sym, ap, ◌∙◌, Bool, true, false, Option, none, some, List, [], ◌∷◌, ◌++◌, Option-cases,
  inl, inr, if◌then◌else◌, append-nil, append_assoc,
}
use esphome_ble_remote.Prelude.Text.{Text}
use esphome_ble_remote.Schema.Usage.{HidReportItemValue, HidDecodeStatus}
use esphome_ble_remote.Event.{HidEvent, find, assign, emplace}
use esphome_ble_remote.Client.State.{
  Platform, BleClientHid, PendingHidReport, Effect, perform, fire_event, publish_value_of,
  publish_usage, publish_code,
}
use esphome_ble_remote.Client.Events.{
  report_event, value_event, make_hid_event, publish_value, publish_event, emit_hid_event,
  profile_id, log_event, logged_keys,
}
use esphome_ble_remote.Client.Events.Keys.{
  Has, value_event-Has, IsLogged, report_event-IsLogged, value_event-IsLogged, log_event-All,
}

-- The events that a trace fires.
abbrev heard : Effect → List HidEvent
heard (fire_event event) = event ∷ []
heard _ = []

unfoldable pub fired : List Effect → List HidEvent
fired [] = []
fired (effect ∷ effects) = heard effect ++ fired effects

pub fired-snoc :
    (effects : List Effect) (effect : Effect)
    → fired (effects ++ effect ∷ []) ≡ fired effects ++ heard effect
unfolding fired
fired-snoc [] effect = append-nil (heard effect)
fired-snoc (first ∷ effects) effect =
    ap (λ events. heard first ++ events) (fired-snoc effects effect)
    ∙ sym (append_assoc (heard first) (fired effects) (heard effect))

-- The result is the state with more effects, which fire the events.
abbrev pub Fires : List HidEvent → BleClientHid → Option BleClientHid → Type 0
Fires events c result =
    (effects : List Effect) × (result ≡ some (record c { effects = effects }))
    × (fired effects ≡ fired c.effects ++ events)

silent :
    (effect : Effect) (c : BleClientHid) → heard effect ≡ [] → Fires [] c (some (perform effect c))
silent effect c h =
    (c.effects ++ effect ∷ [], refl, fired-snoc c.effects effect ∙ ap (λ l. fired c.effects ++ l) h)

Fires-after :
    (events : List HidEvent) (effects : List Effect) (c : BleClientHid)
    (result : Option BleClientHid)
    → fired effects ≡ fired c.effects ++ events
    → Fires [] (record c { effects = effects }) result
    → Fires events c result
Fires-after events effects c result before (after, e, quiet) =
    (after, e, quiet ∙ append-nil (fired effects) ∙ before)

guard-Fires :
    (test : Bool) (c : BleClientHid) (result : Option BleClientHid)
    → Fires [] c result
    → Fires [] c (if test then result else some c)
guard-Fires true c result h = h
guard-Fires false c result h = (c.effects, refl, sym (append-nil (fired c.effects)))

publish_value-Fires :
    (event : HidEvent) (c : BleClientHid) → Has "value" event → Fires [] c (publish_value event c)
unfolding publish_value
publish_value-Fires event c (value, e) =
    guard-Fires c.has_value_sensor c _ (rw e (silent (publish_value_of value) c refl))

-- A step that may publish, and then another.
publish_if-Fires :
    (there : Bool) (effect : Effect) (c : BleClientHid) (result : Option BleClientHid)
    → heard effect ≡ []
    → Fires [] (if there then perform effect c else c) result
    → Fires [] c result
publish_if-Fires true effect c result h rest =
    Fires-after [] (c.effects ++ effect ∷ []) c result
      (fired-snoc c.effects effect ∙ ap (λ l. fired c.effects ++ l) h) rest
publish_if-Fires false effect c result h rest = rest

publish_event-Fires :
    (event : HidEvent) (usage : Text) (c : BleClientHid)
    → Has "usage_page" event
    → Has "usage_id" event
    → Has "value" event
    → Fires [] c (publish_event event usage c)
unfolding publish_event
publish_event-Fires event usage c (page, e1) (id, e2) value =
    let c1 = if c.has_usage_text_sensor then perform (publish_usage usage) c else c in
    let code = publish_code (page ++ b'_' ∷ id) in
    rw (publish_event, e1, e2)
      (publish_if-Fires c.has_usage_text_sensor (publish_usage usage) c _ refl (
        publish_if-Fires c.has_code_text_sensor code c1 _ refl (
          publish_value-Fires event (if c.has_code_text_sensor then perform code c1 else c1)
            value)))

logged-Fires :
    (event : HidEvent) (events : List HidEvent) (c : BleClientHid) (result : Option BleClientHid)
    → IsLogged event
    → Fires events c result
    → Fires events c (elim result [ none ↦ none | some d ↦ log_event logged_keys event d ])
logged-Fires event events c result logged (effects, e, fires) =
    (effects, rw e (log_event-All logged_keys event (record c { effects = effects }) logged), fires)

-- An event with a usage has the keys that are published with it.
pub emit-Fires :
    (event : HidEvent) (c : BleClientHid)
    → IsLogged event
    → Has "usage_page" event
    → Has "usage_id" event
    → Has "value" event
    → Fires (event ∷ []) c (emit_hid_event event c)
unfolding emit_hid_event
emit-Fires event c logged page id value =
    let now = fired-snoc c.effects (fire_event event) in
    let c1 = perform (fire_event event) c in
    elim (Option-cases (find "usage" event)) [
      | inl absent ↦
          rw (emit_hid_event, absent)
            (logged-Fires event (event ∷ []) c (some c1) logged (c1.effects, refl, now))
      | inr (usage, there) ↦
          rw (emit_hid_event, there)
            (logged-Fires event (event ∷ []) c (publish_event event usage c1) logged (
              Fires-after (event ∷ []) c1.effects c _ now
                (publish_event-Fires event usage c1 page id value)))
    ]

-- An event of a report has no usage.
emit-report :
    (p : Platform) (c : BleClientHid) (report : PendingHidReport) (raw : Text)
    (status : HidDecodeStatus)
    → find "usage" (report_event p c report raw status) ≡ none
unfolding report_event find emplace assign
emit-report p c report raw status =
    elim (Option-cases (profile_id c report.source.service_instance)) [
      | inl absent ↦ rw (report_event, absent) refl
      | inr (hash, there) ↦ rw (report_event, there) refl
    ]

-- The emission of an event that make_hid_event_ makes never throws, and it fires that event and no
-- other and changes nothing else of the component: whatever the report, the value or its absence,
-- and the sensors that are there, each key that `at` looks up to publish or to log is in the event.
pub emit_hid_event-make_hid_event :
    (p : Platform) (c d : BleClientHid) (report : PendingHidReport) (raw : Text)
    (v : Option HidReportItemValue) (status : HidDecodeStatus)
    → Fires
        (make_hid_event p c report raw v status ∷ [])
        d
        (emit_hid_event (make_hid_event p c report raw v status) d)
unfolding make_hid_event emit_hid_event
emit_hid_event-make_hid_event p c d report raw none status =
    let event = report_event p c report raw status in
    let d1 = perform (fire_event event) d in
    rw (emit_hid_event, emit-report p c report raw status)
      (logged-Fires event (event ∷ []) d (some d1) (report_event-IsLogged p c report raw status)
        (d1.effects, refl, fired-snoc d.effects (fire_event event)))
emit_hid_event-make_hid_event p c d report raw (some v) status =
    let event = report_event p c report raw status in
    let (page, id, value) = value_event-Has v event in
    emit-Fires (value_event v event) d
      (value_event-IsLogged v event (report_event-IsLogged p c report raw status)) page id value
