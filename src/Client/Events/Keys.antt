-- ===== src/Client/Events/Keys.antt =====
-- Which keys the events that are made have (make_hid_event_ of
-- components/ble_client_hid/ble_client_hid.cpp).
use Prim.Native.String.{String}
use text.Mathlib.Text.{◌==◌ as str_eq}
use esphome_ble_remote.Prelude.{
  ◌≡◌, refl, ◌∙◌, Option, none, some, List, [], ◌∷◌, Bool-cases, Option-cases, inl, inr, All,
  All-map,
}
use esphome_ble_remote.Prelude.Text.{Text}
use esphome_ble_remote.Schema.Usage.{HidReportItemValue, HidDecodeStatus}
use esphome_ble_remote.Event.{HidEvent, find, assign, emplace, find-assign, find-assign_self}
use esphome_ble_remote.Client.State.{Platform, BleClientHid, PendingHidReport}
use esphome_ble_remote.Client.Events.{
  report_event, value_event, emplace_some, profile_id, log_event, logged_keys,
}

-- The key is there.
abbrev pub Has : String → HidEvent → Type 0
Has key event = (value : Text) × (find key event ≡ some value)

emplace-Has_self :
    (key : String) (value : Text) (event : HidEvent) → Has key (emplace key value event)
unfolding emplace
emplace-Has_self key value event = elim (Option-cases (find key event)) [
  | inl absent ↦ rw (emplace, absent) (value, find-assign_self key value event)
  | inr (old, there) ↦ rw (emplace, there) (old, there)
]

emplace-Has :
    (j key : String) (value : Text) (event : HidEvent)
    → Has j event
    → Has j (emplace key value event)
unfolding emplace
emplace-Has j key value event (old, there) = elim (Option-cases (find key event)) [
  | inr (other, found) ↦ rw (emplace, found) (old, there)
  | inl absent ↦ elim (Bool-cases (str_eq key j)) [
    | inl same ↦ rw (emplace, absent) (value, find-assign key j value event ∙ rw same refl)
    | inr differs ↦ rw (emplace, absent) (old, find-assign key j value event ∙ rw differs there)
  ]
]

emplace_some-Has :
    (j key : String) (value : Option Text) (event : HidEvent)
    → Has j event
    → Has j (emplace_some key value event)
emplace_some-Has j key none event h = h
emplace_some-Has j key (some value) event h = emplace-Has j key value event h

-- The last entries of a value's event keep an earlier key.
ending-Has :
    (j : String) (a b c d e f : Text) (o : Option Text) (event : HidEvent)
    → Has j event
    → Has j (
        emplace "relative" f (
          emplace "raw_value" e (
            emplace "value" d (
              emplace_some "application_usage" o (
                emplace "application_usage_id" c
                  (emplace "application_usage_page" b (emplace "collection_id" a event)))))))
ending-Has j a b c d e f o event h = emplace-Has j "relative" f _ (
    emplace-Has j "raw_value" e _ (
      emplace-Has j "value" d _ (
        emplace_some-Has j "application_usage" o _ (
          emplace-Has j "application_usage_id" c _
            (emplace-Has j "application_usage_page" b _ (emplace-Has j "collection_id" a _ h))))))

-- The three keys of a value that are published.
pub value_event-Has :
    (v : HidReportItemValue) (event : HidEvent)
    → Has "usage_page" (value_event v event)
      × Has "usage_id" (value_event v event)
      × Has "value" (value_event v event)
unfolding value_event
value_event-Has v event = (
  ending-Has "usage_page" _ _ _ _ _ _ _ _ (
      emplace-Has "usage_page" "field_id" _ _
        (emplace-Has "usage_page" "usage_id" _ _ (emplace-Has_self "usage_page" _ _))),
  ending-Has "usage_id" _ _ _ _ _ _ _ _
      (emplace-Has "usage_id" "field_id" _ _ (emplace-Has_self "usage_id" _ _)),
  emplace-Has "value" "relative" _ _
      (emplace-Has "value" "raw_value" _ _ (emplace-Has_self "value" _ _)),
)

pub value_event_keeps :
    (j : String) (v : HidReportItemValue) (event : HidEvent)
    → Has j event
    → Has j (value_event v event)
unfolding value_event
value_event_keeps j v event h = ending-Has j _ _ _ _ _ _ _ _ (
    emplace-Has j "field_id" _ _
      (emplace-Has j "usage_id" _ _ (emplace-Has j "usage_page" _ _ (emplace-Has j "usage" _ _ h))))

-- The keys that the log line looks up are there.
abbrev pub IsLogged : HidEvent → Type 0
IsLogged event = All (λ key. Has key event) logged_keys

pub report_event-IsLogged :
    (p : Platform) (c : BleClientHid) (report : PendingHidReport) (raw : Text)
    (status : HidDecodeStatus)
    → IsLogged (report_event p c report raw status)
unfolding report_event find emplace assign
report_event-IsLogged p c report raw status =
    elim (Option-cases (profile_id c report.source.service_instance)) [
      | inl absent ↦
          rw (report_event, absent)
            ((_, refl), ((_, refl), ((_, refl), ((_, refl), ((_, refl), tt)))))
      | inr (hash, there) ↦
          rw (report_event, there)
            ((_, refl), ((_, refl), ((_, refl), ((_, refl), ((_, refl), tt)))))
    ]

pub value_event-IsLogged :
    (v : HidReportItemValue) (event : HidEvent) → IsLogged event → IsLogged (value_event v event)
value_event-IsLogged v event h =
    All-map (λ key there. value_event_keeps key v event there) logged_keys h

pub log_event-All :
    (keys : List String) (event : HidEvent) (c : BleClientHid)
    → All (λ key. Has key event) keys
    → log_event keys event c ≡ some c
unfolding log_event
log_event-All [] event c h = refl
log_event-All (key ∷ keys) event c ((value, there), h) =
    rw (log_event, there) (log_event-All keys event c h)
