-- ===== src/Event.antt =====
-- HIDEvent of components/ble_client_hid/ordered_event_buffer.h: a `std::map` from strings to
-- strings, as an association list. Its order is not observed by the component.
use Prim.Native.String.{String}
use text.Mathlib.Text.{◌==◌ as str_eq}
use text.Mathlib.TextEquality.{eq_iff}
use esphome_ble_remote.Prelude.{
  ◌≡◌, refl, ◌≢◌, Option, none, some, List, [], ◌∷◌, arith, if◌then◌else◌,
}
use esphome_ble_remote.Prelude.Text.{Text}

abbrev pub HidEvent : Type 0
HidEvent = List (String × Text)

-- `data.find(key)`; `data.at(key)` throws where this is `none`.
unfoldable pub find : String → HidEvent → Option Text
find key [] = none
find key ((k, v) ∷ rest) = if str_eq k key then some v else find key rest

-- `data[key] = value`.
unfoldable pub assign : String → Text → HidEvent → HidEvent
assign key value [] = (key, value) ∷ []
assign key value ((k, v) ∷ rest) =
    if str_eq k key then (key, value) ∷ rest else (k, v) ∷ assign key value rest

-- `data.emplace(key, value)` keeps an entry that is there.
unfoldable pub emplace : String → Text → HidEvent → HidEvent
emplace key value event = elim (find key event) [ none ↦ assign key value event | some v ↦ event ]

pub find-assign :
    (key j : String) (value : Text) (event : HidEvent)
    → find j (assign key value event) ≡ (if str_eq key j then some value else find j event)
unfolding find assign
find-assign key j value [] = refl
find-assign key j value ((k, v) ∷ rest) =
    ground (arith, eq_iff key j, eq_iff k key, eq_iff k j, find-assign key j value rest)

pub find-assign_self :
    (key : String) (value : Text) (event : HidEvent)
    → find key (assign key value event) ≡ some value
find-assign_self key value event = ground (arith, find-assign key key value event, eq_iff key key)

pub find-assign_ne :
    (key j : String) (value : Text) (event : HidEvent)
    → key ≢ j
    → find j (assign key value event) ≡ find j event
find-assign_ne key j value event h = ground (arith, find-assign key j value event, eq_iff key j)
