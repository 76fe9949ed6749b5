-- ===== src/Buffer.antt =====
-- OrderedEventBuffer of components/ble_client_hid/ordered_event_buffer.h: events that are held back,
-- one for each key, in the order in which the keys were first seen.
pub mod Saturating
pub mod Accumulate
pub mod Capacity
pub mod Total
use text.Mathlib.Text.{◌==◌ as str_eq}
use esphome_ble_remote.Prelude.{
  ℕ, ◌+◌, Bool, true, false, ◌&&◌, ◌||◌, Option, none, some, List, [], ◌∷◌, ◌++◌, map, ltb, leb,
  ◌==◌, if◌then◌else◌, length,
}
use esphome_ble_remote.Prelude.Int.{ℤ, pos, negsuc, ◌+ℤ◌, ◌-ℤ◌, ltb_ℤ}
use esphome_ble_remote.Prelude.Text.{Text, int_to_string}
use esphome_ble_remote.Schema.Usage.{Aggregation, sum}
use esphome_ble_remote.Event.{HidEvent, find, assign}

pub record SampledEventKey : Type 0 where
  pub service_instance : ℕ
  pub field_id : ℕ
  pub report_id : ℕ
  pub report_kind : ℕ

unfoldable pub key_eq : SampledEventKey → SampledEventKey → Bool
key_eq a b =
    a.service_instance == b.service_instance
    && a.field_id == b.field_id
    && a.report_id == b.report_id
    && a.report_kind == b.report_kind

pub record PendingEvent : Type 0 where
  pub key : SampledEventKey
  pub aggregation : Aggregation
  pub value : ℤ
  pub raw_value : ℤ
  pub event : HidEvent

pub record OrderedEventBuffer : Type 0 where
  pub capacity : ℕ
  pub pending : List PendingEvent

unfoldable pub new_buffer : ℕ → OrderedEventBuffer
new_buffer capacity = record { capacity = capacity; pending = [] }

abbrev pub int64_max : ℤ
int64_max = pos 9223372036854775807

abbrev pub int64_min : ℤ
int64_min = negsuc 9223372036854775807

unfoldable pub saturating_add : ℤ → ℤ → ℤ
unfolding ◌+ℤ◌ ◌-ℤ◌
saturating_add left right =
    if ltb_ℤ (pos 0) right && ltb_ℤ (int64_max -ℤ right) left
    then int64_max
    else if ltb_ℤ right (pos 0) && ltb_ℤ left (int64_min -ℤ right)
    then int64_min
    else left +ℤ right

-- A contribution to a pending event.
pub record Contribution : Type 0 where
  pub key : SampledEventKey
  pub aggregation : Aggregation
  pub value : ℤ
  pub raw_value : ℤ
  pub event : HidEvent

abbrev pub combine : Aggregation → ℤ → ℤ → ℤ
combine sum old new = saturating_add old new
combine _ old new = new

-- The new event, with the aggregated values, and the start of the old one's range.
unfoldable pub merged_event : HidEvent → ℤ → ℤ → Text → HidEvent
unfolding assign
merged_event event value raw_value seq_id_from =
    assign "seq_id_from" seq_id_from
      (assign "raw_value" (int_to_string raw_value) (assign "value" (int_to_string value) event))

-- The body of the loop at the entry with the key. `none` is the exception that `at` throws.
unfoldable pub merge_into : Contribution → PendingEvent → Option PendingEvent
unfolding merged_event
merge_into c p =
    let value = combine c.aggregation p.value c.value in
    let raw_value = combine c.aggregation p.raw_value c.raw_value in
    elim (find "seq_id_from" p.event) [
      | none ↦ none
      | some seq_id_from ↦ some (record p {
        value = value;
        raw_value = raw_value;
        event = merged_event c.event value raw_value seq_id_from;
      })
    ]

-- What the loop over the pending events comes to.
pub data Merge : Type 0 where
  missing throws : Merge
  merged : List PendingEvent → Merge

unfoldable pub merge_pending : Contribution → List PendingEvent → Merge
merge_pending c [] = missing
merge_pending c (p ∷ ps) =
    if key_eq p.key c.key
    then elim (merge_into c p) [ none ↦ throws | some q ↦ merged (q ∷ ps) ]
    else elim (merge_pending c ps) [
      | missing ↦ missing
      | throws ↦ throws
      | merged qs ↦ merged (p ∷ qs)
    ]

abbrev fresh_event : Contribution → HidEvent
fresh_event c =
    assign "raw_value" (int_to_string c.raw_value) (assign "value" (int_to_string c.value) c.event)

unfoldable pub fresh : Contribution → PendingEvent
unfolding assign
fresh c = record {
  key = c.key;
  aggregation = c.aggregation;
  value = c.value;
  raw_value = c.raw_value;
  event = fresh_event c;
}

-- The buffer and the result; `none` where an exception is thrown.
unfoldable pub accumulate : OrderedEventBuffer → Contribution → Option (OrderedEventBuffer × Bool)
accumulate b c = elim (merge_pending c b.pending) [
  | throws ↦ none
  | merged ps ↦ some (record b { pending = ps }, true)
  | missing ↦
      if leb b.capacity (length b.pending)
      then some (b, false)
      else some (record b { pending = b.pending ++ fresh c ∷ [] }, true)
]

unfoldable pub drain : OrderedEventBuffer → OrderedEventBuffer × List HidEvent
drain b = (record b { pending = [] }, map (λ p. p.event) b.pending)

unfoldable pub drain_before : OrderedEventBuffer → HidEvent → OrderedEventBuffer × List HidEvent
unfolding drain
drain_before b barrier = let (b', events) = drain b in (b', events ++ barrier ∷ [])

unfoldable pub clear : OrderedEventBuffer → OrderedEventBuffer
clear b = record b { pending = [] }

abbrev pub is_empty : OrderedEventBuffer → Bool
is_empty b = length b.pending == 0
