-- ===== src/Buffer/Accumulate.antt =====
-- The buffer as a map from keys to pending events, and what a contribution does to it.
use Prim.Native.String.{String}
use text.Mathlib.TextEquality.{eq_iff}
use esphome_ble_remote.Prelude.{
  ◌≡◌, ◌≢◌, ◌⊎◌, ◌↔◌, inl, inr, refl, sym, ap, ◌∙◌, true, false, Option, none, some, List, [], ◌∷◌,
  ◌++◌, map, arith, All, All-left, All-right, All-append, subst, Bool-cases, if◌then◌else◌,
}
use esphome_ble_remote.Prelude.Int.{ℤ}
use esphome_ble_remote.Prelude.Text.{Text, int_to_string}
use esphome_ble_remote.Event.{HidEvent, find, assign, find-assign_self, find-assign_ne}
use esphome_ble_remote.Buffer.{
  SampledEventKey, key_eq, PendingEvent, Contribution, combine, merged_event, merge_into, missing,
  merged, merge_pending, fresh,
}

-- What the buffer holds for a key.
unfoldable pub entry : SampledEventKey → List PendingEvent → Option PendingEvent
entry k [] = none
entry k (p ∷ ps) = if key_eq p.key k then some p else entry k ps

pub key_eq_iff : (a b : SampledEventKey) → (key_eq a b ≡ true) ↔ (a ≡ b)
unfolding key_eq
key_eq_iff a b = ground arith

-- The event of a pending entry carries the start of its range of sequence numbers.
abbrev pub IsStamped : HidEvent → Type 0
IsStamped e = (seq_id_from : Text) × (find "seq_id_from" e ≡ some seq_id_from)

-- The entry with the values combined, the event of the contribution, and the old start.
pub record Merged (c : Contribution) (p q : PendingEvent) : Type 0 where
  pub same_key : q.key ≡ p.key
  pub value_combined : q.value ≡ combine c.aggregation p.value c.value
  pub raw_value_combined : q.raw_value ≡ combine c.aggregation p.raw_value c.raw_value
  pub from_kept : find "seq_id_from" q.event ≡ find "seq_id_from" p.event
  pub value_written : find "value" q.event ≡ some (int_to_string q.value)
  pub raw_value_written : find "raw_value" q.event ≡ some (int_to_string q.raw_value)
  pub others_new :
      (j : String)
      → j ≢ "seq_id_from"
      → j ≢ "value"
      → j ≢ "raw_value"
      → find j q.event ≡ find j c.event

value_differs : ◌≢◌ {A = String} "value" "raw_value"
value_differs = ground (arith, eq_iff "value" "raw_value")

from-ne-value : ◌≢◌ {A = String} "seq_id_from" "value"
from-ne-value = ground (arith, eq_iff "seq_id_from" "value")

from-ne-raw : ◌≢◌ {A = String} "seq_id_from" "raw_value"
from-ne-raw = ground (arith, eq_iff "seq_id_from" "raw_value")

module _ (event : HidEvent) (value raw : ℤ) (from : Text) where
  merged_event-value : find "value" (merged_event event value raw from) ≡ some (int_to_string value)
  unfolding merged_event
  merged_event-value =
      find-assign_ne _ _ from _ from-ne-value
      ∙ find-assign_ne _ _ _ _ (λ e. value_differs (sym e))
      ∙ find-assign_self "value" _ event

  merged_event-raw_value :
      find "raw_value" (merged_event event value raw from) ≡ some (int_to_string raw)
  unfolding merged_event
  merged_event-raw_value =
      find-assign_ne _ _ from _ from-ne-raw
      ∙ find-assign_self "raw_value" _ (assign "value" (int_to_string value) event)

  merged_event-from : find "seq_id_from" (merged_event event value raw from) ≡ some from
  unfolding merged_event
  merged_event-from =
      find-assign_self "seq_id_from" from
        (assign "raw_value" (int_to_string raw) (assign "value" (int_to_string value) event))

  merged_event_other :
      (j : String)
      → j ≢ "seq_id_from"
      → j ≢ "value"
      → j ≢ "raw_value"
      → find j (merged_event event value raw from) ≡ find j event
  unfolding merged_event
  merged_event_other j a b c =
      find-assign_ne "seq_id_from" j from _ (λ e. a (sym e))
      ∙ find-assign_ne "raw_value" j _ _ (λ e. c (sym e))
      ∙ find-assign_ne "value" j _ event (λ e. b (sym e))

merge_into-Merged :
    (c : Contribution) (p : PendingEvent)
    → IsStamped p.event
    → (q : PendingEvent) × (merge_into c p ≡ some q) × Merged c p q
unfolding merge_into
merge_into-Merged c p (from, stamp) =
    let value = combine c.aggregation p.value c.value in
    let raw = combine c.aggregation p.raw_value c.raw_value in
    (
      record p { value = value; raw_value = raw; event = merged_event c.event value raw from },
      rw (stamp, merge_into),
      record {
        same_key = refl;
        value_combined = refl;
        raw_value_combined = refl;
        from_kept = merged_event-from c.event value raw from ∙ sym stamp;
        value_written = merged_event-value c.event value raw from;
        raw_value_written = merged_event-raw_value c.event value raw from;
        others_new = merged_event_other c.event value raw from;
      },
    )

abbrev pub keys : List PendingEvent → List SampledEventKey
keys = map (λ p. p.key)

-- The entry of the contribution's key is replaced, and nothing else.
pub record Replaces (c : Contribution) (ps : List PendingEvent) (p q : PendingEvent)
    (qs : List PendingEvent) : Type 0 where
  pub was_there : entry c.key ps ≡ some p
  pub merges : Merged c p q
  pub keys_kept : keys qs ≡ keys ps
  pub before : List PendingEvent
  pub after : List PendingEvent
  pub old_place : ps ≡ before ++ p ∷ after
  pub new_place : qs ≡ before ++ q ∷ after
  pub entries : (k : SampledEventKey) → entry k qs ≡ (if key_eq c.key k then some q else entry k ps)

Replaces-head :
    (c : Contribution) (p q : PendingEvent) (ps : List PendingEvent)
    → key_eq p.key c.key ≡ true
    → Merged c p q
    → Replaces c (p ∷ ps) p q (q ∷ ps)
unfolding entry
Replaces-head c p q ps h m = record {
  was_there = rw h;
  merges = m;
  keys_kept = ap (λ k. k ∷ keys ps) m.same_key;
  before = [];
  after = ps;
  old_place = refl;
  new_place = refl;
  entries = λ k. ground (arith, m.same_key, (key_eq_iff p.key c.key).0 h);
}

Replaces-tail :
    (c : Contribution) (o p q : PendingEvent) (ps qs : List PendingEvent)
    → key_eq o.key c.key ≡ false
    → Replaces c ps p q qs
    → Replaces c (o ∷ ps) p q (o ∷ qs)
unfolding entry
Replaces-tail c o p q ps qs h r = record {
  was_there = rw h r.was_there;
  merges = r.merges;
  keys_kept = ap (λ ks. o.key ∷ ks) r.keys_kept;
  before = o ∷ r.before;
  after = r.after;
  old_place = ap (λ l. o ∷ l) r.old_place;
  new_place = ap (λ l. o ∷ l) r.new_place;
  entries = λ k.
      ground (arith, r.entries k, key_eq_iff c.key k, key_eq_iff o.key k, key_eq_iff o.key c.key);
}

-- What holds of all entries, and of the new one, holds of all entries afterwards.
pub Replaces-All :
    {c : Contribution} {ps qs : List PendingEvent} {p q : PendingEvent} (P : PendingEvent → Type 0)
    → Replaces c ps p q qs
    → (P p → P q)
    → All P ps
    → All P qs
Replaces-All {p = p} {q = q} P r step all =
    let old = subst (All P) r.old_place all in
    let rest = All-right P r.before (p ∷ r.after) old in
    subst (All P) (sym r.new_place) (
      All-append P r.before (q ∷ r.after) (All-left P r.before (p ∷ r.after) old)
        (step rest.0, rest.1))

pub stamps_kept :
    {c : Contribution} {ps qs : List PendingEvent} {p q : PendingEvent}
    → Replaces c ps p q qs
    → All (λ o. IsStamped o.event) ps
    → All (λ o. IsStamped o.event) qs
stamps_kept r =
    Replaces-All (λ o. IsStamped o.event) r (λ (from, e). (from, r.merges.from_kept ∙ e))

-- What the loop comes to over stamped entries: it does not throw.
pub merge_pending-Replaces :
    (c : Contribution) (ps : List PendingEvent)
    → All (λ p. IsStamped p.event) ps
    → ((merge_pending c ps ≡ missing) × (entry c.key ps ≡ none))
      ⊎ ((p q : PendingEvent) × (qs : List PendingEvent) × (merge_pending c ps ≡ merged qs)
          × Replaces c ps p q qs)
unfolding merge_pending entry
merge_pending-Replaces c [] h = inl (refl, refl)
merge_pending-Replaces c (p ∷ ps) h = elim (Bool-cases (key_eq p.key c.key)) [
  | inl same ↦
      let (q, e, m) = merge_into-Merged c p h.0 in
      inr (p, q, q ∷ ps, rw (same, e), Replaces-head c p q ps same m)
  | inr other ↦ elim (merge_pending-Replaces c ps h.1) [
    | inl (e, absent) ↦ inl (rw (other, e), rw (other, absent))
    | inr (o, q, qs, e, r) ↦ inr (o, q, p ∷ qs, rw (other, e), Replaces-tail c p o q ps qs other r)
  ]
]

pub fresh_lem :
    (c : Contribution) (j : String)
    → j ≢ "value"
    → j ≢ "raw_value"
    → find j (fresh c).event ≡ find j c.event
unfolding fresh
fresh_lem c j a b =
    find-assign_ne "raw_value" j _ (assign "value" (int_to_string c.value) c.event) (λ e. b (sym e))
    ∙ find-assign_ne "value" j _ c.event (λ e. a (sym e))

pub fresh_value :
    (c : Contribution) → find "value" (fresh c).event ≡ some (int_to_string (fresh c).value)
unfolding fresh
fresh_value c =
    find-assign_ne "raw_value" "value" _ _ (λ e. value_differs (sym e))
    ∙ find-assign_self "value" _ c.event

pub fresh-key : (c : Contribution) → (fresh c).key ≡ c.key
unfolding fresh
fresh-key c = refl

pub fresh-IsStamped : (c : Contribution) → IsStamped c.event → IsStamped (fresh c).event
fresh-IsStamped c (from, e) = (from, fresh_lem c "seq_id_from" from-ne-value from-ne-raw ∙ e)

pub entry-snoc :
    (k : SampledEventKey) (ps : List PendingEvent) (q : PendingEvent)
    → entry k ps ≡ none
    → entry k (ps ++ q ∷ []) ≡ (if key_eq q.key k then some q else none)
unfolding entry
entry-snoc k [] q h = refl
entry-snoc k (p ∷ ps) q h = ground (arith, entry-snoc k ps q)

pub entry-snoc_other :
    (k : SampledEventKey) (ps : List PendingEvent) (q : PendingEvent)
    → key_eq q.key k ≡ false
    → entry k (ps ++ q ∷ []) ≡ entry k ps
unfolding entry
entry-snoc_other k [] q h = rw h
entry-snoc_other k (p ∷ ps) q h = ground (arith, entry-snoc_other k ps q h)

pub entry-none :
    (k : SampledEventKey) (ps : List PendingEvent) → entry k ps ≡ none → All (λ j. j ≢ k) (keys ps)
unfolding entry
entry-none k [] h = tt
entry-none k (p ∷ ps) h =
    (λ e. ground (arith, key_eq_iff p.key k), entry-none k ps (ground (arith, h)))
