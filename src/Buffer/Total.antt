-- ===== src/Buffer/Total.antt =====
-- Relative movement is not lost in the buffer: the entry of a key holds the sum of its
-- contributions.
use esphome_ble_remote.Prelude.{
  ◌≡◌, refl, sym, ap, ◌∙◌, Bool, Option, none, some, subst, List, [], ◌∷◌, arith, All, eq_of_some,
}
use esphome_ble_remote.Prelude.Int.{ℤ, ◌+ℤ◌}
use esphome_ble_remote.Schema.Usage.{sum}
use esphome_ble_remote.Buffer.{
  SampledEventKey, PendingEvent, OrderedEventBuffer, Contribution, accumulate, combine,
}
use esphome_ble_remote.Buffer.Saturating.{clamp, IsInt64, saturating_add-clamp}
use esphome_ble_remote.Buffer.Accumulate.{stamps_kept, entry, key_eq_iff, IsStamped}
use esphome_ble_remote.Buffer.Capacity.{Outcome, accumulate-Outcome}

-- Accumulates the contributions in turn, whatever each call answers.
pub accumulate_all : OrderedEventBuffer → List Contribution → Option OrderedEventBuffer
accumulate_all b [] = some b
accumulate_all b (c ∷ cs) = elim (accumulate b c) [
  | none ↦ none
  | some (b', done) ↦ accumulate_all b' cs
]

-- Each contribution is a sum for the key, and the exact sum from `start` on stays an int64_t.
abbrev pub SumsTo : SampledEventKey → ℤ → List Contribution → ℤ → Type 0
SumsTo key start [] stop = start ≡ stop
SumsTo key start (c ∷ cs) stop =
    (c.key ≡ key)
    × (c.aggregation ≡ sum)
    × IsInt64 start
    × IsInt64 c.value
    × IsInt64 (start +ℤ c.value)
    × SumsTo key (start +ℤ c.value) cs stop

clamp_id : (z : ℤ) → IsInt64 z → clamp z ≡ z
clamp_id z h = ground arith

-- The entry of the key after one contribution to it.
step_total :
    (b : OrderedEventBuffer) (c : Contribution) (p : PendingEvent)
    → All (λ o. IsStamped o.event) b.pending
    → entry c.key b.pending ≡ some p
    → c.aggregation ≡ sum
    → IsInt64 p.value
    → IsInt64 c.value
    → IsInt64 (p.value +ℤ c.value)
    → (b' : OrderedEventBuffer) × (done : Bool) × (q : PendingEvent) × (accumulate b c
        ≡ some (b', done))
      × All (λ o. IsStamped o.event) b'.pending
      × (entry c.key b'.pending ≡ some q)
      × (q.value ≡ p.value +ℤ c.value)
step_total b c p stamped e s hp hc hs =
    let (b', done, a, o) = accumulate-Outcome b c stamped in go b' done a o
  where
    value_of :
        (p' q : PendingEvent)
        → p' ≡ p
        → q.value ≡ combine c.aggregation p'.value c.value
        → q.value ≡ p.value +ℤ c.value
    value_of p' q same v =
        v
        ∙ ap (λ o. combine c.aggregation o.value c.value) same
        ∙ ap (λ g. combine g p.value c.value) s
        ∙ saturating_add-clamp p.value c.value hp hc
        ∙ clamp_id (p.value +ℤ c.value) hs

    go :
        (b' : OrderedEventBuffer) (done : Bool)
        → accumulate b c ≡ some (b', done)
        → Outcome b c b' done
        → (b' : OrderedEventBuffer) × (done : Bool) × (q : PendingEvent) × (accumulate b c
            ≡ some (b', done))
          × All (λ o. IsStamped o.event) b'.pending
          × (entry c.key b'.pending ≡ some q)
          × (q.value ≡ p.value +ℤ c.value)
    go b' done a (Outcome.merges p' q d same r) = (
      b',
      done,
      q,
      a,
      stamps_kept r stamped,
      r.entries c.key ∙ ground (arith, key_eq_iff c.key c.key),
      value_of p' q (eq_of_some p' p (sym r.was_there ∙ e)) r.merges.value_combined,
    )
    go b' done a (Outcome.adds d absent room n) = absurd (cc (sym absent ∙ e))
    go b' done a (Outcome.refuses d absent full n) = absurd (cc (sym absent ∙ e))

-- Where the contributions are all sums for one key that is pending, on a buffer whose entries carry
-- the start of their range, and each value and each partial sum is an int64_t, the entry of the key
-- ends up with its old value plus the exact sum, however many there are; and nothing is thrown.
pub accumulate_all-SumsTo :
    (cs : List Contribution) (key : SampledEventKey) (b : OrderedEventBuffer) (p : PendingEvent)
    (stop : ℤ)
    → All (λ o. IsStamped o.event) b.pending
    → entry key b.pending ≡ some p
    → SumsTo key p.value cs stop
    → (b' : OrderedEventBuffer) × (q : PendingEvent) × (accumulate_all b cs ≡ some b')
      × (entry key b'.pending ≡ some q)
      × (q.value ≡ stop)
unfolding accumulate_all
accumulate_all-SumsTo [] key b p stop st e h = (b, p, refl, e, h)
accumulate_all-SumsTo (c ∷ cs) key b p stop st e (k, s, hp, hc, hs, rest) =
    let e' : entry c.key b.pending ≡ some p = subst (λ j. entry j b.pending ≡ some p) (sym k) e in
    let (b', done, q, a, st', n, v) = step_total b c p st e' s hp hc hs in
    let n' : entry key b'.pending ≡ some q = subst (λ j. entry j b'.pending ≡ some q) k n in
    let (b'', r, t, m, w) =
      accumulate_all-SumsTo cs key b' q stop st' n'
        (subst (λ z. SumsTo key z cs stop) (sym v) rest) in
    (b'', r, rw (a, accumulate_all) t, m, w)
