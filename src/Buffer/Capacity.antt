-- ===== src/Buffer/Capacity.antt =====
-- The invariant of the buffer, and the three things that a contribution can do.
use esphome_ble_remote.Prelude.{
  ◌≤◌, ◌<◌, ◌≡◌, inl, inr, refl, ◌≢◌, sym, ap, Bool, true, false, none, some, subst, [], ◌∷◌, ◌++◌,
  arith, length, length-append, length-map, All, Distinct, Distinct-snoc, map-snoc, All-append,
  Bool-cases, leb,
}
use esphome_ble_remote.Buffer.{PendingEvent, OrderedEventBuffer, Contribution, fresh, accumulate}
use esphome_ble_remote.Buffer.Accumulate.{
  entry, IsStamped, keys, Replaces, stamps_kept, merge_pending-Replaces, fresh-IsStamped, fresh-key,
  entry-none,
}

pub record BufferIsSound (b : OrderedEventBuffer) : Type 0 where
  pub bounded : length b.pending ≤ b.capacity
  pub distinct : Distinct (keys b.pending)
  pub stamped : All (λ p. IsStamped p.event) b.pending

pub data Outcome (b : OrderedEventBuffer) (c : Contribution) (b' : OrderedEventBuffer) (done : Bool)
    : Type 0 where
  -- The key is pending: its entry takes the contribution in, in its place.
  merges :
      (p q : PendingEvent)
      → done ≡ true
      → b'.capacity ≡ b.capacity
      → Replaces c b.pending p q b'.pending
      → Outcome b c b' done
  -- The key is new and there is room: an entry is added at the end.
  adds :
      done ≡ true
      → entry c.key b.pending ≡ none
      → length b.pending < b.capacity
      → b' ≡ record b { pending = b.pending ++ fresh c ∷ [] }
      → Outcome b c b' done
  -- The key is new and the buffer is full: nothing changes.
  refuses :
      done ≡ false
      → entry c.key b.pending ≡ none
      → b.capacity ≤ length b.pending
      → b' ≡ b
      → Outcome b c b' done

-- On a buffer whose entries all carry the start of their range, a contribution does not throw: it
-- is merged into the entry with its key, and no other entry changes; or, its key being new, it is
-- added at the end; or, its key being new and the buffer full, it is refused with no change.
pub accumulate-Outcome :
    (b : OrderedEventBuffer) (c : Contribution)
    → All (λ p. IsStamped p.event) b.pending
    → (b' : OrderedEventBuffer) × (done : Bool) × (accumulate b c ≡ some (b', done))
      × Outcome b c b' done
unfolding accumulate
accumulate-Outcome b c h = elim (merge_pending-Replaces c b.pending h) [
  | inr (p, q, qs, e, r) ↦
      (record b { pending = qs }, true, rw (e, accumulate), merges p q refl refl r)
  | inl (e, absent) ↦ elim (Bool-cases (leb b.capacity (length b.pending))) [
    | inl full ↦ (b, false, rw (e, full, accumulate), refuses refl absent (ground arith) refl)
    | inr room ↦ (
      record b { pending = b.pending ++ fresh c ∷ [] },
      true,
      rw (e, room, accumulate),
      adds refl absent (ground arith) refl,
    )
  ]
]

added-IsSound :
    (b : OrderedEventBuffer) (c : Contribution)
    → BufferIsSound b
    → IsStamped c.event
    → entry c.key b.pending ≡ none
    → length b.pending < b.capacity
    → BufferIsSound (record b { pending = b.pending ++ fresh c ∷ [] })
added-IsSound b c v stamp absent room = record {
  bounded = omega (arith, length-append {0} b.pending (fresh c ∷ []));
  distinct = subst Distinct (sym (map-snoc (λ p. p.key) b.pending (fresh c))) (
      Distinct-snoc (keys b.pending) (fresh c).key v.distinct (
        subst (λ k. All (λ j. j ≢ k) (keys b.pending)) (sym (fresh-key c))
          (entry-none c.key b.pending absent)));
  stamped =
      All-append (λ p. IsStamped p.event) b.pending (fresh c ∷ []) v.stamped
        (fresh-IsStamped c stamp, tt);
}

pub Outcome-IsSound :
    (b : OrderedEventBuffer) (c : Contribution) (b' : OrderedEventBuffer) (done : Bool)
    → BufferIsSound b
    → IsStamped c.event
    → Outcome b c b' done
    → BufferIsSound b'
Outcome-IsSound b c b' done v stamp (merges p q e cap r) = record {
  bounded = omega (
    arith,
    v.bounded,
    length-map {0, 0} b.pending (λ p. p.key),
    length-map {0, 0} b'.pending (λ p. p.key),
    ap length r.keys_kept,
  );
  distinct = subst Distinct (sym r.keys_kept) v.distinct;
  stamped = stamps_kept r v.stamped;
}
Outcome-IsSound b c b' done v stamp (adds e absent room n) =
    subst BufferIsSound (sym n) (added-IsSound b c v stamp absent room)
Outcome-IsSound b c b' done v stamp (refuses e absent full n) = subst BufferIsSound (sym n) v

-- A sound buffer has at most `capacity` entries, no two with one key, each with the start of its
-- range. A contribution that carries its sequence number keeps it so, and does not throw.
pub accumulate-BufferIsSound :
    (b : OrderedEventBuffer) (c : Contribution)
    → BufferIsSound b
    → IsStamped c.event
    → (b' : OrderedEventBuffer) × (done : Bool) × (accumulate b c ≡ some (b', done))
      × BufferIsSound b'
accumulate-BufferIsSound b c v stamp =
    let (b', done, e, o) = accumulate-Outcome b c v.stamped in
    (b', done, e, Outcome-IsSound b c b' done v stamp o)
