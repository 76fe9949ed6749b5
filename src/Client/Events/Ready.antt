-- ===== src/Client/Events/Ready.antt =====
-- Events that can be emitted whenever they come out of the buffer
-- (components/ble_client_hid/ble_client_hid.cpp).
use Prim.Native.String.{String}
use text.Mathlib.TextEquality.{eq_iff}
use esphome_ble_remote.Prelude.{
  ◌≡◌, ◌≢◌, refl, sym, ap, ◌∙◌, Bool, some, List, [], ◌∷◌, ◌++◌, map, arith, All, All-append, subst,
  append-nil, append_assoc,
}
use esphome_ble_remote.Prelude.Text.{Text}
use esphome_ble_remote.Schema.Usage.{HidReportItemValue, HidDecodeStatus}
use esphome_ble_remote.Event.{HidEvent, find}
use esphome_ble_remote.Buffer.{OrderedEventBuffer, PendingEvent, Contribution, fresh, accumulate}
use esphome_ble_remote.Buffer.Accumulate.{
  Merged, Replaces-All, fresh_lem, fresh_value, fresh-IsStamped,
}
use esphome_ble_remote.Buffer.Capacity.{
  BufferIsSound, Outcome, merges, adds, refuses, accumulate-Outcome, Outcome-IsSound,
}
use esphome_ble_remote.Client.State.{Platform, BleClientHid, PendingHidReport}
use esphome_ble_remote.Client.Events.{report_event, make_hid_event, emit_hid_event, emit_all}
use esphome_ble_remote.Client.Events.Keys.{
  Has, IsLogged, value_event-Has, report_event-IsLogged, value_event-IsLogged,
}
use esphome_ble_remote.Client.Events.Total.{Fires, fired, emit-Fires}

-- The keys that emission and accumulation look up.
pub record IsReady (event : HidEvent) : Type 0 where
  pub page : Has "usage_page" event
  pub id : Has "usage_id" event
  pub value : Has "value" event
  pub logged : IsLogged event

pub make_hid_event-IsReady :
    (p : Platform) (c : BleClientHid) (report : PendingHidReport) (raw : Text)
    (v : HidReportItemValue) (status : HidDecodeStatus)
    → IsReady (make_hid_event p c report raw (some v) status)
unfolding make_hid_event
make_hid_event-IsReady p c report raw v status =
    let event = report_event p c report raw status in
    let (page, id, value) = value_event-Has v event in
    record {
      page = page;
      id = id;
      value = value;
      logged = value_event-IsLogged v event (report_event-IsLogged p c report raw status);
    }

Has-eq : (key : String) (e f : HidEvent) → find key f ≡ find key e → Has key e → Has key f
Has-eq key e f same (value, there) = (value, same ∙ there)

Merged-Has :
    {c : Contribution} {p q : PendingEvent} (m : Merged c p q) (key : String)
    → key ≢ "seq_id_from"
    → key ≢ "value"
    → key ≢ "raw_value"
    → Has key c.event
    → Has key q.event
Merged-Has {c = c} {q = q} m key from value raw h =
    Has-eq key c.event q.event (m.others_new key from value raw) h

fresh-Has :
    (c : Contribution) (key : String)
    → key ≢ "value"
    → key ≢ "raw_value"
    → Has key c.event
    → Has key (fresh c).event
fresh-Has c key value raw h = Has-eq key c.event (fresh c).event (fresh_lem c key value raw) h

-- A pending event takes the keys of the last contribution.
Merged-IsReady :
    {c : Contribution} {p q : PendingEvent}
    → Merged c p q
    → IsReady c.event
    → IsReady p.event
    → IsReady q.event
Merged-IsReady {c = c} {p = p} {q = q} m new old = record {
  page =
      Merged-Has m "usage_page" (ground (arith, eq_iff "usage_page" "seq_id_from"))
        (ground (arith, eq_iff "usage_page" "value"))
        (ground (arith, eq_iff "usage_page" "raw_value")) new.page;
  id =
      Merged-Has m "usage_id" (ground (arith, eq_iff "usage_id" "seq_id_from"))
        (ground (arith, eq_iff "usage_id" "value")) (ground (arith, eq_iff "usage_id" "raw_value"))
        new.id;
  value = (_, m.value_written);
  logged = (
    Has-eq "seq_id_from" p.event q.event m.from_kept old.logged.0,
    (
      Merged-Has m "seq_id_to" (ground (arith, eq_iff "seq_id_to" "seq_id_from"))
          (ground (arith, eq_iff "seq_id_to" "value"))
          (ground (arith, eq_iff "seq_id_to" "raw_value")) new.logged.1.0,
      (
        Merged-Has m "hid_service" (ground (arith, eq_iff "hid_service" "seq_id_from"))
            (ground (arith, eq_iff "hid_service" "value"))
            (ground (arith, eq_iff "hid_service" "raw_value")) new.logged.1.1.0,
        (
          Merged-Has m "report_id" (ground (arith, eq_iff "report_id" "seq_id_from"))
              (ground (arith, eq_iff "report_id" "value"))
              (ground (arith, eq_iff "report_id" "raw_value")) new.logged.1.1.1.0,
          (
            Merged-Has m "decode_status" (ground (arith, eq_iff "decode_status" "seq_id_from"))
                (ground (arith, eq_iff "decode_status" "value"))
                (ground (arith, eq_iff "decode_status" "raw_value")) new.logged.1.1.1.1.0,
            tt,
          ),
        ),
      ),
    ),
  );
}

fresh-IsReady : (c : Contribution) → IsReady c.event → IsReady (fresh c).event
fresh-IsReady c new = record {
  page =
      fresh-Has c "usage_page" (ground (arith, eq_iff "usage_page" "value"))
        (ground (arith, eq_iff "usage_page" "raw_value")) new.page;
  id =
      fresh-Has c "usage_id" (ground (arith, eq_iff "usage_id" "value"))
        (ground (arith, eq_iff "usage_id" "raw_value")) new.id;
  value = (_, fresh_value c);
  logged = (
    fresh-IsStamped c new.logged.0,
    (
      fresh-Has c "seq_id_to" (ground (arith, eq_iff "seq_id_to" "value"))
          (ground (arith, eq_iff "seq_id_to" "raw_value")) new.logged.1.0,
      (
        fresh-Has c "hid_service" (ground (arith, eq_iff "hid_service" "value"))
            (ground (arith, eq_iff "hid_service" "raw_value")) new.logged.1.1.0,
        (
          fresh-Has c "report_id" (ground (arith, eq_iff "report_id" "value"))
              (ground (arith, eq_iff "report_id" "raw_value")) new.logged.1.1.1.0,
          (
            fresh-Has c "decode_status" (ground (arith, eq_iff "decode_status" "value"))
                (ground (arith, eq_iff "decode_status" "raw_value")) new.logged.1.1.1.1.0,
            tt,
          ),
        ),
      ),
    ),
  );
}

-- A buffer of the component.
pub record SampleIsSound (b : OrderedEventBuffer) : Type 0 where
  pub buffer : BufferIsSound b
  pub ready : All (λ p. IsReady p.event) b.pending

Outcome-IsReady :
    (b : OrderedEventBuffer) (c : Contribution) (b' : OrderedEventBuffer) (done : Bool)
    → All (λ p. IsReady p.event) b.pending
    → IsReady c.event
    → Outcome b c b' done
    → All (λ p. IsReady p.event) b'.pending
Outcome-IsReady b c b' done all new (merges p q e cap r) =
    Replaces-All (λ o. IsReady o.event) r (Merged-IsReady r.merges new) all
Outcome-IsReady b c b' done all new (adds e absent room n) =
    subst (λ b. All (λ p. IsReady p.event) b.pending) (sym n)
      (All-append (λ p. IsReady p.event) b.pending (fresh c ∷ []) all (fresh-IsReady c new, tt))
Outcome-IsReady b c b' done all new (refuses e absent full n) =
    subst (λ b. All (λ p. IsReady p.event) b.pending) (sym n) all

pub accumulate-SampleIsSound :
    (b : OrderedEventBuffer) (c : Contribution)
    → SampleIsSound b
    → IsReady c.event
    → (b' : OrderedEventBuffer) × (done : Bool) × (accumulate b c ≡ some (b', done))
      × SampleIsSound b'
accumulate-SampleIsSound b c sound new =
    let (b', done, e, o) = accumulate-Outcome b c sound.buffer.stamped in
    (
      b',
      done,
      e,
      record {
        buffer = Outcome-IsSound b c b' done sound.buffer new.logged.0 o;
        ready = Outcome-IsReady b c b' done sound.ready new o;
      },
    )

-- An empty buffer, of the same capacity.
pub emptied-SampleIsSound : (b : OrderedEventBuffer) → SampleIsSound (record b { pending = [] })
emptied-SampleIsSound b = record {
  buffer = record { bounded = omega arith; distinct = tt; stamped = tt };
  ready = tt;
}

-- The event can be emitted in any state.
abbrev pub Emits : HidEvent → Type 0
Emits event = (c : BleClientHid) → Fires (event ∷ []) c (emit_hid_event event c)

pub emit_all-Fires :
    (events : List HidEvent) (c : BleClientHid)
    → All Emits events
    → Fires events c (emit_all events c)
unfolding emit_all
emit_all-Fires [] c emits = (c.effects, refl, sym (append-nil (fired c.effects)))
emit_all-Fires (event ∷ events) c emits =
    let (s1, e1, f1) = emits.0 c in
    let (s2, e2, f2) = emit_all-Fires events (record c { effects = s1 }) emits.1 in
    (
      s2,
      rw (emit_all, e1) e2,
      f2 ∙ ap (λ l. l ++ events) f1 ∙ append_assoc (fired c.effects) (event ∷ []) events,
    )

pub pending-Emits :
    (ps : List PendingEvent) → All (λ p. IsReady p.event) ps → All Emits (map (λ p. p.event) ps)
pending-Emits [] h = tt
pending-Emits (p ∷ ps) h =
    (λ c. emit-Fires p.event c h.0.logged h.0.page h.0.id h.0.value, pending-Emits ps h.1)
