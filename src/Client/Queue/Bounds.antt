-- ===== src/Client/Queue/Bounds.antt =====
-- The bounds of the queue of input reports (components/ble_client_hid/ble_client_hid.cpp).
use esphome_ble_remote.Prelude.{
  ℕ, ◌+◌, ◌≤◌, ◌<◌, ◌≡◌, ◌⊎◌, refl, sym, ap, ◌∙◌, List, [], ◌∷◌, ◌++◌, arith, length, ltb, leb,
  false, true, Bool, ◌||◌, Bool-cases, inl, inr, length-append,
}
use esphome_ble_remote.Schema.Usage.{Payload, null, bytes}
use esphome_ble_remote.Decode.Report.{payload_length, is_invalid}
use esphome_ble_remote.Client.Limits.{
  max_pending_reports, max_pending_report_bytes, max_report_payload_bytes,
}
use esphome_ble_remote.Client.State.{Platform, BleClientHid, PendingHidReport}
use esphome_ble_remote.Client.Values.{data_of}
use esphome_ble_remote.Client.Queue.{
  Notification, drop_oldest, make_room, queued_report, enqueue_input_report,
}

-- The bytes of the payloads of a queue.
unfoldable pub total_bytes : List PendingHidReport → ℕ
total_bytes [] = 0
total_bytes (r ∷ rs) = length r.payload + total_bytes rs

total_bytes-snoc :
    (rs : List PendingHidReport) (r : PendingHidReport)
    → total_bytes (rs ++ r ∷ []) ≡ total_bytes rs + length r.payload
unfolding total_bytes
total_bytes-snoc [] r = omega arith
total_bytes-snoc (q ∷ rs) r = omega (arith, total_bytes-snoc rs r)

-- The counter is the bytes that are queued, and the limits are kept.
pub record QueueIsSound (c : BleClientHid) : Type 0 where
  pub counted : c.pending_report_bytes ≡ total_bytes c.pending_reports
  pub bytes : total_bytes c.pending_reports ≤ max_pending_report_bytes
  pub reports : length c.pending_reports ≤ max_pending_reports

-- Nothing is dropped, or the last report that is dropped leaves too little room in front of the rest.
abbrev pub Needed : ℕ → List PendingHidReport → List PendingHidReport → Type 0
Needed added dropped kept =
    (dropped ≡ [])
    ⊎ ((earlier : List PendingHidReport) × (last : PendingHidReport) × (dropped
          ≡ earlier ++ last ∷ [])
        × ((leb max_pending_reports (length (last ∷ kept))
              || ltb max_pending_report_bytes (total_bytes (last ∷ kept) + added))
            ≡ true))

-- One more report is dropped before the others.
Needed-cons :
    (added : ℕ) (oldest : PendingHidReport) (dropped kept rest : List PendingHidReport)
    → dropped ++ kept ≡ rest
    → (leb max_pending_reports (length (oldest ∷ rest))
        || ltb max_pending_report_bytes (total_bytes (oldest ∷ rest) + added))
      ≡ true
    → Needed added dropped kept
    → Needed added (oldest ∷ dropped) kept
Needed-cons added oldest dropped kept rest all full (inl none_dropped) =
    let same : kept ≡ rest = ap (λ l. l ++ kept) (sym none_dropped) ∙ all in
    inr ([], oldest, ap (λ l. oldest ∷ l) none_dropped, rw same full)
Needed-cons added oldest dropped kept rest all full (inr (earlier, last, e, short)) =
    inr (oldest ∷ earlier, last, ap (λ l. oldest ∷ l) e, short)

-- What is left of a queue: its end, less `dropped` reports in front, with room for `added` bytes.
record HasRoom (added : ℕ) (before : List PendingHidReport) (b c : BleClientHid) : Type 0 where
  counted : c.pending_report_bytes ≡ total_bytes c.pending_reports
  bytes : total_bytes c.pending_reports + added ≤ max_pending_report_bytes
  reports : length c.pending_reports < max_pending_reports
  dropped : List PendingHidReport
  rest : dropped ++ c.pending_reports ≡ before
  needed : Needed added dropped c.pending_reports
  sources : c.handle_report_source ≡ b.handle_report_source

make_room-HasRoom :
    (p : Platform) (added : ℕ) (pending : List PendingHidReport) (c : BleClientHid)
    → added ≤ max_pending_report_bytes
    → c.pending_reports ≡ pending
    → c.pending_report_bytes ≡ total_bytes pending
    → HasRoom added pending c (make_room p added pending c)
unfolding make_room drop_oldest total_bytes
make_room-HasRoom p added [] c h e b = record {
  counted = b ∙ ap total_bytes (sym e);
  bytes = rw e (omega (arith, h));
  reports = rw e (omega arith);
  dropped = [];
  rest = e;
  needed = inl refl;
  sources = refl;
}
make_room-HasRoom p added (oldest ∷ rest) c h e b =
    elim (Bool-cases (
      leb max_pending_reports (length (oldest ∷ rest))
      || ltb max_pending_report_bytes (c.pending_report_bytes + added))) [
        | inl full ↦
            let next =
              make_room-HasRoom p added rest (drop_oldest p oldest rest c) h refl
                (omega (arith, b)) in
            rw (make_room, full)
              (record {
                counted = next.counted;
                bytes = next.bytes;
                reports = next.reports;
                dropped = oldest ∷ next.dropped;
                rest = ap (λ l. oldest ∷ l) next.rest;
                needed =
                    Needed-cons added oldest next.dropped _ rest next.rest (rw b at full)
                      next.needed;
                sources = next.sources;
              })
        | inr room ↦
            rw (make_room, room)
              (record {
                counted = b ∙ ap total_bytes (sym e);
                bytes = rw e (ground (arith, room, b));
                reports = rw e (ground (arith, room, b));
                dropped = [];
                rest = e;
                needed = inl refl;
                sources = refl;
              })
      ]

valid_length :
    (value : Payload) → is_invalid value ≡ false → payload_length value ≡ length (data_of value)
valid_length (null n) h = ground (arith, h)
valid_length (bytes bs) h = refl

queued_report-eq :
    (n : Notification) (seq_id : ℕ) (c d : BleClientHid)
    → c.handle_report_source ≡ d.handle_report_source
    → queued_report n seq_id c ≡ queued_report n seq_id d
queued_report-eq n seq_id c d same = rw same refl

-- The notification's payload is null with a length, or too long.
abbrev pub is_refused : Notification → Bool
is_refused n = is_invalid n.value || ltb max_report_payload_bytes (payload_length n.value)

-- The report is behind the old queue less the reports that had to be dropped.
pub record IsQueued (n : Notification) (seq_id : ℕ) (c d : BleClientHid) : Type 0 where
  pub dropped : List PendingHidReport
  pub kept : List PendingHidReport
  pub front : dropped ++ kept ≡ c.pending_reports
  pub queued : d.pending_reports ≡ kept ++ queued_report n seq_id c ∷ []
  pub needed : Needed (payload_length n.value) dropped kept

-- From a queue that is counted right and within its limits, a notification leaves one that is: at
-- most 64 reports and 4096 bytes, with the counter at the bytes that are queued. Where the payload is
-- null with a length or above 512 bytes, nothing changes. Else the queue is the old one less some
-- reports in front, and then the new report; and if any are dropped, then with the last of them still
-- there the new report would not have had room.
pub enqueue_input_report-QueueIsSound :
    (p : Platform) (n : Notification) (seq_id : ℕ) (c : BleClientHid)
    → QueueIsSound c
    → QueueIsSound (enqueue_input_report p n seq_id c)
      × (((is_refused n ≡ true) × (enqueue_input_report p n seq_id c ≡ c))
          ⊎ ((is_refused n ≡ false) × IsQueued n seq_id c (enqueue_input_report p n seq_id c)))
unfolding enqueue_input_report
enqueue_input_report-QueueIsSound p n seq_id c sound = elim (Bool-cases (is_invalid n.value)) [
  | inl invalid ↦ rw invalid (sound, inl (refl, refl))
  | inr valid ↦ elim (Bool-cases (ltb max_report_payload_bytes (payload_length n.value))) [
    | inl large ↦ rw (valid, large) (sound, inl (refl, refl))
    | inr small ↦
        let c1 = make_room p (payload_length n.value) c.pending_reports c in
        let report = queued_report n seq_id c1 in
        let room =
          make_room-HasRoom p (payload_length n.value) c.pending_reports c (ground (arith, small))
            refl sound.counted in
        let same = valid_length n.value valid in
        let total = total_bytes-snoc c1.pending_reports report in
        let size = length-append c1.pending_reports (report ∷ []) in
        rw (valid, small)
          (
            record {
              counted = omega (arith, room.counted, total);
              bytes = omega (arith, room.bytes, total, same);
              reports = omega (arith, room.reports, size);
            },
            inr (
              refl,
              record {
                dropped = room.dropped;
                kept = c1.pending_reports;
                front = room.rest;
                queued =
                    ap (λ r. c1.pending_reports ++ r ∷ [])
                      (queued_report-eq n seq_id c1 c room.sources);
                needed = room.needed;
              },
            ),
          )
  ]
]
