-- ===== src/Descriptor/Place.antt =====
-- The place of a report in the list, as find_or_add_report gives it (hid_parser.cpp).
use esphome_ble_remote.Prelude.{
  ℕ, ◌≤◌, ◌≡◌, ◌≢◌, ◌⊎◌, inl, inr, refl, sym, ap, true, false, ◌&&◌, Option, none, some, subst,
  List, [], ◌∷◌, ◌++◌, map, arith, length, length-append, All, Distinct, Distinct-snoc, map-snoc,
  All-left, All-right, Bool-cases, leb, ◌==◌,
}
use esphome_ble_remote.Schema.Usage.{HidReportKind, kind_eq}
use esphome_ble_remote.Schema.Field.{HidFieldSchema, HidReportSchema}
use esphome_ble_remote.Schema.ReportMap.{max_reports}
use esphome_ble_remote.Descriptor.Main.{
  find_or_add_report, locate_report, ReportPlace, new_report, grow_report,
}
use esphome_ble_remote.Descriptor.Layout.{ReportIsSound, key_of}

abbrev pub whole : ReportPlace → List HidReportSchema
whole p = p.before ++ p.report ∷ p.after

abbrev Finds : List HidReportSchema → HidReportKind → ℕ → Option ReportPlace → Type 0
Finds reports kind report_id found =
    ((found ≡ none) × All (λ r. key_of r ≢ (kind, report_id)) reports)
    ⊎ ((p : ReportPlace) × (found ≡ some p)
        × (whole p ≡ reports)
        × (p.report.kind ≡ kind)
        × (p.report.report_id ≡ report_id))

kind_eq→eq : (a b : HidReportKind) → kind_eq a b ≡ true → a ≡ b
kind_eq→eq a b h = ground arith

key_differs :
    (r : HidReportSchema) (kind : HidReportKind) (report_id : ℕ)
    → (kind_eq r.kind kind && r.report_id == report_id) ≡ false
    → key_of r ≢ (kind, report_id)
key_differs r kind report_id h = ground arith

locate_report-Finds :
    (reports : List HidReportSchema) (kind : HidReportKind) (report_id : ℕ)
    → Finds reports kind report_id (locate_report reports kind report_id)
unfolding locate_report
locate_report-Finds [] kind report_id = inl (refl, tt)
locate_report-Finds (r ∷ rs) kind report_id =
    elim (Bool-cases (kind_eq r.kind kind && r.report_id == report_id)) [
      | inl h ↦ inr (
        record { before = []; report = r; after = rs },
        rw h,
        refl,
        ground (arith, kind_eq→eq r.kind kind),
        ground arith,
      )
      | inr h ↦ elim (locate_report-Finds rs kind report_id) [
        | inl (e, differ) ↦ inl (rw (h, e), (key_differs r kind report_id h, differ))
        | inr (p, e, w, k, i) ↦
            inr (record p { before = r ∷ p.before }, rw (h, e), ap (λ l. r ∷ l) w, k, i)
      ]
    ]

All-keys :
    (P : HidReportKind × ℕ → Type 0) (rs : List HidReportSchema)
    → All (λ r. P (key_of r)) rs
    → All P (map key_of rs)
All-keys P [] h = tt
All-keys P (r ∷ rs) h = (h.0, All-keys P rs h.1)

-- Growing a report keeps the keys.
pub keys-grow :
    (before after : List HidReportSchema) (r : HidReportSchema) (field_id bits : ℕ)
    → map key_of (before ++ grow_report r field_id bits ∷ after) ≡ map key_of (before ++ r ∷ after)
keys-grow [] after r field_id bits = refl
keys-grow (q ∷ before) after r field_id bits =
    ap (λ l. key_of q ∷ l) (keys-grow before after r field_id bits)

pub record PlaceIsSound (fields : List HidFieldSchema) (kind : HidReportKind) (report_id : ℕ)
    (p : ReportPlace) : Type 0 where
  pub before_sound : All (ReportIsSound fields) p.before
  pub report_sound : ReportIsSound fields p.report
  pub after_sound : All (ReportIsSound fields) p.after
  pub bounded : length (whole p) ≤ max_reports
  pub distinct : Distinct (map key_of (whole p))
  pub of_kind : p.report.kind ≡ kind
  pub of_id : p.report.report_id ≡ report_id

module _ (reports : List HidReportSchema) (fields : List HidFieldSchema) (kind : HidReportKind)
    (report_id : ℕ) (few : length reports ≤ max_reports)
    (sound : All (ReportIsSound fields) reports) (distinct : Distinct (map key_of reports)) where
  found_place :
      (p : ReportPlace)
      → whole p ≡ reports
      → p.report.kind ≡ kind
      → p.report.report_id ≡ report_id
      → PlaceIsSound fields kind report_id p
  found_place p w k i =
      let all = subst (All (ReportIsSound fields)) (sym w) sound in
      record {
        before_sound = All-left (ReportIsSound fields) p.before (p.report ∷ p.after) all;
        report_sound = (All-right (ReportIsSound fields) p.before (p.report ∷ p.after) all).0;
        after_sound = (All-right (ReportIsSound fields) p.before (p.report ∷ p.after) all).1;
        bounded = rw w few;
        distinct = rw w distinct;
        of_kind = k;
        of_id = i;
      }

  added_place :
      All (λ r. key_of r ≢ (kind, report_id)) reports
      → leb max_reports (length reports) ≡ false
      → PlaceIsSound fields kind report_id
          (record { before = reports; report = new_report kind report_id; after = [] })
  added_place differ room = record {
    before_sound = sound;
    report_sound = record { bits_bounded = omega arith; tiled = refl };
    after_sound = tt;
    bounded = ground (arith, length-append {0} reports (new_report kind report_id ∷ []));
    distinct =
        rw (map-snoc key_of reports (new_report kind report_id))
          (Distinct-snoc _ _ distinct (All-keys (λ k. k ≢ (kind, report_id)) reports differ));
    of_kind = refl;
    of_id = refl;
  }

  -- The report found or added is one of a sound list.
  pub find_or_add_report-PlaceIsSound :
      (find_or_add_report reports kind report_id ≡ none)
      ⊎ ((p : ReportPlace) × (find_or_add_report reports kind report_id ≡ some p)
          × PlaceIsSound fields kind report_id p)
  unfolding find_or_add_report
  find_or_add_report-PlaceIsSound = elim (locate_report-Finds reports kind report_id) [
    | inr (p, e, w, k, i) ↦ inr (p, rw (e, find_or_add_report), found_place p w k i)
    | inl (e, differ) ↦ elim (Bool-cases (leb max_reports (length reports))) [
      | inl full ↦ inl (rw (e, full, find_or_add_report))
      | inr room ↦ inr (_, rw (e, room, find_or_add_report), added_place differ room)
    ]
  ]
