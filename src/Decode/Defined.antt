-- ===== src/Decode/Defined.antt =====
-- Where HIDReportMap::parse (hid_parser.cpp) has defined behaviour: each field id of a report is an
-- index of the fields.
use esphome_ble_remote.Prelude.{
  ℕ, ◌≡◌, refl, sym, ◌∙◌, Option, some, List, [], ◌∷◌, ◌++◌, ◌&&◌, ◌||◌, not, All, All-map,
  Bool-cases, Option-cases, inl, inr, subst, eq_of_some, get_elem?, ltb, ◌==◌, if◌then◌else◌,
}
use esphome_ble_remote.Schema.Usage.{
  HidReportKind, kind_eq, HidReportSource, Payload, input, kind_value,
}
use esphome_ble_remote.Schema.Field.{HidFieldSchema, HidReportSchema, is_constant, byte_size}
use esphome_ble_remote.Schema.ReportMap.{HidReportMap, find_report, find_in}
use esphome_ble_remote.Descriptor.Layout.{Tiles}
use esphome_ble_remote.Descriptor.Sound.{MapIsSound}
use esphome_ble_remote.Decode.Report.{
  parse_field, parse_fields, parse_input, parse_with, parse, payload_length, is_invalid,
}

-- The ids are indices of the fields.
abbrev pub AreFields : List HidFieldSchema → List ℕ → Type 0
AreFields fields ids = All (λ i. (f : HidFieldSchema) × (get_elem? fields i ≡ some f)) ids

-- The ids of each report are.
abbrev pub FieldsExist : HidReportMap → Type 0
FieldsExist m = All (λ r. AreFields m.fields r.field_ids) m.reports

Tiles-AreFields :
    (fields : List HidFieldSchema) (kind : HidReportKind) (report_id : ℕ) (ids : List ℕ)
    (start stop : ℕ)
    → Tiles fields kind report_id ids start stop
    → AreFields fields ids
Tiles-AreFields fields kind report_id [] start stop h = tt
Tiles-AreFields fields kind report_id (i ∷ ids) start stop (f, there, _, _, _, rest) =
    ((f, there), Tiles-AreFields fields kind report_id ids _ stop rest)

pub MapIsSound-FieldsExist : (m : HidReportMap) → MapIsSound m → FieldsExist m
MapIsSound-FieldsExist m sound =
    All-map (λ r h. Tiles-AreFields m.fields r.kind r.report_id r.field_ids 0 r.bit_size h.tiled)
      m.reports sound.schema.reports_sound

-- The schema is as it was.
abbrev pub SameSchema : HidReportMap → HidReportMap → Type 0
SameSchema m n = (n.reports ≡ m.reports) × (n.fields ≡ m.fields)

pub SameSchema-FieldsExist : (m n : HidReportMap) → SameSchema m n → FieldsExist m → FieldsExist n
SameSchema-FieldsExist m n (reports, fields) h =
    rw reports (subst (λ fs. All (λ r. AreFields fs r.field_ids) m.reports) (sym fields) h)

parse_field-SameSchema :
    (m : HidReportMap) (report_id : ℕ) (f : HidFieldSchema) (payload : Payload)
    → SameSchema m (parse_field m report_id f payload).0
unfolding parse_field
parse_field-SameSchema m report_id f payload = elim (Bool-cases (is_constant f)) [
  | inl constant ↦ rw (parse_field, constant) (refl, refl)
  | inr used ↦ rw (parse_field, used) (refl, refl)
]

-- A result with the same schema, of what has defined behaviour.
abbrev IsDefined {ℓ} : {A : Type ℓ} → HidReportMap → Option (HidReportMap × A) → Type ℓ
IsDefined {A = A} m result =
    (m' : HidReportMap) × (a : A) × (result ≡ some (m', a)) × SameSchema m m'

parse_fields-IsDefined :
    (m : HidReportMap) (report_id : ℕ) (ids : List ℕ) (payload : Payload)
    → AreFields m.fields ids
    → IsDefined m (parse_fields m report_id ids payload)
unfolding parse_fields
parse_fields-IsDefined m report_id [] payload h = (m, [], refl, (refl, refl))
parse_fields-IsDefined m report_id (id ∷ ids) payload ((f, there), h) =
    let (m1, values) = parse_field m report_id f payload in
    let (reports, fields) = parse_field-SameSchema m report_id f payload in
    let (m2, rest, e, (reports', fields')) =
      parse_fields-IsDefined m1 report_id ids payload
        (subst (λ fs. AreFields fs ids) (sym fields) h) in
    (m2, values ++ rest, rw (parse_fields, there, e) refl, (reports' ∙ reports, fields' ∙ fields))

find_in-All :
    (P : HidReportSchema → Type 0) (rs : List HidReportSchema) (kind : HidReportKind)
    (report_id : ℕ) (r : HidReportSchema)
    → find_in rs kind report_id ≡ some r
    → All P rs
    → P r
unfolding find_in
find_in-All P [] kind report_id r e h = cc
find_in-All P (q ∷ rs) kind report_id r e (first, h) =
    elim (Bool-cases (kind_eq q.kind kind && q.report_id == report_id)) [
      | inl same ↦ subst P (eq_of_some q r (rw same at e)) first
      | inr other ↦ find_in-All P rs kind report_id r (rw other at e) h
    ]

parse_with-IsDefined :
    (m : HidReportMap) (source : HidReportSource) (payload : Payload) (report : HidReportSchema)
    → AreFields m.fields report.field_ids
    → IsDefined m (parse_with m source payload report)
unfolding parse_with parse_input
parse_with-IsDefined m source payload report h =
    elim (Bool-cases (ltb (payload_length payload) (byte_size report))) [
      | inl short ↦ rw (parse_with, short) (m, _, refl, (refl, refl))
      | inr whole ↦
          let (m', values, e, same) =
            parse_fields-IsDefined m report.report_id report.field_ids payload h in
          rw (parse_with, whole, e) (m', _, refl, same)
    ]

-- Where each field id of a report is an index of the fields, `parse` has defined behaviour on any
-- source and payload, and leaves the schema as it is.
pub parse-IsDefined :
    (m : HidReportMap) (source : HidReportSource) (payload : Payload)
    → FieldsExist m
    → IsDefined m (parse m source payload)
unfolding parse find_report
parse-IsDefined m source payload h =
    let id = if source.has_report_id then source.report_id else 0 in
    elim (Bool-cases (is_invalid payload)) [
      | inl invalid ↦ rw (parse, invalid) (m, _, refl, (refl, refl))
      | inr valid ↦
          elim (Bool-cases
            (source.characteristic_uuid == 0x2A22 || source.characteristic_uuid == 0x2A33)) [
              | inl boot ↦ rw (parse, valid, boot) (m, _, refl, (refl, refl))
              | inr report ↦
                  elim (Bool-cases
                    (source.has_report_type && not (source.report_type == kind_value input))) [
                      | inl other ↦ rw (parse, valid, report, other) (m, _, refl, (refl, refl))
                      | inr inputs ↦ elim (Option-cases (find_in m.reports input id)) [
                        | inl absent ↦
                            rw (parse, valid, report, inputs, absent) (m, _, refl, (refl, refl))
                        | inr (r, there) ↦
                            rw (parse, valid, report, inputs, there)
                              (parse_with-IsDefined m source payload r (
                                find_in-All (λ r. AreFields m.fields r.field_ids) m.reports input id
                                  r there h))
                      ]
                    ]
            ]
    ]
