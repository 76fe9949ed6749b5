-- ===== src/Descriptor/Layout.antt =====
-- What a report map is to be: bounded, its collections linked upwards, and the fields of each
-- report laid out one after the other.
use esphome_ble_remote.Prelude.{
  ℕ, suc, ◌+◌, ◌*◌, ◌≤◌, ◌<◌, ◌≡◌, ◌⊎◌, sym, ap, ◌∙◌, List, [], ◌∷◌, ◌++◌, map, some, arith, length,
  get_elem?, All, Distinct, get_elem?-append_left,
}
use esphome_ble_remote.Schema.Usage.{HidReportKind, no_parent}
use esphome_ble_remote.Schema.Field.{HidCollectionSchema, HidFieldSchema, HidReportSchema}
use esphome_ble_remote.Schema.ReportMap.{
  max_reports, max_fields, max_collections, max_report_bits, max_report_count,
}

-- The ids are the positions from `index` on, and a parent stands before its child.
abbrev pub Linked : ℕ → List HidCollectionSchema → Type 0
Linked index [] = Unit {0}
Linked index (c ∷ cs) =
    (c.id ≡ index) × ((c.parent ≡ no_parent) ⊎ (c.parent < index)) × Linked (suc index) cs

pub record FieldIsSound (collections index : ℕ) (f : HidFieldSchema) : Type 0 where
  pub numbered : f.id ≡ index
  pub size_positive : 0 < f.report_size
  pub size_bounded : f.report_size ≤ 32
  pub count_positive : 0 < f.report_count
  pub count_bounded : f.report_count ≤ max_report_count
  pub end_bounded : f.bit_offset + f.report_size * f.report_count ≤ max_report_bits
  pub collection_known : (f.collection_id ≡ no_parent) ⊎ (f.collection_id < collections)

abbrev pub FieldsAreSound : ℕ → ℕ → List HidFieldSchema → Type 0
FieldsAreSound collections index [] = Unit {0}
FieldsAreSound collections index (f ∷ fs) =
    FieldIsSound collections index f × FieldsAreSound collections (suc index) fs

-- The fields with these ids, of one kind and report id, fill the bits from `start` to `stop`
-- with no gap and no overlap.
abbrev pub Tiles : List HidFieldSchema → HidReportKind → ℕ → List ℕ → ℕ → ℕ → Type 0
Tiles fields kind report_id [] start stop = start ≡ stop
Tiles fields kind report_id (i ∷ ids) start stop =
    (f : HidFieldSchema) × (get_elem? fields i ≡ some f)
    × (f.kind ≡ kind)
    × (f.report_id ≡ report_id)
    × (f.bit_offset ≡ start)
    × Tiles fields kind report_id ids (start + f.report_size * f.report_count) stop

pub record ReportIsSound (fields : List HidFieldSchema) (r : HidReportSchema) : Type 0 where
  pub bits_bounded : r.bit_size ≤ max_report_bits
  pub tiled : Tiles fields r.kind r.report_id r.field_ids 0 r.bit_size

abbrev pub key_of : HidReportSchema → HidReportKind × ℕ
key_of r = (r.kind, r.report_id)

pub record SchemaIsSound (reports : List HidReportSchema) (fields : List HidFieldSchema)
    (collections : List HidCollectionSchema) : Type 0 where
  pub reports_bounded : length reports ≤ max_reports
  pub fields_bounded : length fields ≤ max_fields
  pub collections_bounded : length collections ≤ max_collections
  pub collections_linked : Linked 0 collections
  pub fields_sound : FieldsAreSound (length collections) 0 fields
  pub reports_sound : All (ReportIsSound fields) reports
  pub reports_distinct : Distinct (map key_of reports)

pub Linked-snoc :
    (index : ℕ) (cs : List HidCollectionSchema) (c : HidCollectionSchema)
    → Linked index cs
    → c.id ≡ index + length cs
    → (c.parent ≡ no_parent) ⊎ (c.parent < index + length cs)
    → Linked index (cs ++ c ∷ [])
Linked-snoc index [] c h e p = (omega arith, ground arith, tt)
Linked-snoc index (d ∷ cs) c h e p =
    (h.0, h.1, Linked-snoc (suc index) cs c h.2 (omega arith) (ground arith))

pub FieldsAreSound-snoc :
    (n index : ℕ) (fs : List HidFieldSchema) (f : HidFieldSchema)
    → FieldsAreSound n index fs
    → FieldIsSound n (index + length fs) f
    → FieldsAreSound n index (fs ++ f ∷ [])
FieldsAreSound-snoc n index [] f h s = (ground arith, tt)
FieldsAreSound-snoc n index (g ∷ fs) f h s =
    (h.0, FieldsAreSound-snoc n (suc index) fs f h.1 (ground arith))

pub FieldsAreSound-mono :
    (m n index : ℕ) (fs : List HidFieldSchema)
    → m ≤ n
    → FieldsAreSound m index fs
    → FieldsAreSound n index fs
FieldsAreSound-mono m n index [] le h = tt
FieldsAreSound-mono m n index (f ∷ fs) le h =
    (ground (arith, h.0), FieldsAreSound-mono m n (suc index) fs le h.1)

module _ (kind : HidReportKind) (report_id : ℕ) where
  pub Tiles-extend :
      (fields more : List HidFieldSchema) (ids : List ℕ) (start stop : ℕ)
      → Tiles fields kind report_id ids start stop
      → Tiles (fields ++ more) kind report_id ids start stop
  Tiles-extend fields more [] start stop h = h
  Tiles-extend fields more (i ∷ ids) start stop (f, e, k, r, o, rest) =
      (f, get_elem?-append_left fields more i e, k, r, o, Tiles-extend fields more ids _ stop rest)

  pub Tiles-snoc :
      (fields : List HidFieldSchema) (ids : List ℕ) (start stop id : ℕ) (f : HidFieldSchema)
      → Tiles fields kind report_id ids start stop
      → get_elem? fields id ≡ some f
      → f.kind ≡ kind
      → f.report_id ≡ report_id
      → f.bit_offset ≡ stop
      → Tiles fields kind report_id (ids ++ id ∷ []) start (stop + f.report_size * f.report_count)
  Tiles-snoc fields [] start stop id f h e k r o =
      (f, e, k, r, o ∙ sym h, ap (λ n. n + f.report_size * f.report_count) h)
  Tiles-snoc fields (i ∷ ids) start stop id f (g, eg, kg, rg, og, rest) e k r o =
      (g, eg, kg, rg, og, Tiles-snoc fields ids _ stop id f rest e k r o)

pub ReportIsSound-extend :
    (fields more : List HidFieldSchema) (r : HidReportSchema)
    → ReportIsSound fields r
    → ReportIsSound (fields ++ more) r
ReportIsSound-extend fields more r h = record {
  bits_bounded = h.bits_bounded;
  tiled = Tiles-extend r.kind r.report_id fields more r.field_ids 0 r.bit_size h.tiled;
}
