-- ===== src/Descriptor/Fields.antt =====
-- A main item that defines a field keeps the invariant: the field is laid out behind those of its
-- report, and no limit is passed.
use esphome_ble_remote.Prelude.{
  ◌+◌, ◌*◌, ◌-◌, ◌≤◌, ◌<◌, ◌≡◌, inl, inr, refl, sym, Bool, false, ◌||◌, some, subst, List, [], ◌∷◌,
  ◌++◌, arith, length, length-append, get_elem?, All, Distinct, All-append, All-map, get_elem?-last,
  Bool-cases, ltb, leb, ◌==◌,
}
use esphome_ble_remote.Prelude.Words.{u32}
use esphome_ble_remote.Schema.Usage.{HidReportKind}
use esphome_ble_remote.Schema.Field.{HidFieldSchema, HidReportSchema}
use esphome_ble_remote.Schema.ReportMap.{max_fields, max_report_bits, max_report_count}
use esphome_ble_remote.Descriptor.State.{Parser, Item}
use esphome_ble_remote.Descriptor.Main.{on_main_item, ReportPlace, grow_report, field_of, add_field}
use esphome_ble_remote.Descriptor.Layout.{
  SchemaIsSound, ReportIsSound, ReportIsSound-extend, FieldIsSound, FieldsAreSound-snoc, Tiles,
  Tiles-extend, Tiles-snoc,
}
use esphome_ble_remote.Descriptor.Place.{PlaceIsSound, find_or_add_report-PlaceIsSound, keys-grow}
use esphome_ble_remote.Descriptor.Preserve.{Inv, Ensures, current_collection-lt}

-- The checks of a main item that have passed.
record Passed (s : Parser) (p : ReportPlace) : Type 0 where
  size_positive : 0 < s.global.report_size
  size_bounded : s.global.report_size ≤ 32
  count_positive : 0 < s.global.report_count
  count_bounded : s.global.report_count ≤ max_report_count
  room : length s.report_map.fields < max_fields
  fits : p.report.bit_size + s.global.report_size * s.global.report_count ≤ max_report_bits

grow_report-ReportIsSound :
    (fields : List HidFieldSchema) (r : HidReportSchema) (f : HidFieldSchema)
    → ReportIsSound fields r
    → f.id ≡ length fields
    → f.kind ≡ r.kind
    → f.report_id ≡ r.report_id
    → f.bit_offset ≡ r.bit_size
    → r.bit_size + f.report_size * f.report_count ≤ max_report_bits
    → ReportIsSound (fields ++ f ∷ []) (grow_report r f.id (f.report_size * f.report_count))
grow_report-ReportIsSound fields r f h id kind report_id offset fits =
    let bits = r.bit_size + f.report_size * f.report_count in
    let exact : u32 bits ≡ bits = omega arith in
    let extended =
      Tiles-extend r.kind r.report_id fields (f ∷ []) r.field_ids 0 r.bit_size h.tiled in
    let last : get_elem? (fields ++ f ∷ []) f.id ≡ some f =
      subst (λ n. get_elem? (fields ++ f ∷ []) n ≡ some f) (sym id) (get_elem?-last fields f) in
    record {
      bits_bounded = omega arith;
      tiled =
          subst (Tiles (fields ++ f ∷ []) r.kind r.report_id (r.field_ids ++ f.id ∷ []) 0)
            (sym exact)
            (Tiles-snoc r.kind r.report_id _ r.field_ids 0 r.bit_size f.id f extended last kind
              report_id offset);
    }

module _ (kind : HidReportKind) (i : Item) (s : Parser) (p : ReportPlace) (v : Inv s)
    (place : PlaceIsSound s.report_map.fields kind s.global.report_id p) (passed : Passed s p) where
  field_of-FieldIsSound :
      FieldIsSound
        (length s.report_map.collections)
        (length s.report_map.fields)
        (field_of kind i p s)
  unfolding field_of
  field_of-FieldIsSound = record {
    numbered = omega arith;
    size_positive = passed.size_positive;
    size_bounded = passed.size_bounded;
    count_positive = passed.count_positive;
    count_bounded = passed.count_bounded;
    end_bounded = passed.fits;
    collection_known =
        current_collection-lt (length s.report_map.collections) s.collection_stack v.open_known;
  }

  grown-ReportIsSound :
      ReportIsSound (s.report_map.fields ++ field_of kind i p s ∷ []) (
        grow_report p.report
          (field_of kind i p s).id
          (s.global.report_size * s.global.report_count))
  unfolding field_of
  grown-ReportIsSound =
      grow_report-ReportIsSound s.report_map.fields p.report (field_of kind i p s)
        place.report_sound (omega arith) (sym place.of_kind) (sym place.of_id) refl passed.fits

  add_field-SchemaIsSound :
      let m = (add_field kind i p s).report_map in SchemaIsSound m.reports m.fields m.collections
  unfolding add_field
  add_field-SchemaIsSound =
      let f = field_of kind i p s in
      let bits = s.global.report_size * s.global.report_count in
      let grown = grow_report p.report f.id bits in
      let extended = λ (rs : List HidReportSchema) (h : All (ReportIsSound s.report_map.fields) rs).
        All-map {Q = ReportIsSound (s.report_map.fields ++ f ∷ [])}
          (ReportIsSound-extend s.report_map.fields (f ∷ [])) rs h in
      let keys = keys-grow p.before p.after p.report f.id bits in
      record {
        reports_bounded = omega (
          arith,
          place.bounded,
          length-append {0} p.before (grown ∷ p.after),
          length-append {0} p.before (p.report ∷ p.after),
        );
        fields_bounded = omega (arith, passed.room, length-append {0} s.report_map.fields (f ∷ []));
        collections_bounded = v.schema.collections_bounded;
        collections_linked = v.schema.collections_linked;
        fields_sound = FieldsAreSound-snoc _ 0 s.report_map.fields f v.schema.fields_sound (
            subst (λ n. FieldIsSound (length s.report_map.collections) n f) (omega arith)
              field_of-FieldIsSound);
        reports_sound =
            All-append (ReportIsSound (s.report_map.fields ++ f ∷ [])) p.before (grown ∷ p.after)
              (extended p.before place.before_sound)
              (grown-ReportIsSound, extended p.after place.after_sound);
        reports_distinct = subst Distinct (sym keys) place.distinct;
      }

  add_field-Inv : Inv (add_field kind i p s)
  add_field-Inv = record {
    schema = add_field-SchemaIsSound;
    valid = unfold add_field in v.valid;
    open_bounded = unfold add_field in v.open_bounded;
    open_known = unfold add_field in v.open_known;
    pushed_bounded = unfold add_field in v.pushed_bounded;
    set_known = unfold add_field in omega arith;
  }

-- The checks of `on_main_item` before the report is looked up, and after.
abbrev bad_size : Parser → Bool
bad_size s =
    s.global.report_size == 0
    || ltb 32 s.global.report_size
    || s.global.report_count == 0
    || ltb max_report_count s.global.report_count

abbrev too_long : Parser → ReportPlace → Bool
too_long s p =
    ltb max_report_bits (s.global.report_size * s.global.report_count)
    || ltb (max_report_bits - s.global.report_size * s.global.report_count) p.report.bit_size

passes :
    (s : Parser) (p : ReportPlace)
    → bad_size s ≡ false
    → leb max_fields (length s.report_map.fields) ≡ false
    → too_long s p ≡ false
    → Passed s p
passes s p sized room fits = record {
  size_positive = ground arith;
  size_bounded = ground arith;
  count_positive = ground arith;
  count_bounded = ground arith;
  room = ground arith;
  fits = ground arith;
}

pub on_main_item-Inv :
    (kind : HidReportKind) (i : Item) (s : Parser) → Inv s → Ensures Inv (on_main_item kind i s)
unfolding on_main_item
on_main_item-Inv kind i s v = elim (Bool-cases (bad_size s)) [
  | inl h ↦ rw h tt
  | inr sized ↦ rw sized (elim (Bool-cases s.local.delimiter_open) [
    | inl h ↦ rw h tt
    | inr closed ↦
        rw closed
          (elim (find_or_add_report-PlaceIsSound s.report_map.reports s.report_map.fields kind
            s.global.report_id v.schema.reports_bounded v.schema.reports_sound
            v.schema.reports_distinct) [
              | inl e ↦ rw e tt
              | inr (p, e, place) ↦
                  rw e (elim (Bool-cases (leb max_fields (length s.report_map.fields))) [
                    | inl h ↦ rw h tt
                    | inr room ↦ rw room (elim (Bool-cases (too_long s p)) [
                      | inl h ↦ rw h tt
                      | inr fits ↦
                          rw fits (add_field-Inv kind i s p v place (passes s p sized room fits))
                    ])
                  ])
            ])
  ])
]
