-- ===== src/Descriptor/Main.antt =====
-- The cases of the switch in parse_report_map_data for main items (hid_parser.cpp).
use esphome_ble_remote.Prelude.{
  ℕ, ◌+◌, ◌-◌, ◌*◌, ◌%◌, ◌&&◌, ◌||◌, Option, none, some, List, [], ◌∷◌, ◌++◌, ltb, leb, ◌==◌,
  if◌then◌else◌, length, get_or, drop,
}
use esphome_ble_remote.Prelude.Words.{u8, u16, u32}
use esphome_ble_remote.Schema.Usage.{HidUsage, no_usage, HidReportKind, kind_eq, no_parent}
use esphome_ble_remote.Schema.Field.{HidCollectionSchema, HidFieldSchema, HidReportSchema}
use esphome_ble_remote.Schema.ReportMap.{
  max_reports, max_fields, max_collections, max_collection_depth, max_report_bits, max_report_count,
}
use esphome_ble_remote.Descriptor.State.{
  LocalState, initial_local, Parser, Result, ok, fail, fail_if, ◌>>=◌, ◌>>◌, Item,
  collection_limit_exceeded, end_collection_without_collection, invalid_report_size_or_count,
  unterminated_delimiter, report_or_field_limit_exceeded, report_bit_length_limit_exceeded,
}

-- `collection_stack.empty() ? NO_PARENT : collection_stack.back()`.
abbrev pub current_collection : List ℕ → ℕ
current_collection [] = no_parent
current_collection (c ∷ stack) = c

abbrev pub concat_sets : List (List HidUsage) → List HidUsage
concat_sets [] = []
concat_sets (us ∷ sets) = us ++ concat_sets sets

unfoldable pub collection_usage_of : List HidUsage → LocalState → HidUsage
collection_usage_of [] l = if l.has_usage_minimum then l.usage_minimum else no_usage
collection_usage_of (u ∷ us) l = u

unfoldable pub collection_of : Item → Parser → HidCollectionSchema
unfolding collection_usage_of
collection_of i s = record {
  id = u16 (length s.report_map.collections);
  parent = current_collection s.collection_stack;
  type = u8 i.raw;
  usage = collection_usage_of (get_or s.local.usage_sets 0 []) s.local;
  aliases = concat_sets (drop 1 s.local.usage_sets);
}

unfoldable pub on_collection : Item → Parser → Result Parser
unfolding collection_of
on_collection i s = do
  fail_if
      (leb max_collections (length s.report_map.collections)
        || leb max_collection_depth (length s.collection_stack))
      i.offset collection_limit_exceeded
  ok (record s {
    report_map = record (s.report_map) {
      collections = s.report_map.collections ++ collection_of i s ∷ [];
    };
    collection_stack = u16 (length s.report_map.collections) ∷ s.collection_stack;
    local = initial_local;
  })

unfoldable pub pop_collection : List ℕ → Item → Parser → Result Parser
pop_collection [] i s = fail i.offset end_collection_without_collection
pop_collection (c ∷ stack) i s = ok (record s { collection_stack = stack; local = initial_local })

unfoldable pub on_end_collection : Item → Parser → Result Parser
unfolding pop_collection
on_end_collection i s = pop_collection s.collection_stack i s

-- A pointer into `reports_`: the reports before it, the report, and those after it.
pub record ReportPlace : Type 0 where
  pub before : List HidReportSchema
  pub report : HidReportSchema
  pub after : List HidReportSchema

-- The loop of `find_or_add_report`.
unfoldable pub locate_report : List HidReportSchema → HidReportKind → ℕ → Option ReportPlace
locate_report [] kind report_id = none
locate_report (r ∷ rs) kind report_id =
    if kind_eq r.kind kind && r.report_id == report_id
    then some (record { before = []; report = r; after = rs })
    else elim (locate_report rs kind report_id) [
      | none ↦ none
      | some p ↦ some (record p { before = r ∷ p.before })
    ]

abbrev pub new_report : HidReportKind → ℕ → HidReportSchema
new_report kind report_id = record {
  kind = kind;
  report_id = report_id;
  bit_size = 0;
  field_ids = [];
}

-- `none` is the null pointer.
unfoldable pub find_or_add_report : List HidReportSchema → HidReportKind → ℕ → Option ReportPlace
unfolding locate_report
find_or_add_report reports kind report_id = elim (locate_report reports kind report_id) [
  | some p ↦ some p
  | none ↦
      if leb max_reports (length reports)
      then none
      else some (record { before = reports; report = new_report kind report_id; after = [] })
]

unfoldable pub field_of : HidReportKind → Item → ReportPlace → Parser → HidFieldSchema
field_of kind i p s = record {
  id = u16 (length s.report_map.fields);
  kind = kind;
  report_id = g.report_id;
  collection_id = current_collection s.collection_stack;
  bit_offset = p.report.bit_size;
  report_size = g.report_size;
  report_count = g.report_count;
  flags = i.raw % 512;
  logical = g.logical;
  physical = g.physical;
  unit_exponent = g.unit_exponent;
  unit = g.unit;
  usages = get_or l.usage_sets 0 [];
  alternative_usages = drop 1 l.usage_sets;
  usage_minimum = l.usage_minimum;
  usage_maximum = l.usage_maximum;
  has_usage_range = l.has_usage_minimum && l.has_usage_maximum;
  string_indices = l.strings;
  string_minimum = l.string_minimum;
  string_maximum = l.string_maximum;
  has_string_range = l.has_string_minimum && l.has_string_maximum;
  designator_indices = l.designators;
  designator_minimum = l.designator_minimum;
  designator_maximum = l.designator_maximum;
  has_designator_range = l.has_designator_minimum && l.has_designator_maximum;
}
  where
    open s use {global as g, local as l}

abbrev pub grow_report : HidReportSchema → ℕ → ℕ → HidReportSchema
grow_report r field_id field_bits = record r {
  field_ids = r.field_ids ++ field_id ∷ [];
  bit_size = u32 (r.bit_size + field_bits);
}

-- The report and the field list after the checks.
unfoldable pub add_field : HidReportKind → Item → ReportPlace → Parser → Parser
unfolding field_of
add_field kind i p s =
    let f = field_of kind i p s in
    let grown = grow_report p.report f.id (s.global.report_size * s.global.report_count) in
    record s {
      report_map = record (s.report_map) {
        reports = p.before ++ grown ∷ p.after;
        fields = s.report_map.fields ++ f ∷ [];
      };
      local = initial_local;
    }

abbrev pub place_or_fail : Option ReportPlace → ℕ → Result ReportPlace
place_or_fail none offset = fail offset report_or_field_limit_exceeded
place_or_fail (some p) offset = ok p

unfoldable pub on_main_item : HidReportKind → Item → Parser → Result Parser
unfolding add_field
on_main_item kind i s = do
  let size = s.global.report_size
  let count = s.global.report_count
  fail_if (size == 0 || ltb 32 size || count == 0 || ltb max_report_count count) i.offset
      invalid_report_size_or_count
  fail_if s.local.delimiter_open i.offset unterminated_delimiter
  p ← place_or_fail (find_or_add_report s.report_map.reports kind s.global.report_id) i.offset
  fail_if (leb max_fields (length s.report_map.fields)) i.offset report_or_field_limit_exceeded
  fail_if
      (ltb max_report_bits (size * count) || ltb (max_report_bits - size * count) p.report.bit_size)
      i.offset report_bit_length_limit_exceeded
  ok (add_field kind i p s)
