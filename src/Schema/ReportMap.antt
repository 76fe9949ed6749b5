-- ===== src/Schema/ReportMap.antt =====
-- HIDReportMap of hid_parser.h with its limits, its accessors and its diagnostics.
use esphome_ble_remote.Prelude.{
  ℕ, zero, suc, Bool, true, false, ◌&&◌, Option, none, some, List, [], ◌∷◌, ◌++◌, ◌==◌,
  if◌then◌else◌, length, get_elem?,
}
use esphome_ble_remote.Prelude.Int.{ℤ}
use esphome_ble_remote.Prelude.Text.{Text}
use esphome_ble_remote.Schema.Usage.{HidUsage, no_usage, HidReportKind, kind_eq, no_parent}
use esphome_ble_remote.Schema.Field.{HidCollectionSchema, HidFieldSchema, HidReportSchema}

abbrev pub max_descriptor_bytes : ℕ
max_descriptor_bytes = 4096

abbrev pub max_reports : ℕ
max_reports = 64

abbrev pub max_fields : ℕ
max_fields = 512

abbrev pub max_collections : ℕ
max_collections = 128

abbrev pub max_collection_depth : ℕ
max_collection_depth = 32

abbrev pub max_global_stack_depth : ℕ
max_global_stack_depth = 16

abbrev pub max_report_bits : ℕ
max_report_bits = 32768

abbrev pub max_report_count : ℕ
max_report_count = 4096

pub record HidParserDiagnostic : Type 0 where
  pub offset : ℕ
  pub error : Bool
  pub message : Text

-- `active_array_usages` is a multimap: its entries, sorted by usage, those of one usage in the
-- order of insertion.
pub record FieldRuntime : Type 0 where
  pub last_values : List ℤ
  pub active_array_usages : List (HidUsage × ℤ)
  pub initialized : Bool

abbrev pub no_runtime : FieldRuntime
no_runtime = record { last_values = []; active_array_usages = []; initialized = false }

-- `runtime` is the map from field ids; an id that is not in the map has `no_runtime`, which is what
-- `runtime_[id]` makes of it.
pub record HidReportMap : Type 0 where
  pub reports : List HidReportSchema
  pub fields : List HidFieldSchema
  pub collections : List HidCollectionSchema
  pub diagnostics : List HidParserDiagnostic
  pub runtime : ℕ → FieldRuntime
  pub valid : Bool
  pub uses_report_ids : Bool

unfoldable pub new_report_map : HidReportMap
new_report_map = record {
  reports = [];
  fields = [];
  collections = [];
  diagnostics = [];
  runtime = λ _. no_runtime;
  valid = true;
  uses_report_ids = false;
}

unfoldable pub add_diagnostic : HidReportMap → ℕ → Bool → Text → HidReportMap
add_diagnostic m offset error message = record m {
  diagnostics = m.diagnostics ++ record { offset = offset; error = error; message = message } ∷ [];
  valid = if error then false else m.valid;
}

unfoldable pub find_in : List HidReportSchema → HidReportKind → ℕ → Option HidReportSchema
find_in [] kind report_id = none
find_in (r ∷ rs) kind report_id =
    if kind_eq r.kind kind && r.report_id == report_id then some r else find_in rs kind report_id

unfoldable pub find_report : HidReportMap → HidReportKind → ℕ → Option HidReportSchema
unfolding find_in
find_report m kind report_id = find_in m.reports kind report_id

unfoldable pub find_field : HidReportMap → ℕ → Option HidFieldSchema
find_field m field_id = get_elem? m.fields field_id

-- The loop of `application_usage`, from the collection `current` up; `none` when the fuel is out.
unfoldable pub application_usage_from : ℕ → List HidCollectionSchema → ℕ → Option HidUsage
application_usage_from zero collections current = none
application_usage_from (suc fuel) collections current =
    if current == no_parent then some no_usage else elim (get_elem? collections current) [
      | none ↦ some no_usage
      | some c ↦
          let up = application_usage_from fuel collections c.parent in
          if c.type == 1 then some c.usage else up
    ]

abbrev usage_or_none : Option HidUsage → HidUsage
usage_or_none (some u) = u
usage_or_none none = no_usage

-- One step for each collection and one to leave the loop.
unfoldable pub application_usage : HidReportMap → ℕ → HidUsage
application_usage m collection_id =
    usage_or_none (application_usage_from (suc (length m.collections)) m.collections collection_id)

unfoldable pub reset_runtime_state : HidReportMap → HidReportMap
reset_runtime_state m = record m { runtime = λ _. no_runtime }
