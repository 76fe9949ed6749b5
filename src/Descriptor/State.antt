-- ===== src/Descriptor/State.antt =====
-- The state of the descriptor parser: GlobalState and LocalState of hid_parser.cpp, the variables of
-- parse_report_map_data, and the results of a step.
use esphome_ble_remote.Prelude.{
  ℕ, ◌/◌, ◌*◌, Bool, true, false, List, [], ◌∷◌, ◌++◌, ◌==◌, if◌then◌else◌, get_or, set,
}
use esphome_ble_remote.Prelude.Int.{ℤ, pos}
use esphome_ble_remote.Schema.Usage.{HidUsage, no_usage, HidReportKind, input, output, feature}
use esphome_ble_remote.Schema.Field.{HidRange, no_range}
use esphome_ble_remote.Schema.ReportMap.{HidReportMap}

pub record GlobalState : Type 0 where
  pub usage_page : ℕ
  pub logical : HidRange
  pub physical : HidRange
  pub unit_exponent : ℤ
  pub unit : ℕ
  pub report_size : ℕ
  pub report_count : ℕ
  pub report_id : ℕ

abbrev pub initial_global : GlobalState
initial_global = record {
  usage_page = 0;
  logical = no_range;
  physical = no_range;
  unit_exponent = pos 0;
  unit = 0;
  report_size = 0;
  report_count = 0;
  report_id = 0;
}

pub record LocalState : Type 0 where
  pub usage_sets : List (List HidUsage)
  pub active_usage_set : ℕ
  pub usage_minimum : HidUsage
  pub usage_maximum : HidUsage
  pub has_usage_minimum : Bool
  pub has_usage_maximum : Bool
  pub designators : List ℕ
  pub designator_minimum : ℕ
  pub designator_maximum : ℕ
  pub has_designator_minimum : Bool
  pub has_designator_maximum : Bool
  pub strings : List ℕ
  pub string_minimum : ℕ
  pub string_maximum : ℕ
  pub has_string_minimum : Bool
  pub has_string_maximum : Bool
  pub delimiter_open : Bool

-- `LocalState{}`, to which `reset` returns.
abbrev pub initial_local : LocalState
initial_local = record {
  usage_sets = [] ∷ [];
  active_usage_set = 0;
  usage_minimum = no_usage;
  usage_maximum = no_usage;
  has_usage_minimum = false;
  has_usage_maximum = false;
  designators = [];
  designator_minimum = 0;
  designator_maximum = 0;
  has_designator_minimum = false;
  has_designator_maximum = false;
  strings = [];
  string_minimum = 0;
  string_maximum = 0;
  has_string_minimum = false;
  has_string_maximum = false;
  delimiter_open = false;
}

-- `active_usages().push_back(usage)`.
unfoldable pub push_usage : HidUsage → LocalState → LocalState
push_usage usage l = record l {
  usage_sets =
      set l.usage_sets l.active_usage_set (get_or l.usage_sets l.active_usage_set [] ++ usage ∷ []);
}

-- Both stacks have their top at the head.
pub record Parser : Type 0 where
  pub report_map : HidReportMap
  pub global : GlobalState
  pub local : LocalState
  pub global_stack : List GlobalState
  pub collection_stack : List ℕ

-- The messages that `fail` is called with.
pub data ParseError : Type 0 where
  truncated_long_item_header truncated_long_item_payload truncated_short_item : ParseError
  usage_page_exceeds_16_bits invalid_report_id : ParseError
  global_stack_limit_exceeded global_pop_without_push : ParseError
  nested_delimiter delimiter_close_without_open invalid_delimiter_value : ParseError
  collection_limit_exceeded end_collection_without_collection : ParseError
  invalid_report_size_or_count unterminated_delimiter : ParseError
  report_or_field_limit_exceeded report_bit_length_limit_exceeded : ParseError

-- `fuel_out` is no behaviour of the source: the bound on the rounds of the loop is reached.
pub data Result {ℓ} (A : Type ℓ) : Type ℓ where
  ok : A → Result A
  fail : ℕ → ParseError → Result A
  fuel_out : Result A

infixl 5 ◌>>=◌ ◌>>◌
abbrev pub ◌>>=◌ {ℓ κ} : {A : Type ℓ} {B : Type κ} → Result A → (A → Result B) → Result B
ok a >>= f = f a
fail offset e >>= f = fail offset e
fuel_out >>= f = fuel_out

abbrev pub ◌>>◌ {ℓ} : {B : Type ℓ} → Result (Unit {0}) → Result B → Result B
m >> k = m >>= λ _. k

-- `if (test) return fail(offset, e)`.
abbrev pub fail_if : Bool → ℕ → ParseError → Result (Unit {0})
fail_if true offset e = fail offset e
fail_if false offset e = ok tt

-- The cases of the `switch (tag)`; INPUT, OUTPUT and FEATURE share one.
pub data ItemTag : Type 0 where
  usage_page logical_minimum logical_maximum physical_minimum physical_maximum : ItemTag
  unit_exponent unit report_size report_count report_id push pop : ItemTag
  usage usage_minimum usage_maximum : ItemTag
  designator_index designator_minimum designator_maximum : ItemTag
  string_index string_minimum string_maximum delimiter : ItemTag
  collection end_collection : ItemTag
  main_item : HidReportKind → ItemTag
  unknown : ItemTag

-- The prefix with its size bits masked off, `prefix & (HID_ITEM_TYPE_MASK | HID_ITEM_TAG_MASK)`.
unfoldable pub item_tag : ℕ → ItemTag
item_tag prefix =
    let tag = prefix / 4 * 4 in
    if tag == 0x04
    then usage_page
    else if tag == 0x14
    then logical_minimum
    else if tag == 0x24
    then logical_maximum
    else if tag == 0x34
    then physical_minimum
    else if tag == 0x44
    then physical_maximum
    else if tag == 0x54
    then unit_exponent
    else if tag == 0x64
    then unit
    else if tag == 0x74
    then report_size
    else if tag == 0x94
    then report_count
    else if tag == 0x84
    then report_id
    else if tag == 0xA4
    then push
    else if tag == 0xB4
    then pop
    else if tag == 0x08
    then usage
    else if tag == 0x18
    then usage_minimum
    else if tag == 0x28
    then usage_maximum
    else if tag == 0x38
    then designator_index
    else if tag == 0x48
    then designator_minimum
    else if tag == 0x58
    then designator_maximum
    else if tag == 0x78
    then string_index
    else if tag == 0x88
    then string_minimum
    else if tag == 0x98
    then string_maximum
    else if tag == 0xA8
    then delimiter
    else if tag == 0xA0
    then collection
    else if tag == 0xC0
    then end_collection
    else if tag == 0x80
    then main_item input
    else if tag == 0x90
    then main_item output
    else if tag == 0xB0
    then main_item feature
    else unknown

-- The constants of a round of the loop.
pub record Item : Type 0 where
  pub offset : ℕ
  pub prefix : ℕ
  pub size : ℕ
  pub raw : ℕ
