-- ===== src/Schema/Field.antt =====
-- HIDRange, HIDCollectionSchema, HIDFieldSchema and HIDReportSchema of hid_parser.h, and
-- HIDFieldSchema::usage_at of hid_parser.cpp.
use esphome_ble_remote.Prelude.{
  ℕ, ◌+◌, ◌-◌, ◌/◌, Bool, ◌&&◌, none, some, List, [], ◌∷◌, leb, ◌==◌, if◌then◌else◌, get_elem?,
}
use esphome_ble_remote.Prelude.Int.{ℤ, pos}
use esphome_ble_remote.Prelude.Words.{u16, test_bit}
use esphome_ble_remote.Schema.Usage.{HidUsage, no_usage, HidReportKind}

pub record HidRange : Type 0 where
  pub minimum : ℤ
  pub maximum : ℤ

abbrev pub no_range : HidRange
no_range = record { minimum = pos 0; maximum = pos 0 }

pub record HidCollectionSchema : Type 0 where
  pub id : ℕ
  pub parent : ℕ
  pub type : ℕ
  pub usage : HidUsage
  pub aliases : List HidUsage

pub record HidFieldSchema : Type 0 where
  pub id : ℕ
  pub kind : HidReportKind
  pub report_id : ℕ
  pub collection_id : ℕ
  pub bit_offset : ℕ
  pub report_size : ℕ
  pub report_count : ℕ
  pub flags : ℕ
  pub logical : HidRange
  pub physical : HidRange
  pub unit_exponent : ℤ
  pub unit : ℕ
  pub usages : List HidUsage
  pub alternative_usages : List (List HidUsage)
  pub usage_minimum : HidUsage
  pub usage_maximum : HidUsage
  pub has_usage_range : Bool
  pub string_indices : List ℕ
  pub string_minimum : ℕ
  pub string_maximum : ℕ
  pub has_string_range : Bool
  pub designator_indices : List ℕ
  pub designator_minimum : ℕ
  pub designator_maximum : ℕ
  pub has_designator_range : Bool

unfoldable pub is_constant : HidFieldSchema → Bool
is_constant f = test_bit f.flags 0

unfoldable pub is_variable : HidFieldSchema → Bool
is_variable f = test_bit f.flags 1

unfoldable pub is_relative : HidFieldSchema → Bool
is_relative f = test_bit f.flags 2

-- `usages.back()`, and what follows where the list is empty.
abbrev last_or : List HidUsage → HidUsage → HidUsage
last_or [] d = d
last_or (u ∷ us) d = last_or us u

-- The usage range, the last resort of `usage_at`.
usage_in_range : HidFieldSchema → ℕ → HidUsage
usage_in_range f index =
    if f.has_usage_range
      && f.usage_minimum.page == f.usage_maximum.page
      && leb f.usage_minimum.usage f.usage_maximum.usage
      && leb index (f.usage_maximum.usage - f.usage_minimum.usage)
    then record { usage = u16 (f.usage_minimum.usage + index); page = f.usage_minimum.page }
    else no_usage

unfoldable pub usage_at : HidFieldSchema → ℕ → Bool → HidUsage
unfolding usage_in_range
usage_at f index repeat_last = elim (get_elem? f.usages index) [
  | some u ↦ u
  | none ↦ if repeat_last then last_or f.usages (usage_in_range f index) else usage_in_range f index
]

pub record HidReportSchema : Type 0 where
  pub kind : HidReportKind
  pub report_id : ℕ
  pub bit_size : ℕ
  pub field_ids : List ℕ

unfoldable pub byte_size : HidReportSchema → ℕ
byte_size r = (r.bit_size + 7) / 8
