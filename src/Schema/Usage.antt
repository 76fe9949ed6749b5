-- ===== src/Schema/Usage.antt =====
-- HIDUsage of hid_parser.h with its comparisons, and the small enumerations of that file with
-- their names.

use esphome_ble_remote.Prelude.{ℕ, ◌≡◌, ◌↔◌, List, Bool, true, false, ◌&&◌, ◌||◌, arith, ltb, ◌==◌}
use esphome_ble_remote.Prelude.Text.{Text, codes}
use esphome_ble_remote.Prelude.Int.{ℤ}

pub record HidUsage : Type 0 where
  pub usage : ℕ
  pub page : ℕ

abbrev pub no_usage : HidUsage
no_usage = record { usage = 0; page = 0 }

unfoldable pub usage_eq : HidUsage → HidUsage → Bool
usage_eq a b = a.page == b.page && a.usage == b.usage

unfoldable pub usage_lt : HidUsage → HidUsage → Bool
usage_lt a b = ltb a.page b.page || (a.page == b.page && ltb a.usage b.usage)

pub usage_eq_iff : (a b : HidUsage) → (usage_eq a b ≡ true) ↔ (a ≡ b)
unfolding usage_eq
usage_eq_iff a b = ground arith

-- INPUT = 1, OUTPUT = 2, FEATURE = 3.
pub data HidReportKind : Type 0 where
  input output feature : HidReportKind

abbrev pub kind_value : HidReportKind → ℕ
kind_value input = 1
kind_value output = 2
kind_value feature = 3

abbrev pub kind_eq : HidReportKind → HidReportKind → Bool
kind_eq a b = kind_value a == kind_value b

unfoldable pub hid_report_kind_name : HidReportKind → Text
hid_report_kind_name input = codes "input"
hid_report_kind_name output = codes "output"
hid_report_kind_name feature = codes "feature"

pub data HidDecodeStatus : Type 0 where
  exact long short schema_missing report_kind_mismatch boot_report invalid_payload : HidDecodeStatus

unfoldable pub hid_decode_status_name : HidDecodeStatus → Text
hid_decode_status_name exact = codes "exact"
hid_decode_status_name long = codes "long"
hid_decode_status_name short = codes "short"
hid_decode_status_name schema_missing = codes "schema_missing"
hid_decode_status_name report_kind_mismatch = codes "report_kind_mismatch"
hid_decode_status_name boot_report = codes "boot_report"
hid_decode_status_name invalid_payload = codes "invalid_payload"

pub record HidReportSource : Type 0 where
  pub service_instance : ℕ
  pub characteristic_handle : ℕ
  pub report_id : ℕ
  pub has_report_id : Bool
  pub report_type : ℕ
  pub has_report_type : Bool
  pub is_notification : Bool
  pub has_transport : Bool
  pub characteristic_uuid : ℕ

-- The member initialisers.
abbrev pub no_source : HidReportSource
no_source = record {
  service_instance = 0;
  characteristic_handle = 0;
  report_id = 0;
  has_report_id = false;
  report_type = 0;
  has_report_type = false;
  is_notification = true;
  has_transport = false;
  characteristic_uuid = 0;
}

pub data Aggregation : Type 0 where
  passthrough sum latest : Aggregation

pub record HidReportItemValue : Type 0 where
  pub usage : HidUsage
  pub application_usage : HidUsage
  pub value : ℤ
  pub raw_value : ℤ
  pub characteristic_handle : ℕ
  pub field_id : ℕ
  pub collection_id : ℕ
  pub report_id : ℕ
  pub is_relative : Bool
  pub aggregation : Aggregation

-- HIDCollectionSchema::NO_PARENT.
abbrev pub no_parent : ℕ
no_parent = 65535

-- The constructor of HIDReportItemValue: the other members have their initialisers.
unfoldable pub item_value : HidUsage → ℤ → ℤ → HidReportItemValue
item_value usage value raw_value = record {
  usage = usage;
  application_usage = no_usage;
  value = value;
  raw_value = raw_value;
  characteristic_handle = 0;
  field_id = 0;
  collection_id = no_parent;
  report_id = 0;
  is_relative = false;
  aggregation = passthrough;
}

-- A pointer to `length` bytes, which may be null.
pub data Payload : Type 0 where
  null : ℕ → Payload
  bytes : List ℕ → Payload
