-- ===== src/Tables/Lookup.antt =====
-- The look-ups in the HID usage tables (components/ble_client_hid/usage_data.cpp and usages.h).
use Prim.Native.String.{String}
use esphome_ble_remote.Prelude.{ℕ, ◌+◌, Option, none, some, ◌==◌, if◌then◌else◌}
use esphome_ble_remote.Tables.{UsageRecord, binary_find, find_page}
use esphome_ble_remote.Tables.Usages.{usages}

-- The look-up that `lookup_usage_name` and `lookup_usage_kinds` begin with.
unfoldable pub find_usage : ℕ → ℕ → Option UsageRecord
unfolding binary_find
find_usage page usage = elim (find_page page) [
  | none ↦ none
  | some entry ↦
      if entry.count == 0
      then none
      else binary_find usages (λ value. value.id) usage entry.first (entry.first + entry.count)
]

unfoldable pub lookup_usage_name : ℕ → ℕ → Option String
lookup_usage_name page usage = elim (find_usage page usage) [
  | none ↦ none
  | some entry ↦ some entry.name
]

abbrev pub no_empty : String → Option String
no_empty String.[] = none
no_empty (String.◌∷◌ c s) = some (String.◌∷◌ c s)

unfoldable pub lookup_usage_kinds : ℕ → ℕ → Option String
lookup_usage_kinds page usage = elim (find_usage page usage) [
  | none ↦ none
  | some entry ↦ no_empty entry.kinds
]
