-- ===== src/Descriptor/Items.antt =====
-- The cases of the switch in parse_report_map_data for global and local items (hid_parser.cpp).
use esphome_ble_remote.Prelude.{
  ℕ, ◌-◌, ◌/◌, true, false, not, List, [], ◌∷◌, ◌++◌, ltb, leb, ◌==◌, if◌then◌else◌, length,
}
use esphome_ble_remote.Prelude.Words.{u16}
use esphome_ble_remote.Item.{decode_signed_hid_item, signed_or_unsigned_max, decode_unit_exponent}
use esphome_ble_remote.Schema.Usage.{HidUsage}
use esphome_ble_remote.Schema.ReportMap.{max_global_stack_depth}
use esphome_ble_remote.Descriptor.State.{
  GlobalState, LocalState, Parser, push_usage, Result, ok, fail, fail_if, ◌>>◌, Item,
  usage_page_exceeds_16_bits, invalid_report_id, global_stack_limit_exceeded,
  global_pop_without_push, nested_delimiter, delimiter_close_without_open, invalid_delimiter_value,
}

-- A four-byte item carries its own page.
unfoldable pub decode_usage : ℕ → ℕ → ℕ → HidUsage
decode_usage raw size current_page =
    if size == 4
    then record { usage = u16 raw; page = u16 (raw / 65536) }
    else record { usage = u16 raw; page = current_page }

abbrev pub with_global : Parser → GlobalState → Parser
with_global s g = record s { global = g }

abbrev pub with_local : Parser → LocalState → Parser
with_local s l = record s { local = l }

unfoldable pub on_usage_page : Item → Parser → Result Parser
on_usage_page i s = do
  fail_if (ltb 65535 i.raw) i.offset usage_page_exceeds_16_bits
  ok (with_global s (record (s.global) { usage_page = i.raw }))

unfoldable pub on_logical_minimum : Item → Parser → Parser
on_logical_minimum i s =
    with_global s (record g {
      logical = record (g.logical) { minimum = decode_signed_hid_item i.raw i.prefix };
    })
  where
    open s use {global as g}

unfoldable pub on_logical_maximum : Item → Parser → Parser
on_logical_maximum i s = with_global s (record g {
  logical = record (g.logical) {
    maximum = signed_or_unsigned_max i.raw i.prefix g.logical.minimum;
  };
})
  where
    open s use {global as g}

unfoldable pub on_physical_minimum : Item → Parser → Parser
on_physical_minimum i s = with_global s (record g {
  physical = record (g.physical) { minimum = decode_signed_hid_item i.raw i.prefix };
})
  where
    open s use {global as g}

unfoldable pub on_physical_maximum : Item → Parser → Parser
on_physical_maximum i s = with_global s (record g {
  physical = record (g.physical) {
    maximum = signed_or_unsigned_max i.raw i.prefix g.physical.minimum;
  };
})
  where
    open s use {global as g}

unfoldable pub on_unit_exponent : Item → Parser → Parser
on_unit_exponent i s =
    with_global s (record (s.global) { unit_exponent = decode_unit_exponent i.raw i.size })

unfoldable pub on_report_id : Item → Parser → Result Parser
on_report_id i s = do
  fail_if (i.raw == 0) i.offset invalid_report_id
  fail_if (ltb 255 i.raw) i.offset invalid_report_id
  ok (record s {
    global = record (s.global) { report_id = i.raw };
    report_map = record (s.report_map) { uses_report_ids = true };
  })

unfoldable pub on_push : Item → Parser → Result Parser
on_push i s = do
  fail_if (leb max_global_stack_depth (length s.global_stack)) i.offset global_stack_limit_exceeded
  ok (record s { global_stack = s.global ∷ s.global_stack })

pub pop_global : List GlobalState → Item → Parser → Result Parser
pop_global [] i s = fail i.offset global_pop_without_push
pop_global (g ∷ rest) i s = ok (record s { global = g; global_stack = rest })

unfoldable pub on_pop : Item → Parser → Result Parser
unfolding pop_global
on_pop i s = pop_global s.global_stack i s

unfoldable pub on_usage : Item → Parser → Parser
unfolding push_usage decode_usage
on_usage i s = with_local s (push_usage (decode_usage i.raw i.size s.global.usage_page) s.local)

unfoldable pub on_usage_minimum : Item → Parser → Parser
unfolding decode_usage
on_usage_minimum i s = with_local s (record (s.local) {
  usage_minimum = decode_usage i.raw i.size s.global.usage_page;
  has_usage_minimum = true;
})

unfoldable pub on_usage_maximum : Item → Parser → Parser
unfolding decode_usage
on_usage_maximum i s = with_local s (record (s.local) {
  usage_maximum = decode_usage i.raw i.size s.global.usage_page;
  has_usage_maximum = true;
})

open_delimiter : Item → Parser → Result Parser
open_delimiter i s = do
  fail_if s.local.delimiter_open i.offset nested_delimiter
  ok (
      with_local s (record (s.local) {
        delimiter_open = true;
        usage_sets = s.local.usage_sets ++ [] ∷ [];
        active_usage_set = length (s.local.usage_sets ++ [] ∷ []) - 1;
      }))

close_delimiter : Item → Parser → Result Parser
close_delimiter i s = do
  fail_if (not s.local.delimiter_open) i.offset delimiter_close_without_open
  ok (with_local s (record (s.local) { delimiter_open = false; active_usage_set = 0 }))

-- A delimiter opens a new set of usages, or closes it and returns to set 0.
unfoldable pub on_delimiter : Item → Parser → Result Parser
unfolding open_delimiter close_delimiter
on_delimiter i s =
    if i.raw == 1
    then open_delimiter i s
    else if i.raw == 0
    then close_delimiter i s
    else fail i.offset invalid_delimiter_value
