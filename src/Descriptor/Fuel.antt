-- ===== src/Descriptor/Fuel.antt =====
-- Every round of the loop keeps the invariant, and the loop ends within its fuel.
use esphome_ble_remote.Prelude.{
  ℕ, zero, suc, ◌+◌, ◌<◌, inl, inr, List, [], ◌∷◌, arith, length, length-drop, drop, Bool-cases,
  ltb, ◌==◌,
}
use esphome_ble_remote.Schema.ReportMap.{new_report_map}
use esphome_ble_remote.Item.{hid_item_data_size}
use esphome_ble_remote.Descriptor.State.{
  Parser, Result, ok, fail, fuel_out, ◌>>=◌, ItemTag, Item, item_tag,
}
use esphome_ble_remote.Descriptor.Items.{
  on_logical_minimum, on_logical_maximum, on_physical_minimum, on_physical_maximum,
  on_unit_exponent, on_usage_minimum, on_usage_maximum,
}
use esphome_ble_remote.Descriptor.Parse.{
  dispatch, long_item, short_item, parse_item, parse_items, initial_parser,
}
use esphome_ble_remote.Descriptor.Preserve.{
  Inv, Ensures, with_global-Inv, with_local-Inv, on_usage_page-Inv, on_report_id-Inv, on_push-Inv,
  on_pop-Inv, on_usage-Inv, on_delimiter-Inv, noted-Inv, on_unknown-Inv, on_collection-Inv,
  on_end_collection-Inv,
}
use esphome_ble_remote.Descriptor.Fields.{on_main_item-Inv}

dispatch-Inv : (t : ItemTag) (i : Item) (s : Parser) → Inv s → Ensures Inv (dispatch t i s)
unfolding dispatch on_logical_minimum on_logical_maximum on_physical_minimum on_physical_maximum
    on_unit_exponent on_usage_minimum on_usage_maximum
dispatch-Inv ItemTag.usage_page i s v = on_usage_page-Inv i s v
dispatch-Inv ItemTag.logical_minimum i s v = with_global-Inv s _ v
dispatch-Inv ItemTag.logical_maximum i s v = with_global-Inv s _ v
dispatch-Inv ItemTag.physical_minimum i s v = with_global-Inv s _ v
dispatch-Inv ItemTag.physical_maximum i s v = with_global-Inv s _ v
dispatch-Inv ItemTag.unit_exponent i s v = with_global-Inv s _ v
dispatch-Inv ItemTag.unit i s v = with_global-Inv s _ v
dispatch-Inv ItemTag.report_size i s v = with_global-Inv s _ v
dispatch-Inv ItemTag.report_count i s v = with_global-Inv s _ v
dispatch-Inv ItemTag.report_id i s v = on_report_id-Inv i s v
dispatch-Inv ItemTag.push i s v = on_push-Inv i s v
dispatch-Inv ItemTag.pop i s v = on_pop-Inv i s v
dispatch-Inv ItemTag.usage i s v = on_usage-Inv i s v
dispatch-Inv ItemTag.delimiter i s v = on_delimiter-Inv i s v
dispatch-Inv ItemTag.collection i s v = on_collection-Inv i s v
dispatch-Inv ItemTag.end_collection i s v = on_end_collection-Inv i s v
dispatch-Inv (ItemTag.main_item kind) i s v = on_main_item-Inv kind i s v
dispatch-Inv ItemTag.unknown i s v = on_unknown-Inv i s v
dispatch-Inv _ i s v = with_local-Inv s _ v.set_known v

abbrev Next : ℕ × Parser → Type 0
Next r = Inv r.1

long_item-Inv :
    (offset : ℕ) (rest : List ℕ) (s : Parser) → Inv s → Ensures Next (long_item offset rest s)
unfolding long_item
long_item-Inv offset [] s v = tt
long_item-Inv offset (a ∷ []) s v = tt
long_item-Inv offset (size ∷ tag ∷ rest) s v = elim (Bool-cases (ltb (length rest) size)) [
  | inl h ↦ rw h tt
  | inr h ↦ rw h (noted-Inv s offset _ v)
]

Ensures-pair :
    (size : ℕ) (r : Result Parser) → Ensures Inv r → Ensures Next (r >>= λ s'. ok (size, s'))
Ensures-pair size (ok s') h = h
Ensures-pair size (fail at e) h = tt
Ensures-pair size fuel_out h = h

short_item-Inv :
    (offset prefix : ℕ) (rest : List ℕ) (s : Parser)
    → Inv s
    → Ensures Next (short_item offset prefix rest s)
unfolding short_item
short_item-Inv offset prefix rest s v =
    elim (Bool-cases (ltb (length rest) (hid_item_data_size prefix))) [
      | inl h ↦ rw h tt
      | inr h ↦
          rw h (Ensures-pair (hid_item_data_size prefix) _ (dispatch-Inv (item_tag prefix) _ s v))
    ]

parse_item-Inv :
    (offset prefix : ℕ) (rest : List ℕ) (s : Parser)
    → Inv s
    → Ensures Next (parse_item offset prefix rest s)
unfolding parse_item
parse_item-Inv offset prefix rest s v = elim (Bool-cases (prefix == 0xFE)) [
  | inl h ↦ rw h (long_item-Inv offset rest s v)
  | inr h ↦ rw h (short_item-Inv offset prefix rest s v)
]

-- With more fuel than there are bytes left, the loop ends, in a state that keeps the invariant or
-- by a failure.
pub parse_items-Inv :
    (fuel offset : ℕ) (rest : List ℕ) (s : Parser)
    → length rest < fuel
    → Inv s
    → Ensures Inv (parse_items fuel offset rest s)
unfolding parse_items
parse_items-Inv zero offset rest s h v = elim h [ ]
parse_items-Inv (suc fuel) offset [] s h v = v
parse_items-Inv (suc fuel) offset (prefix ∷ rest) s h v =
    continue (parse_item offset prefix rest s) (parse_item-Inv offset prefix rest s v)
      (λ taken s' v'.
        parse_items-Inv fuel (offset + 1 + taken) (drop taken rest) s'
          (omega (arith, length-drop {0} taken rest)) v')
  where
    continue :
        (r : Result (ℕ × Parser))
        → Ensures Next r
        → ((taken : ℕ) (s' : Parser)
            → Inv s'
            → Ensures Inv (parse_items fuel (offset + 1 + taken) (drop taken rest) s'))
        → Ensures Inv (elim r [
          | ok (taken, s') ↦ parse_items fuel (offset + 1 + taken) (drop taken rest) s'
          | fail at e ↦ fail at e
          | fuel_out ↦ fuel_out
        ])
    continue (ok (taken, s')) n k = k taken s' n
    continue (fail at e) n k = tt
    continue fuel_out n k = n

pub initial_parser-Inv : Inv initial_parser
unfolding new_report_map
initial_parser-Inv = ground arith
