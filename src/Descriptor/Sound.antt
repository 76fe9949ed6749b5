-- ===== src/Descriptor/Sound.antt =====
-- What holds of every descriptor that is parsed.
use esphome_ble_remote.Prelude.{
  ℕ, suc, ◌<◌, ◌≡◌, ◌≢◌, inl, inr, true, false, ◌||◌, none, some, List, [], ◌∷◌, subst, arith,
  length, Bool-cases, ltb, ◌==◌,
}
use esphome_ble_remote.Schema.Usage.{Payload, null, bytes}
use esphome_ble_remote.Schema.ReportMap.{HidReportMap, add_diagnostic, max_descriptor_bytes}
use esphome_ble_remote.Descriptor.State.{Parser, Result, ok, fail, fuel_out}
use esphome_ble_remote.Descriptor.Parse.{
  parse_bytes, parse_report_map_data, finish, note_pushed, is_empty, initial_parser,
}
use esphome_ble_remote.Descriptor.Layout.{SchemaIsSound}
use esphome_ble_remote.Descriptor.Preserve.{Inv, Ensures}
use esphome_ble_remote.Descriptor.Fuel.{parse_items-Inv, initial_parser-Inv}

pub parse_bytes-Inv : (bs : List ℕ) → Ensures Inv (parse_bytes bs)
unfolding parse_bytes
parse_bytes-Inv bs =
    parse_items-Inv (suc (length bs)) 0 bs initial_parser (omega arith) initial_parser-Inv

-- The loop of the parser ends on every list of bytes: the fuel, one more than the bytes, is never
-- used up.
pub parse_bytes-ends : (bs : List ℕ) → parse_bytes bs ≢ fuel_out
parse_bytes-ends bs e = subst (Ensures Inv) e (parse_bytes-Inv bs)

pub record MapIsSound (m : HidReportMap) : Type 0 where
  pub schema : SchemaIsSound m.reports m.fields m.collections
  pub no_error : m.valid ≡ true
  pub some_report : 0 < length m.reports

nonempty {ℓ} : {A : Type ℓ} (xs : List A) → is_empty xs ≡ false → 0 < length xs
nonempty [] h = cc
nonempty (x ∷ xs) h = omega arith

note_pushed-MapIsSound :
    (n : ℕ) (s : Parser)
    → Inv s
    → is_empty (note_pushed n s).reports ≡ false
    → MapIsSound (note_pushed n s)
unfolding note_pushed add_diagnostic
note_pushed-MapIsSound n s v h = elim (Bool-cases (is_empty s.global_stack)) [
  | inl e ↦
      rw e (record { schema = v.schema; no_error = v.valid; some_report = nonempty _ (rw e at h) })
  | inr e ↦
      rw e (record { schema = v.schema; no_error = v.valid; some_report = nonempty _ (rw e at h) })
]

finish-MapIsSound :
    (n : ℕ) (s : Parser) (m : HidReportMap) → Inv s → finish n s ≡ some m → MapIsSound m
unfolding finish
finish-MapIsSound n s m v e = elim (Bool-cases (is_empty (note_pushed n s).reports)) [
  | inl h ↦ ground (arith, h)
  | inr h ↦ subst MapIsSound (ground arith) (note_pushed-MapIsSound n s v h)
]

parsed-MapIsSound :
    (n : ℕ) (m : HidReportMap) (r : Result Parser)
    → Ensures Inv r
    → (elim r [ ok s ↦ finish n s | fail offset e ↦ none | fuel_out ↦ none ]) ≡ some m
    → MapIsSound m
parsed-MapIsSound n m (ok s) v e = finish-MapIsSound n s m v e
parsed-MapIsSound n m (fail offset error) v e = cc
parsed-MapIsSound n m fuel_out v e = cc

-- A report map that the parser returns is sound: at most 64 reports, 512 fields and 128
-- collections; no two reports of one kind and id; each collection numbered by its position, with
-- its parent before it; each field numbered by its position, of 1 to 32 bits and 1 to 4096 values,
-- in a collection that exists or in none; the fields of each report side by side from bit 0 to the
-- report's size, which is at most 32768 bits; its flag `valid` set; and a report at all.
pub parse_report_map_data-MapIsSound :
    (p : Payload) (m : HidReportMap) → parse_report_map_data p ≡ some m → MapIsSound m
unfolding parse_report_map_data
parse_report_map_data-MapIsSound (null n) m e = cc
parse_report_map_data-MapIsSound (bytes bs) m e =
    elim (Bool-cases (length bs == 0 || ltb max_descriptor_bytes (length bs))) [
      | inl h ↦ cc (rw h at e)
      | inr h ↦ parsed-MapIsSound (length bs) m (parse_bytes bs) (parse_bytes-Inv bs) (rw h at e)
    ]
