-- ===== src/Descriptor/Framing.antt =====
-- The bytes of a descriptor as items (HIDReportMap::parse_report_map_data, hid_parser.cpp).
use esphome_ble_remote.Prelude.{
  ℕ, zero, suc, ◌+◌, ◌*◌, ◌<◌, ◌≡◌, refl, ap, ◌∙◌, false, List, [], ◌∷◌, ◌++◌, arith, length, drop,
  ltb, ◌==◌, length-append, All,
}
use esphome_ble_remote.Item.{hid_item_data_size, read_unsigned_item, read_bytes}
use esphome_ble_remote.Descriptor.State.{Parser, Result, ok, fail, fuel_out, ◌>>=◌, Item, item_tag}
use esphome_ble_remote.Descriptor.Parse.{dispatch, short_item, parse_item, parse_items}

-- A short item: its prefix and its payload.
pub record ShortItem : Type 0 where
  pub prefix : ℕ
  pub payload : List ℕ

-- The prefix is not that of a long item, and the payload has the size that it says.
pub record IsShort (item : ShortItem) : Type 0 where
  pub short : (item.prefix == 0xFE) ≡ false
  pub size : hid_item_data_size item.prefix ≡ length item.payload

unfoldable pub encode : List ShortItem → List ℕ
encode [] = []
encode (item ∷ items) = item.prefix ∷ (item.payload ++ encode items)

-- Bytes as a number, the lowest first.
unfoldable pub number : List ℕ → ℕ
number [] = 0
number (b ∷ bs) = b + 256 * number bs

-- The items one after the other, with their offsets, on the state of the parser.
unfoldable pub run : ℕ → List ShortItem → Parser → Result Parser
unfolding dispatch number
run offset [] s = ok s
run offset (item ∷ items) s =
    dispatch (item_tag item.prefix)
      (record {
        offset = offset;
        prefix = item.prefix;
        size = length item.payload;
        raw = number item.payload;
      })
      s
    >>= λ s'. run (offset + 1 + length item.payload) items s'

read_bytes-append :
    (payload rest : List ℕ) → read_bytes (length payload) (payload ++ rest) ≡ number payload
unfolding read_bytes number
read_bytes-append [] rest = refl
read_bytes-append (b ∷ payload) rest = omega (arith, read_bytes-append payload rest)

drop-append : (payload rest : List ℕ) → drop (length payload) (payload ++ rest) ≡ rest
drop-append [] rest = refl
drop-append (b ∷ payload) rest = drop-append payload rest

enough : (payload rest : List ℕ) → ltb (length (payload ++ rest)) (length payload) ≡ false
enough payload rest = ground (arith, length-append payload rest)

-- What a round of the loop makes of a dispatch.
abbrev next : ℕ → ℕ → ℕ → List ℕ → Result Parser → Result Parser
next fuel offset size rest (ok s) = parse_items fuel (offset + 1 + size) rest s
next fuel offset size rest (fail at e) = fail at e
next fuel offset size rest fuel_out = fuel_out

-- What the loop makes of the bytes that an item has taken, and the state.
abbrev taken_by : ℕ → ℕ → List ℕ → Result (ℕ × Parser) → Result Parser
taken_by fuel offset rest (ok (taken, s)) =
    parse_items fuel (offset + 1 + taken) (drop taken rest) s
taken_by fuel offset rest (fail at e) = fail at e
taken_by fuel offset rest fuel_out = fuel_out

loop_of :
    (fuel offset size : ℕ) (rest : List ℕ) (r : Result Parser)
    → taken_by fuel offset rest (r >>= λ s. ok (size, s)) ≡ next fuel offset size (drop size rest) r
loop_of fuel offset size rest (ok s) = refl
loop_of fuel offset size rest (fail at e) = refl
loop_of fuel offset size rest fuel_out = refl

next-bind :
    (fuel offset size : ℕ) (rest : List ℕ) (k : Parser → Result Parser) (r : Result Parser)
    → ((s : Parser) → parse_items fuel (offset + 1 + size) rest s ≡ k s)
    → next fuel offset size rest r ≡ (r >>= k)
next-bind fuel offset size rest k (ok s) same = same s
next-bind fuel offset size rest k (fail at e) same = refl
next-bind fuel offset size rest k fuel_out same = refl

abbrev item_at : ℕ → ShortItem → Item
item_at offset item = record {
  offset = offset;
  prefix = item.prefix;
  size = length item.payload;
  raw = number item.payload;
}

round_lem :
    (fuel offset : ℕ) (item : ShortItem) (rest : List ℕ) (s : Parser)
    → IsShort item
    → parse_items (suc fuel) offset (item.prefix ∷ (item.payload ++ rest)) s
      ≡ next fuel offset
          (length item.payload)
          rest
          (dispatch (item_tag item.prefix) (item_at offset item) s)
unfolding parse_items parse_item short_item read_unsigned_item
round_lem fuel offset item rest s is_short =
    rw
      (
        parse_items,
        is_short.short,
        is_short.size,
        enough item.payload rest,
        read_bytes-append item.payload rest,
      )
      (loop_of fuel offset (length item.payload) (item.payload ++ rest)
          (dispatch (item_tag item.prefix) (item_at offset item) s)
        ∙ ap
            (λ l.
              next fuel offset (length item.payload) l
                (dispatch (item_tag item.prefix) (item_at offset item) s))
            (drop-append item.payload rest))

-- On the bytes of short items, the parser's loop does what the items do one after the other, each
-- with its offset, its size and the number that its payload is, and stops at the first that fails:
-- the framing by prefix and size neither loses nor splits an item. It does so with fuel for one
-- round more than there are items.
pub parse_items-encode :
    (fuel offset : ℕ) (items : List ShortItem) (s : Parser)
    → All IsShort items
    → length items < fuel
    → parse_items fuel offset (encode items) s ≡ run offset items s
unfolding parse_items encode run
parse_items-encode zero offset items s short h = absurd (omega (arith, h))
parse_items-encode (suc fuel) offset [] s short h = refl
parse_items-encode (suc fuel) offset (item ∷ items) s short h =
    round_lem fuel offset item (encode items) s short.0
    ∙ next-bind fuel offset (length item.payload) (encode items)
        (λ s'. run (offset + 1 + length item.payload) items s')
        (dispatch (item_tag item.prefix) (item_at offset item) s)
        (λ s'.
          parse_items-encode fuel (offset + 1 + length item.payload) items s' short.1
            (omega (arith, h)))
