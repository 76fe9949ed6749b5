-- ===== src/Boot.antt =====
-- HIDBootReportDecoder (components/ble_client_hid/boot_report_decoder.h and .cpp): boot protocol
-- mouse and keyboard reports. A `std::map` from handles is a function; a handle that is not in the
-- map has the value that `map[handle]` would make. A `std::set` is its elements in ascending order.
pub mod Replay
pub mod Modifiers
pub mod Keys
pub mod Mouse
use esphome_ble_remote.Prelude.{
  ℕ, zero, suc, ◌+◌, ◌-◌, Bool, true, false, ◌&&◌, ◌||◌, not, eqb, List, [], ◌∷◌, ◌++◌, map, ltb,
  leb, ◌==◌, if◌then◌else◌, length, get_or, take, drop,
}
use esphome_ble_remote.Prelude.Int.{ℤ, pos, negsuc, eqb_ℤ}
use esphome_ble_remote.Prelude.Words.{test_bit, signed, u16}
use esphome_ble_remote.Schema.Usage.{
  HidUsage, HidReportItemValue, item_value, sum, Payload, null, bytes, HidReportSource,
  HidDecodeStatus, exact, long, short, boot_report, invalid_payload,
}

abbrev pub boot_keyboard_input_uuid : ℕ
boot_keyboard_input_uuid = 0x2A22

abbrev pub boot_mouse_input_uuid : ℕ
boot_mouse_input_uuid = 0x2A33

pub record HidBootReportDecoder : Type 0 where
  pub keyboard_modifiers : ℕ → List Bool
  pub keyboard_keys : ℕ → List ℕ
  pub mouse_buttons : ℕ → ℕ

-- `std::array<bool, 8>{}`.
abbrev pub no_modifiers : List Bool
no_modifiers = false ∷ false ∷ false ∷ false ∷ false ∷ false ∷ false ∷ false ∷ []

-- The decoder as constructed and after `reset`.
unfoldable pub reset : HidBootReportDecoder
reset = record {
  keyboard_modifiers = λ _. no_modifiers;
  keyboard_keys = λ _. [];
  mouse_buttons = λ _. 0;
}

abbrev pub update {ℓ} : {A : Type ℓ} → (ℕ → A) → ℕ → A → ℕ → A
update f handle a h = if h == handle then a else f h

abbrev bool_value : Bool → ℤ
bool_value true = pos 1
bool_value false = pos 0

abbrev mouse_application : HidUsage
mouse_application = record { usage = 0x02; page = 0x01 }

abbrev keyboard_application : HidUsage
keyboard_application = record { usage = 0x06; page = 0x01 }

unfoldable pub button_value : ℕ → Bool → HidReportItemValue
unfolding item_value
button_value bit active =
    record (item_value (record { usage = bit + 1; page = 0x09 }) (bool_value active)
      (bool_value active)) { field_id = 0xF000 + bit; application_usage = mouse_application }

-- The loop over the buttons, from `bit` on.
unfoldable pub button_loop : ℕ → ℕ → ℕ → ℕ → List HidReportItemValue
button_loop zero bit previous buttons = []
button_loop (suc rounds) bit previous buttons =
    let active = test_bit buttons bit in
    let rest = button_loop rounds (bit + 1) previous buttons in
    if eqb active (test_bit previous bit) then rest else button_value bit active ∷ rest

unfoldable pub movement : ℕ → ℕ → ℤ → List HidReportItemValue
unfolding item_value
movement usage field_id delta =
    if eqb_ℤ delta (pos 0)
    then []
    else record (item_value (record { usage = usage; page = 0x01 }) delta delta) {
      field_id = field_id;
      application_usage = mouse_application;
      is_relative = true;
      aggregation = sum;
    }
      ∷ []

-- `static_cast<int8_t>` of a byte.
abbrev pub int8 : ℕ → ℤ
int8 byte = signed 8 byte

unfoldable pub mouse_values : ℕ → List ℕ → List HidReportItemValue
unfolding button_loop movement
mouse_values previous bs =
    button_loop 3 0 previous (get_or bs 0 0)
    ++ (movement 0x30 0xF010 (int8 (get_or bs 1 0)) ++ movement 0x31 0xF011 (int8 (get_or bs 2 0)))

unfoldable pub modifier_value : ℕ → Bool → HidReportItemValue
unfolding item_value
modifier_value bit active =
    record (item_value (record { usage = u16 (0xE0 + bit); page = 0x07 }) (bool_value active)
      (bool_value active)) { field_id = 0xF100 + bit; application_usage = keyboard_application }

-- The loop over the modifiers, from `bit` on: the array's new rest and the values.
unfoldable pub modifier_loop : ℕ → List Bool → ℕ → List Bool × List HidReportItemValue
modifier_loop bit [] byte = ([], [])
modifier_loop bit (modifier ∷ modifiers) byte =
    let active = test_bit byte bit in
    let (rest, values) = modifier_loop (bit + 1) modifiers byte in
    (active ∷ rest, (if eqb modifier active then [] else modifier_value bit active ∷ []) ++ values)

-- `set::insert`.
unfoldable pub insert_key : ℕ → List ℕ → List ℕ
insert_key key [] = key ∷ []
insert_key key (k ∷ keys) =
    if ltb key k then key ∷ k ∷ keys else if key == k then k ∷ keys else k ∷ insert_key key keys

-- `set::count`.
unfoldable pub has_key : ℕ → List ℕ → Bool
has_key key [] = false
has_key key (k ∷ keys) = k == key || has_key key keys

-- The set of the keys in the slots `data[i]` on.
unfoldable pub collect_keys : List ℕ → List ℕ → List ℕ
unfolding insert_key
collect_keys [] current = current
collect_keys (key ∷ slots) current =
    collect_keys slots (if not (key == 0) && leb key 0xE7 then insert_key key current else current)

unfoldable pub key_value : ℕ → ℤ → ℤ → HidReportItemValue
unfolding item_value
key_value key value raw = record (item_value (record { usage = key; page = 0x07 }) value raw) {
  field_id = 0xF200;
  application_usage = keyboard_application;
}

-- The elements of the first set that are not in the second, in order.
unfoldable pub missing_from : List ℕ → List ℕ → List ℕ
unfolding has_key
missing_from others [] = []
missing_from others (key ∷ keys) =
    if has_key key others then missing_from others keys else key ∷ missing_from others keys

-- Presses in ascending order, then releases.
unfoldable pub key_values : List ℕ → List ℕ → List HidReportItemValue
key_values previous current =
    map (λ key. key_value key (pos 1) (pos key)) (missing_from previous current)
    ++ map (λ key. key_value key (pos 0) (pos 0)) (missing_from current previous)

-- The slots `data[2]` to `data[7]`.
abbrev pub key_slots : List ℕ → List ℕ
key_slots bs = take 6 (drop 2 bs)

unfoldable pub decode_mouse :
    HidBootReportDecoder
    → ℕ
    → List ℕ
    → HidBootReportDecoder × List HidReportItemValue × HidDecodeStatus
unfolding mouse_values
decode_mouse d handle bs = if ltb (length bs) 3 then (d, [], short) else (
  record d { mouse_buttons = update d.mouse_buttons handle (get_or bs 0 0) },
  mouse_values (d.mouse_buttons handle) bs,
  if length bs == 3 then exact else long,
)

unfoldable pub decode_keyboard :
    HidBootReportDecoder
    → ℕ
    → List ℕ
    → HidBootReportDecoder × List HidReportItemValue × HidDecodeStatus
decode_keyboard d handle bs =
    if ltb (length bs) 8
    then (d, [], short)
    else let (modifiers, values) = modifier_loop 0 (d.keyboard_modifiers handle) (get_or bs 0 0) in
      let current = collect_keys (key_slots bs) [] in
      (
        record d {
          keyboard_modifiers = update d.keyboard_modifiers handle modifiers;
          keyboard_keys = update d.keyboard_keys handle current;
        },
        values ++ key_values (d.keyboard_keys handle) current,
        if length bs == 8 then exact else long,
      )

-- A null pointer of length 0 points to no bytes.
abbrev pub bytes_of : Payload → List ℕ
bytes_of (null n) = []
bytes_of (bytes bs) = bs

abbrev pub is_null_data : Payload → Bool
is_null_data (null n) = not (n == 0)
is_null_data (bytes bs) = false

-- The status is written in every case; the call with a null `status` does nothing and is left out.
unfoldable pub decode :
    HidBootReportDecoder
    → HidReportSource
    → Payload
    → HidBootReportDecoder × List HidReportItemValue × HidDecodeStatus
decode d source payload =
    if is_null_data payload
    then (d, [], invalid_payload)
    else if source.characteristic_uuid == boot_mouse_input_uuid
    then decode_mouse d source.characteristic_handle (bytes_of payload)
    else if source.characteristic_uuid == boot_keyboard_input_uuid
    then decode_keyboard d source.characteristic_handle (bytes_of payload)
    else (d, [], boot_report)
