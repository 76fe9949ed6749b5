-- ===== src/Boot/Mouse.antt =====
-- The values of boot mouse reports, heard by a listener
-- (components/ble_client_hid/boot_report_decoder.cpp).
use esphome_ble_remote.Prelude.{
  ℕ, zero, suc, ◌+◌, ◌<◌, ◌≤◌, ◌≡◌, refl, sym, ap, ◌∙◌, Bool, false, List, [], ◌∷◌, ◌++◌, arith,
  length, get_or, ltb, ◌==◌, Bool-cases, inl, inr, if◌then◌else◌,
}
use esphome_ble_remote.Prelude.Int.{ℤ, pos, eqb_ℤ}
use esphome_ble_remote.Prelude.Words.{test_bit}
use esphome_ble_remote.Schema.Usage.{HidReportItemValue, item_value, bytes, HidReportSource}
use esphome_ble_remote.Boot.{
  HidBootReportDecoder, boot_mouse_input_uuid, reset, button_value, button_loop, movement, int8,
  mouse_values, decode_mouse, decode, update,
}
use esphome_ble_remote.Boot.Replay.{Listener, replay, replay-append}
use esphome_ble_remote.Boot.Keys.{decode_reports, silent}

abbrev pub button_field : ℕ → ℕ
button_field bit = 0xF000 + bit

-- The values of a field, in their order.
unfoldable pub of_field : ℕ → List HidReportItemValue → List ℤ
of_field field_id [] = []
of_field field_id (v ∷ values) =
    if v.field_id == field_id then v.value ∷ of_field field_id values else of_field field_id values

of_field-append :
    (field_id : ℕ) (vs ws : List HidReportItemValue)
    → of_field field_id (vs ++ ws) ≡ of_field field_id vs ++ of_field field_id ws
unfolding of_field
of_field-append field_id [] ws = refl
of_field-append field_id (v ∷ vs) ws = elim (Bool-cases (v.field_id == field_id)) [
  | inl same ↦ rw same (ap (λ l. v.value ∷ l) (of_field-append field_id vs ws))
  | inr other ↦ rw other (of_field-append field_id vs ws)
]

abbrev pub if_moved : ℤ → List ℤ
if_moved delta = if eqb_ℤ delta (pos 0) then [] else delta ∷ []

-- A button after the loop over the buttons.
replay-button_loop :
    (previous buttons j : ℕ) (heard : Listener)
    → j < 3
    → heard (button_field j) (j + 1) ≡ test_bit previous j
    → replay (button_loop 3 0 previous buttons) heard (button_field j) (j + 1) ≡ test_bit buttons j
unfolding button_loop button_value item_value replay
replay-button_loop previous buttons zero heard lt h = ground (arith, h)
replay-button_loop previous buttons (suc zero) heard lt h = ground (arith, h)
replay-button_loop previous buttons (suc (suc zero)) heard lt h = ground (arith, h)
replay-button_loop previous buttons (suc (suc (suc j))) heard lt h = absurd (omega (arith, lt))

-- A movement says nothing of a button.
replay-movement :
    (usage field_id : ℕ) (delta : ℤ) (j : ℕ) (heard : Listener)
    → 0xF010 ≤ field_id
    → j < 3
    → replay (movement usage field_id delta) heard (button_field j) (j + 1)
      ≡ heard (button_field j) (j + 1)
unfolding movement item_value replay
replay-movement usage field_id delta j heard h lt = elim (Bool-cases (eqb_ℤ delta (pos 0))) [
  | inl still ↦ rw still refl
  | inr moved ↦ rw moved (ground (arith, h, lt))
]

-- A button after a report of three bytes or more.
replay-mouse_values :
    (previous : ℕ) (bs : List ℕ) (j : ℕ) (heard : Listener)
    → j < 3
    → heard (button_field j) (j + 1) ≡ test_bit previous j
    → replay (mouse_values previous bs) heard (button_field j) (j + 1) ≡ test_bit (get_or bs 0 0) j
unfolding mouse_values
replay-mouse_values previous bs j heard lt h =
    let buttons = button_loop 3 0 previous (get_or bs 0 0) in
    let x = movement 0x30 0xF010 (int8 (get_or bs 1 0)) in
    let y = movement 0x31 0xF011 (int8 (get_or bs 2 0)) in
    let after = replay buttons heard in
    ap (λ l. l (button_field j) (j + 1)) (replay-append buttons (x ++ y) heard)
    ∙ ap (λ l. l (button_field j) (j + 1)) (replay-append x y after)
    ∙ replay-movement 0x31 0xF011 (int8 (get_or bs 2 0)) j (replay x after) (omega arith) lt
    ∙ replay-movement 0x30 0xF010 (int8 (get_or bs 1 0)) j after (omega arith) lt
    ∙ replay-button_loop previous (get_or bs 0 0) j heard lt h

-- The movements of a report.
of_field-mouse_values :
    (previous : ℕ) (bs : List ℕ)
    → (of_field 0xF010 (mouse_values previous bs) ≡ if_moved (int8 (get_or bs 1 0)))
      × (of_field 0xF011 (mouse_values previous bs) ≡ if_moved (int8 (get_or bs 2 0)))
unfolding mouse_values button_loop button_value item_value movement of_field
of_field-mouse_values previous bs = (ground arith, ground arith)

-- What the last report of three bytes or more says of a button; `before` where there is none.
unfoldable pub last_button : ℕ → Bool → List (List ℕ) → Bool
last_button j before [] = before
last_button j before (bs ∷ reports) =
    last_button j (if ltb (length bs) 3 then before else test_bit (get_or bs 0 0) j) reports

-- The movements that the reports of three bytes or more say in byte `i`.
unfoldable pub moves : ℕ → List (List ℕ) → List ℤ
moves i [] = []
moves i (bs ∷ reports) =
    if ltb (length bs) 3
    then moves i reports
    else if_moved (int8 (get_or bs i 0)) ++ moves i reports

decode-mouse :
    (d : HidBootReportDecoder) (source : HidReportSource) (bs : List ℕ)
    → source.characteristic_uuid ≡ boot_mouse_input_uuid
    → decode d source (bytes bs) ≡ decode_mouse d source.characteristic_handle bs
unfolding decode
decode-mouse d source bs e = rw e refl

module _ (source : HidReportSource) (e : source.characteristic_uuid ≡ boot_mouse_input_uuid) where
  buttons_lem :
      (d : HidBootReportDecoder) (reports : List (List ℕ)) (j : ℕ) (heard : Listener)
      → j < 3
      → heard (button_field j) (j + 1) ≡ test_bit (d.mouse_buttons source.characteristic_handle) j
      → replay (decode_reports d source reports) heard (button_field j) (j + 1)
        ≡ last_button j (heard (button_field j) (j + 1)) reports
  unfolding decode_reports last_button replay decode_mouse
  buttons_lem d [] j heard lt h = refl
  buttons_lem d (bs ∷ reports) j heard lt h =
      let handle = source.characteristic_handle in
      rw (decode-mouse d source bs e) (elim (Bool-cases (ltb (length bs) 3)) [
        | inl short_report ↦ rw short_report (buttons_lem d reports j heard lt h)
        | inr long_report ↦
            let values = mouse_values (d.mouse_buttons handle) bs in
            let after = record d {
              mouse_buttons = update d.mouse_buttons handle (get_or bs 0 0);
            } in
            let rest = decode_reports after source reports in
            let now = replay-mouse_values (d.mouse_buttons handle) bs j heard lt h in
            let kept : after.mouse_buttons handle ≡ get_or bs 0 0 = ground arith in
            rw long_report (
              ap (λ l. l (button_field j) (j + 1)) (replay-append values rest heard)
              ∙ buttons_lem after reports j (replay values heard) lt
                  (now ∙ ap (λ b. test_bit b j) (sym kept))
              ∙ ap (λ b. last_button j b reports) now)
      ])

  moves_lem :
      (d : HidBootReportDecoder) (reports : List (List ℕ))
      → (of_field 0xF010 (decode_reports d source reports) ≡ moves 1 reports)
        × (of_field 0xF011 (decode_reports d source reports) ≡ moves 2 reports)
  unfolding decode_reports moves of_field decode_mouse
  moves_lem d [] = (refl, refl)
  moves_lem d (bs ∷ reports) =
      rw (decode-mouse d source bs e) (elim (Bool-cases (ltb (length bs) 3)) [
        | inl short_report ↦ rw short_report (moves_lem d reports)
        | inr long_report ↦
            let handle = source.characteristic_handle in
            let values = mouse_values (d.mouse_buttons handle) bs in
            let (x, y) = of_field-mouse_values (d.mouse_buttons handle) bs in
            let after = record d {
              mouse_buttons = update d.mouse_buttons handle (get_or bs 0 0);
            } in
            let rest = decode_reports after source reports in
            let (xs, ys) = moves_lem after reports in
            rw long_report (
              of_field-append 0xF010 values rest
                  ∙ ap (λ l. l ++ of_field 0xF010 rest) x
                  ∙ ap (λ l. if_moved (int8 (get_or bs 1 0)) ++ l) xs,
              of_field-append 0xF011 values rest
                  ∙ ap (λ l. l ++ of_field 0xF011 rest) y
                  ∙ ap (λ l. if_moved (int8 (get_or bs 2 0)) ++ l) ys,
            )
      ])

-- From a fresh decoder, the values of any sequence of boot mouse reports of one handle leave a
-- listener, who hears nothing at first, with each of the three buttons down exactly where the last
-- report of three bytes or more says so; and the values of the two axes are, in their order, the
-- signed second and third bytes of those reports where they are not 0.
pub replay-mouse_reports :
    (source : HidReportSource) (reports : List (List ℕ)) (j : ℕ)
    → source.characteristic_uuid ≡ boot_mouse_input_uuid
    → j < 3
    → (replay (decode_reports reset source reports) silent (button_field j) (j + 1)
        ≡ last_button j false reports)
      × (of_field 0xF010 (decode_reports reset source reports) ≡ moves 1 reports)
      × (of_field 0xF011 (decode_reports reset source reports) ≡ moves 2 reports)
unfolding reset
replay-mouse_reports source reports j e lt =
    let (xs, ys) = moves_lem source e reset reports in
    (buttons_lem source e reset reports j silent lt (ground arith), xs, ys)
