-- ===== src/Tables.antt =====
-- components/ble_client_hid/usage_data.cpp and usages.h: the search and the table of pages of the HID
-- usage tables.
pub mod Search
pub mod Usages
pub mod Lookup
pub mod Rows
use Prim.Native.String.{String}
use esphome_ble_remote.Prelude.{
  ℕ, zero, suc, ◌+◌, ◌-◌, ◌/◌, Bool, true, false, ◌||◌, Option, none, some, List, [], ◌∷◌, ltb,
  ◌==◌, if◌then◌else◌, length, get_elem?,
}

pub record PageRecord : Type 0 where
  pub id : ℕ
  pub name : String
  pub first : ℕ
  pub count : ℕ

pub record UsageRecord : Type 0 where
  pub id : ℕ
  pub name : String
  pub kinds : String

abbrev pub row : ℕ → String → String → UsageRecord
row id name kinds = record { id = id; name = name; kinds = kinds }

abbrev page_record : ℕ → String → ℕ → ℕ → PageRecord
page_record id name first count = record { id = id; name = name; first = first; count = count }

abbrev pub pages : List PageRecord
pages =
    page_record 1 "Generic Desktop" 0 115
    ∷ page_record 2 "Simulation Controls" 115 51
    ∷ page_record 3 "VR Controls" 166 12
    ∷ page_record 4 "Sport Controls" 178 34
    ∷ page_record 5 "Game Controls" 212 29
    ∷ page_record 6 "Generic Device Controls" 241 24
    ∷ page_record 7 "Keyboard/Keypad" 265 218
    ∷ page_record 8 "LED" 483 96
    ∷ page_record 9 "Button" 579 0
    ∷ page_record 10 "Ordinal" 579 0
    ∷ page_record 11 "Telephony Device" 579 99
    ∷ page_record 12 "Consumer" 678 454
    ∷ page_record 13 "Digitizers" 1132 108
    ∷ page_record 14 "Haptics" 1240 29
    ∷ page_record 15 "Physical Input Device" 1269 105
    ∷ page_record 17 "SoC" 1374 10
    ∷ page_record 18 "Eye and Head Trackers" 1384 34
    ∷ page_record 20 "Auxiliary Display" 1418 75
    ∷ page_record 32 "Sensors" 1493 673
    ∷ page_record 64 "Medical Instrument" 2166 29
    ∷ page_record 65 "Braille Display" 2195 43
    ∷ page_record 89 "Lighting And Illumination" 2238 33
    ∷ page_record 128 "Monitor" 2271 4
    ∷ page_record 129 "Monitor Enumerated" 2275 0
    ∷ page_record 130 "VESA Virtual Controls" 2275 45
    ∷ page_record 132 "Power" 2320 77
    ∷ page_record 133 "Battery System" 2397 91
    ∷ page_record 140 "Barcode Scanner" 2488 194
    ∷ page_record 141 "Scales" 2682 46
    ∷ page_record 142 "Magnetic Stripe Reader" 2728 10
    ∷ page_record 144 "Camera Control" 2738 2
    ∷ page_record 145 "Arcade" 2740 27
    ∷ page_record 61904 "FIDO Alliance" 2767 3
    ∷ []

-- A round of the loop looks at the middle of the entries from `begin` to `end`, which are indices
-- into the table here; the rounds are bounded by `fuel`.
unfoldable pub binary_find_from {ℓ} : {A : Type ℓ} → ℕ → List A → (A → ℕ) → ℕ → ℕ → ℕ → Option A
binary_find_from zero table get_id id begin end = none
binary_find_from (suc fuel) table get_id id begin end = elim (ltb begin end) [
  | false ↦ none
  | true ↦
      let middle = begin + (end - begin) / 2 in
      elim (get_elem? table middle) [
        | none ↦ none
        | some entry ↦ elim (ltb (get_id entry) id) [
          | true ↦ binary_find_from fuel table get_id id (middle + 1) end
          | false ↦ elim (ltb id (get_id entry)) [
            | true ↦ binary_find_from fuel table get_id id begin middle
            | false ↦ some entry
          ]
        ]
      ]
]

-- Each round leaves fewer entries, so their number is enough fuel.
unfoldable pub binary_find {ℓ} : {A : Type ℓ} → List A → (A → ℕ) → ℕ → ℕ → ℕ → Option A
binary_find table get_id id begin end =
    binary_find_from (suc (end - begin)) table get_id id begin end

unfoldable pub find_page : ℕ → Option PageRecord
unfolding binary_find
find_page page = binary_find pages (λ entry. entry.id) page 0 (length pages)

unfoldable pub lookup_usage_page_name : ℕ → Option String
unfolding find_page
lookup_usage_page_name page = elim (find_page page) [ none ↦ none | some entry ↦ some entry.name ]
