-- ===== src/Client/Advertisement.antt =====
-- Advertisements (parse_device, process_pending_advertisement_, log_advertisement_elements_ of
-- components/ble_client_hid/ble_client_hid.cpp).
pub mod RoundTrip
use esphome_ble_remote.Prelude.{
  ℕ, zero, suc, ◌+◌, ◌-◌, Bool, true, false, ◌&&◌, ◌||◌, not, List, [], ◌∷◌, ◌++◌, ltb, ◌==◌,
  if◌then◌else◌, length, take, drop,
}
use esphome_ble_remote.Prelude.Words.{u8}
use esphome_ble_remote.Prelude.Text.{Text}
use esphome_ble_remote.Client.Names.{ad_type_name, printable_text}

-- What is logged of one element, and of one that is cut off.
pub data AdvertisementField : Type 0 where
  field : ℕ → List ℕ → AdvertisementField
  text_field : ℕ → List ℕ → Text → AdvertisementField
  truncated : ℕ → ℕ → ℕ → AdvertisementField

unfoldable pub log_field : ℕ → List ℕ → AdvertisementField
unfolding printable_text
log_field type value =
    if type == 0x08 || type == 0x09
    then text_field type value (printable_text value)
    else field type value

-- The loop on the bytes from `offset` on. Each element takes a byte at least, so the number of the
-- bytes is enough fuel.
unfoldable pub log_elements_from : ℕ → ℕ → List ℕ → List AdvertisementField
unfolding log_field
log_elements_from zero offset rest = []
log_elements_from (suc fuel) offset [] = []
log_elements_from (suc fuel) offset (size ∷ rest) = elim (size == 0) [
  | true ↦ []
  | false ↦ elim (ltb (length rest) size) [
    | true ↦ truncated offset size (length rest) ∷ []
    | false ↦ elim rest [
      | [] ↦ []
      | type ∷ more ↦
          log_field type (take (size - 1) more)
          ∷ log_elements_from fuel (offset + 1 + size) (drop (size - 1) more)
    ]
  ]
]

unfoldable pub log_advertisement_elements : List ℕ → List AdvertisementField
unfolding log_elements_from
log_advertisement_elements bs = log_elements_from (length bs) 0 bs

-- An advertisement from the scanner. `own` is the comparison of the addresses.
pub record ScanResult : Type 0 where
  pub own : Bool
  pub adv : List ℕ
  pub scan_rsp : List ℕ
  pub ble_addr_type : ℕ
  pub rssi : ℕ

pub record PendingAdvertisement : Type 0 where
  pub bytes : List ℕ
  pub advertisement_length : ℕ
  pub scan_response_length : ℕ
  pub address_type : ℕ
  pub rssi : ℕ
  pub available : Bool

pub record Advertisements : Type 0 where
  pub pending : PendingAdvertisement
  pub last : List ℕ

unfoldable pub bytes_eq : List ℕ → List ℕ → Bool
bytes_eq [] [] = true
bytes_eq [] (y ∷ ys) = false
bytes_eq (x ∷ xs) [] = false
bytes_eq (x ∷ xs) (y ∷ ys) = x == y && bytes_eq xs ys

-- `capacity` is the size of the arrays; the bytes beyond a length are not looked at.
unfoldable pub parse_device : ℕ → ScanResult → Advertisements → Advertisements
unfolding bytes_eq
parse_device capacity scan a =
    let all = scan.adv ++ scan.scan_rsp in
    if not scan.own
    then a
    else if ltb capacity (length all)
    then a
    else if bytes_eq all a.last
    then a
    else record {
      pending = record {
        bytes = all;
        advertisement_length = length scan.adv;
        scan_response_length = length scan.scan_rsp;
        address_type = scan.ble_addr_type;
        rssi = scan.rssi;
        available = true;
      };
      last = all;
    }

-- What is logged of the advertisement and of the scan response.
unfoldable pub process_pending_advertisement :
    Advertisements → Advertisements × List AdvertisementField
unfolding log_advertisement_elements
process_pending_advertisement a =
    let p = a.pending in
    if p.available
    then (
      record a { pending = record p { available = false } },
      log_advertisement_elements (take p.advertisement_length p.bytes)
          ++ log_advertisement_elements
              (take p.scan_response_length (drop p.advertisement_length p.bytes)),
    )
    else (a, [])
