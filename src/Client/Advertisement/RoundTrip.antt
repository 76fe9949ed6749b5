-- ===== src/Client/Advertisement/RoundTrip.antt =====
-- The elements of an advertisement, written and walked
-- (components/ble_client_hid/ble_client_hid.cpp).
use esphome_ble_remote.Prelude.{
  ℕ, zero, suc, ◌+◌, ◌-◌, ◌≤◌, ◌≡◌, refl, ap, List, [], ◌∷◌, ◌++◌, map, arith, length, take, drop,
  ltb, ◌==◌, false, length-append,
}
use esphome_ble_remote.Client.Advertisement.{
  log_field, log_elements_from, log_advertisement_elements,
}

-- An element as the Bluetooth Core Specification lays it out: a size, a type and a value.
pub record Element : Type 0 where
  pub type : ℕ
  pub value : List ℕ

unfoldable pub encode : List Element → List ℕ
encode [] = []
encode (e ∷ es) = suc (length e.value) ∷ e.type ∷ e.value ++ encode es

take-append : (xs ys : List ℕ) → take (length xs) (xs ++ ys) ≡ xs
take-append [] ys = refl
take-append (x ∷ xs) ys = ap (λ l. x ∷ l) (take-append xs ys)

drop-append : (xs ys : List ℕ) → drop (length xs) (xs ++ ys) ≡ ys
drop-append [] ys = refl
drop-append (x ∷ xs) ys = drop-append xs ys

log_elements_from-encode :
    (fuel offset : ℕ) (es : List Element)
    → length (encode es) ≤ fuel
    → log_elements_from fuel offset (encode es) ≡ map (λ e. log_field e.type e.value) es
unfolding encode log_elements_from
log_elements_from-encode zero offset [] h = refl
log_elements_from-encode (suc fuel) offset [] h = refl
log_elements_from-encode zero offset (e ∷ es) h = absurd (omega (arith, h))
log_elements_from-encode (suc fuel) offset (e ∷ es) h =
    let more = length-append e.value (encode es) in
    let size : (suc (length e.value)) - 1 ≡ length e.value = omega arith in
    let some_size : ((suc (length e.value)) == 0) ≡ false = ground arith in
    let enough : ltb (suc (length (e.value ++ encode es))) (suc (length e.value)) ≡ false =
      ground (arith, more) in
    rw
      (
        log_elements_from,
        some_size,
        enough,
        size,
        take-append e.value (encode es),
        drop-append e.value (encode es),
      )
      (ap (λ l. log_field e.type e.value ∷ l)
        (log_elements_from-encode fuel (offset + 1 + (suc (length e.value))) es
          (omega (arith, h, more))))

-- The walk over any sequence of elements that is encoded with its sizes logs each of them, with its
-- type and value, in order, and nothing else.
pub log_advertisement_elements-encode :
    (es : List Element)
    → log_advertisement_elements (encode es) ≡ map (λ e. log_field e.type e.value) es
unfolding log_advertisement_elements
log_advertisement_elements-encode es =
    log_elements_from-encode (length (encode es)) 0 es (omega arith)
