-- ===== src/Tables/Search.antt =====
-- binary_find of components/ble_client_hid/usage_data.cpp on a table in ascending order.
use esphome_ble_remote.Prelude.{
  ℕ, zero, suc, ◌+◌, ◌-◌, ◌/◌, ◌≤◌, ◌<◌, ◌≡◌, ◌↔◌, sym, ap, ◌∙◌, true, some, List, [], ◌∷◌, arith,
  ltb, ◌==◌, inl, inr, length, get_elem?, Bool-cases, Option-cases, ==_iff, get_elem?-some,
  eq_of_some, All, All-get, subst,
}
use esphome_ble_remote.Tables.{binary_find_from, binary_find}

-- The ids of a table go up.
unfoldable pub Ascending {ℓ} : {A : Type ℓ} → (A → ℕ) → List A → Type 0
Ascending get_id [] = Unit
Ascending get_id (x ∷ xs) = All (λ y. get_id x < get_id y) xs × Ascending get_id xs

module _ {ℓ} {A : Type ℓ} where
  -- The entry is at an index of the range and has the id.
  abbrev pub IsAt : List A → (A → ℕ) → ℕ → ℕ → ℕ → A → ℕ → Type ℓ
  IsAt table get_id id begin end entry i =
      (begin ≤ i) × (i < end) × (get_elem? table i ≡ some entry) × (get_id entry ≡ id)

  -- The ids of a range go up.
  abbrev pub AscendsIn : List A → (A → ℕ) → ℕ → ℕ → Type ℓ
  AscendsIn table get_id begin end =
      (i j : ℕ) (x y : A)
      → begin ≤ i
      → i < j
      → j < end
      → get_elem? table i ≡ some x
      → get_elem? table j ≡ some y
      → get_id x < get_id y

  pub Ascending-lt :
      (get_id : A → ℕ) (table : List A) (i j : ℕ) {x y : A}
      → Ascending get_id table
      → i < j
      → get_elem? table i ≡ some x
      → get_elem? table j ≡ some y
      → get_id x < get_id y
  unfolding Ascending
  Ascending-lt get_id [] i j up h ei ej = cc
  Ascending-lt get_id (a ∷ table) i zero up h ei ej = absurd (omega (arith, h))
  Ascending-lt get_id (a ∷ table) zero (suc j) {x = x} {y = y} up h ei ej =
      subst (λ a. get_id a < get_id y) (eq_of_some a x ei)
        (All-get (λ y. get_id a < get_id y) table j up.0 ej)
  Ascending-lt get_id (a ∷ table) (suc i) (suc j) up h ei ej =
      Ascending-lt get_id table i j up.1 (omega arith) ei ej

  -- In a range, ids that go up tell where their entries stand.
  module _ (table : List A) (get_id : A → ℕ) (begin end : ℕ)
      (up : AscendsIn table get_id begin end) where
    index_lt :
        (i j : ℕ) (x y : A)
        → i < end
        → begin ≤ j
        → get_elem? table i ≡ some x
        → get_elem? table j ≡ some y
        → get_id x < get_id y
        → i < j
    index_lt i j x y hi hj ei ej h = elim (Bool-cases (ltb i j)) [
      | inl before ↦ ground (arith, before)
      | inr not_before ↦ elim (Bool-cases (i == j)) [
        | inl same ↦
            let one = eq_of_some x y (sym ei ∙ ap (get_elem? table) ((==_iff i j).0 same) ∙ ej) in
            absurd (omega (arith, h, ap get_id one))
        | inr other ↦
            absurd (omega (arith, h, up j i y x hj (ground (arith, not_before, other)) hi ej ei))
      ]
    ]

    same_entry :
        (i j : ℕ) (x y : A)
        → begin ≤ i
        → i < end
        → begin ≤ j
        → j < end
        → get_elem? table i ≡ some x
        → get_elem? table j ≡ some y
        → get_id x ≡ get_id y
        → some x ≡ some y
    same_entry i j x y bi hi bj hj ei ej h = elim (Bool-cases (ltb i j)) [
      | inl before ↦ absurd (omega (arith, h, up i j x y bi (ground (arith, before)) hj ei ej))
      | inr not_before ↦ elim (Bool-cases (i == j)) [
        | inl same ↦ sym ei ∙ ap (get_elem? table) ((==_iff i j).0 same) ∙ ej
        | inr other ↦
            absurd (omega (arith, h, up j i y x bj (ground (arith, not_before, other)) hi ej ei))
      ]
    ]

  -- What is found is an entry of the range with the id.
  found_from :
      (fuel : ℕ) (table : List A) (get_id : A → ℕ) (id begin end : ℕ) {entry : A}
      → binary_find_from fuel table get_id id begin end ≡ some entry
      → (i : ℕ) × IsAt table get_id id begin end entry i
  unfolding binary_find_from
  found_from zero table get_id id begin end e = cc
  found_from (suc fuel) table get_id id begin end {entry = entry} e =
      elim (Bool-cases (ltb begin end)) [
        | inr empty ↦ absurd (ground (arith, rw (binary_find_from, empty) at e))
        | inl some_left ↦
            let middle = begin + (end - begin) / 2 in
            let inside : (begin ≤ middle) × (middle < end) = grind (arith, some_left) in
            elim (Option-cases (get_elem? table middle)) [
              | inl outside ↦
                  absurd (ground (arith, rw (binary_find_from, some_left, outside) at e))
              | inr (x, at_middle) ↦ elim (Bool-cases (ltb (get_id x) id)) [
                | inl lower ↦
                    let found =
                      found_from fuel table get_id id (middle + 1) end
                        (rw (binary_find_from, some_left, at_middle, lower) at e) in
                    (found.0, (omega (arith, found.1.0, inside), found.1.1, found.1.2, found.1.3))
                | inr not_lower ↦ elim (Bool-cases (ltb id (get_id x))) [
                  | inl higher ↦
                      let found =
                        found_from fuel table get_id id begin middle
                          (rw (binary_find_from, some_left, at_middle, not_lower, higher) at e) in
                      (found.0, (found.1.0, omega (arith, found.1.1, inside), found.1.2, found.1.3))
                  | inr not_higher ↦
                      let same =
                        eq_of_some x entry (
                          rw (binary_find_from, some_left, at_middle, not_lower, not_higher) at
                            e) in
                      (
                        middle,
                        (
                          inside.0,
                          inside.1,
                          at_middle ∙ ap some same,
                          ap get_id (sym same) ∙ ground (arith, not_lower, not_higher),
                        ),
                      )
                ]
              ]
            ]
      ]

  -- An entry of the range is found, with enough fuel.
  find_at :
      (fuel : ℕ) (table : List A) (get_id : A → ℕ) (id begin end i : ℕ) (entry : A)
      → AscendsIn table get_id begin end
      → end ≤ length table
      → end - begin < fuel
      → IsAt table get_id id begin end entry i
      → binary_find_from fuel table get_id id begin end ≡ some entry
  unfolding binary_find_from
  find_at zero table get_id id begin end i entry up h enough at = elim enough [ ]
  find_at (suc fuel) table get_id id begin end i entry up h enough (from, to, there, same) =
      let middle = begin + (end - begin) / 2 in
      let some_left : ltb begin end ≡ true = ground (arith, from, to) in
      let inside : (begin ≤ middle) × (middle < end) = grind (arith, some_left) in
      let (x, at_middle) = get_elem?-some table middle (omega (arith, inside, h)) in
      elim (Bool-cases (ltb (get_id x) id)) [
        | inl lower ↦
            let behind =
              index_lt table get_id begin end up middle i x entry inside.1 from at_middle there
                (ground (arith, lower, same)) in
            rw (binary_find_from, some_left, at_middle, lower)
              (find_at fuel table get_id id (middle + 1) end i entry
                (λ i j x y b l e ei ej. up i j x y (omega (arith, inside)) l e ei ej) h
                (omega (arith, inside, enough)) (omega (arith, behind), to, there, same))
        | inr not_lower ↦ elim (Bool-cases (ltb id (get_id x))) [
          | inl higher ↦
              let ahead =
                index_lt table get_id begin end up i middle entry x to inside.0 there at_middle
                  (ground (arith, higher, same)) in
              rw (binary_find_from, some_left, at_middle, not_lower, higher)
                (find_at fuel table get_id id begin middle i entry
                  (λ i j x y b l e ei ej. up i j x y b l (omega (arith, inside)) ei ej)
                  (omega (arith, inside, h)) (omega (arith, inside, enough))
                  (from, ahead, there, same))
          | inr not_higher ↦
              rw (binary_find_from, some_left, at_middle, not_lower, not_higher)
                (same_entry table get_id begin end up middle i x entry inside.0 inside.1 from to
                  at_middle there (ground (arith, not_lower, not_higher, same)))
        ]
      ]

  -- Where the ids go up in a range inside the table, binary_find on that range returns an entry
  -- exactly where that entry stands in the range and has the id looked for.
  pub binary_find-finds :
      (table : List A) (get_id : A → ℕ) (id begin end : ℕ) (entry : A)
      → AscendsIn table get_id begin end
      → end ≤ length table
      → (binary_find table get_id id begin end ≡ some entry)
        ↔ ((i : ℕ) × IsAt table get_id id begin end entry i)
  unfolding binary_find
  binary_find-finds table get_id id begin end entry up h = (
    λ e. found_from (suc (end - begin)) table get_id id begin end e,
    λ (i, at). find_at (suc (end - begin)) table get_id id begin end i entry up h (omega arith) at,
  )
