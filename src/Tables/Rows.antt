-- ===== src/Tables/Rows.antt =====
-- The look-ups find the rows of the tables of components/ble_client_hid/usage_data.cpp.
use esphome_ble_remote.Prelude.{
  ℕ, zero, suc, ◌+◌, ◌-◌, ◌≤◌, ◌<◌, ◌≡◌, ◌↔◌, refl, ap, ◌∙◌, Bool, true, false, ◌&&◌, none, some,
  List, [], ◌∷◌, arith, ltb, leb, ◌==◌, length, get_elem?, take, drop, All, All-get, All-map,
  Bool-cases, Option-cases, inl, inr,
}
use esphome_ble_remote.Tables.{PageRecord, UsageRecord, pages, find_page}
use esphome_ble_remote.Tables.Usages.{usages}
use esphome_ble_remote.Tables.Search.{Ascending, AscendsIn, Ascending-lt, IsAt, binary_find-finds}
use esphome_ble_remote.Tables.Lookup.{find_usage}

-- The ids of neighbours go up.
abbrev above {ℓ} : {A : Type ℓ} → (A → ℕ) → A → List A → Bool
above get_id x [] = true
above get_id x (y ∷ ys) = ltb (get_id x) (get_id y)

unfoldable is_ascending {ℓ} : {A : Type ℓ} → (A → ℕ) → List A → Bool
is_ascending get_id [] = true
is_ascending get_id (x ∷ xs) = above get_id x xs && is_ascending get_id xs

all_above :
    {A : Type 0} (get_id : A → ℕ) (x : A) (xs : List A)
    → is_ascending get_id (x ∷ xs) ≡ true
    → All (λ y. get_id x < get_id y) xs
unfolding is_ascending
all_above get_id x [] h = tt
all_above get_id x (y ∷ ys) h =
    let below : get_id x < get_id y = ground (arith, h) in
    (
      below,
      All-map (λ z above. omega (arith, below, above)) ys
          (all_above get_id y ys (ground (arith, h))),
    )

Ascending_lem :
    {A : Type 0} (get_id : A → ℕ) (xs : List A)
    → is_ascending get_id xs ≡ true
    → Ascending get_id xs
unfolding is_ascending Ascending
Ascending_lem get_id [] h = tt
Ascending_lem get_id (x ∷ xs) h =
    (all_above get_id x xs h, Ascending_lem get_id xs (ground (arith, h)))

module _ {A : Type 0} where
  get_elem?-drop : (m : ℕ) (xs : List A) (k : ℕ) → get_elem? (drop m xs) k ≡ get_elem? xs (m + k)
  get_elem?-drop zero xs k = ap (get_elem? xs) (omega arith)
  get_elem?-drop (suc m) [] k = refl
  get_elem?-drop (suc m) (x ∷ xs) k =
      let next : suc (m + k) ≡ suc m + k = omega arith in
      get_elem?-drop m xs k ∙ ap (get_elem? (x ∷ xs)) next

  get_elem?-take : (n : ℕ) (xs : List A) (k : ℕ) → k < n → get_elem? (take n xs) k ≡ get_elem? xs k
  get_elem?-take zero xs k h = absurd (omega (arith, h))
  get_elem?-take (suc n) [] k h = refl
  get_elem?-take (suc n) (x ∷ xs) zero h = refl
  get_elem?-take (suc n) (x ∷ xs) (suc k) h = get_elem?-take n xs k (omega (arith, h))

  -- A part of a table that goes up is a range that does.
  Ascending-AscendsIn :
      (table : List A) (get_id : A → ℕ) (first count : ℕ)
      → Ascending get_id (take count (drop first table))
      → AscendsIn table get_id first (first + count)
  Ascending-AscendsIn table get_id first count up i j x y bi ij je ei ej =
      let place : (k : ℕ)
          → first ≤ k
          → k < first + count
          → get_elem? (take count (drop first table)) (k - first) ≡ get_elem? table k =
        λ k b e.
          get_elem?-take count (drop first table) (k - first) (omega (arith, b, e))
          ∙ get_elem?-drop first table (k - first)
          ∙ ap (get_elem? table) (omega (arith, b)) in
      Ascending-lt get_id (take count (drop first table)) (i - first) (j - first) up
        (omega (arith, bi, ij)) (place i bi (omega (arith, ij, je)) ∙ ei)
        (place j (omega (arith, bi, ij)) je ∙ ej)

-- The page's rows are in the table and their ids go up.
record IsPage (table : List UsageRecord) (entry : PageRecord) : Type 0 where
  inside : entry.first + entry.count ≤ length table
  up : AscendsIn table (λ value. value.id) entry.first (entry.first + entry.count)

unfoldable is_table : List UsageRecord → List PageRecord → Bool
is_table table [] = true
is_table table (entry ∷ entries) =
    leb (entry.first + entry.count) (length table)
    && is_ascending (λ value. value.id) (take entry.count (drop entry.first table))
    && is_table table entries

is_table-All :
    (table : List UsageRecord) (entries : List PageRecord)
    → is_table table entries ≡ true
    → All (IsPage table) entries
unfolding is_table
is_table-All table [] h = tt
is_table-All table (entry ∷ entries) h = (
  record {
    inside = ground (arith, h);
    up =
        Ascending-AscendsIn table (λ value. value.id) entry.first entry.count
          (Ascending_lem (λ value. value.id) (take entry.count (drop entry.first table))
            (ground (arith, h)));
  },
  is_table-All table entries (ground (arith, h)),
)

pages_ascend : is_ascending (λ entry. entry.id) pages ≡ true
unfolding is_ascending
pages_ascend = refl

usages_ascend : is_table usages pages ≡ true
unfolding is_table is_ascending
usages_ascend = refl

-- The entry of the page is in the table of pages.
abbrev pub IsPageAt : ℕ → ℕ → PageRecord → Type 0
IsPageAt page i entry = IsAt pages (λ entry. entry.id) page 0 (length pages) entry i

pub find_page-finds :
    (page : ℕ) (entry : PageRecord)
    → (find_page page ≡ some entry) ↔ ((i : ℕ) × IsPageAt page i entry)
unfolding find_page
find_page-finds page entry =
    binary_find-finds pages (λ entry. entry.id) page 0 (length pages) entry
      (λ i j x y b l e ei ej.
        Ascending-lt (λ entry. entry.id) pages i j
          (Ascending_lem (λ entry. entry.id) pages pages_ascend) l ei ej)
      (omega arith)

IsPageAt-IsPage : (page i : ℕ) (entry : PageRecord) → IsPageAt page i entry → IsPage usages entry
IsPageAt-IsPage page i entry (_, _, at, _) =
    All-get (IsPage usages) pages i (is_table-All usages pages usages_ascend) at

not_empty : (first count j : ℕ) → first ≤ j → j < first + count → (count == 0) ≡ false
not_empty first count j from to = ground (arith, from, to)

none-ne-some : {A : Type 0} {a : A} → (none ≡ some a) → ⊥
none-ne-some e = cc

-- On the tables of the source, the look-up returns a row exactly where that row stands among the
-- rows of a page of the number and has the usage's id.
pub find_usage-finds :
    (page usage : ℕ) (value : UsageRecord)
    → (find_usage page usage ≡ some value) ↔ (
        (entry : PageRecord) × (i : ℕ) × (j : ℕ) × IsPageAt page i entry
        × IsAt usages (λ value. value.id) usage entry.first (entry.first + entry.count) value j)
unfolding find_usage
find_usage-finds page usage value = (
  λ e. elim (Option-cases (find_page page)) [
    | inl absent ↦ absurd (none-ne-some (rw (find_usage, absent) at e))
    | inr (entry, there) ↦ elim (Bool-cases (entry.count == 0)) [
      | inl empty ↦ absurd (none-ne-some (rw (find_usage, there, empty) at e))
      | inr filled ↦
          let (i, at_page) = (find_page-finds page entry).0 there in
          let sound = IsPageAt-IsPage page i entry at_page in
          let (j, at_row) =
            (binary_find-finds usages (λ value. value.id) usage entry.first
                (entry.first + entry.count) value sound.up sound.inside).0
              (rw (find_usage, there, filled) at e) in
          (entry, i, j, at_page, at_row)
    ]
  ],
  λ (entry, i, j, at_page, at_row).
      let there = (find_page-finds page entry).1 (i, at_page) in
      let sound = IsPageAt-IsPage page i entry at_page in
      let filled : (entry.count == 0) ≡ false =
        not_empty entry.first entry.count j at_row.0 at_row.1 in
      rw (find_usage, there, filled)
        ((binary_find-finds usages (λ value. value.id) usage entry.first (entry.first + entry.count)
            value sound.up sound.inside).1
          (j, at_row)),
)
