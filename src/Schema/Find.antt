-- ===== src/Schema/Find.antt =====
-- HIDReportMap::application_usage (hid_parser.cpp) walks from a collection up to the nearest
-- application collection.
use esphome_ble_remote.Prelude.{
  ℕ, zero, suc, ◌+◌, ◌≤◌, ◌<◌, ◌≡◌, ◌≢◌, ◌⊎◌, inl, inr, refl, false, some, List, [], ◌∷◌, arith,
  length, get_elem?, get_elem?-some, Bool-cases, ◌==◌,
}
use esphome_ble_remote.Schema.Usage.{HidUsage, no_usage, no_parent}
use esphome_ble_remote.Schema.Field.{HidCollectionSchema}
use esphome_ble_remote.Schema.ReportMap.{
  HidReportMap, application_usage, application_usage_from, max_collections,
}
use esphome_ble_remote.Descriptor.Layout.{Linked}

-- The usage of the nearest application collection (type 1) from a collection up, or none.
pub data Encloses (cs : List HidCollectionSchema) (u : HidUsage) : ℕ → Type 0 where
  outside : {i : ℕ} → i ≡ no_parent → u ≡ no_usage → Encloses cs u i
  application :
      {i : ℕ} (c : HidCollectionSchema)
      → get_elem? cs i ≡ some c
      → c.type ≡ 1
      → u ≡ c.usage
      → Encloses cs u i
  inside :
      {i : ℕ} (c : HidCollectionSchema)
      → get_elem? cs i ≡ some c
      → c.type ≢ 1
      → Encloses cs u c.parent
      → Encloses cs u i

Linked-get :
    (index : ℕ) (cs : List HidCollectionSchema) (i : ℕ) (c : HidCollectionSchema)
    → Linked index cs
    → get_elem? cs i ≡ some c
    → (c.parent ≡ no_parent) ⊎ (c.parent < index + i)
Linked-get index [] i c h e = cc
Linked-get index (d ∷ cs) zero c h e = ground (arith, h.1)
Linked-get index (d ∷ cs) (suc i) c h e = ground (arith, Linked-get (suc index) cs i c h.2 e)

module _ (cs : List HidCollectionSchema) (linked : Linked 0 cs)
    (few : length cs ≤ max_collections) where
  Walk : ℕ → ℕ → Type 0
  Walk fuel i = (u : HidUsage) × (application_usage_from fuel cs i ≡ some u) × Encloses cs u i

  Walk-from :
      (fuel i : ℕ) (c : HidCollectionSchema)
      → i < length cs
      → get_elem? cs i ≡ some c
      → Walk fuel c.parent
      → Walk (suc fuel) i
  unfolding application_usage_from Walk
  Walk-from fuel i c lt e (u, up, above) =
      let inner : (i == no_parent) ≡ false = ground arith in
      elim (Bool-cases (c.type == 1)) [
        | inl h ↦ (c.usage, rw (inner, e, h), application c e (ground arith) refl)
        | inr h ↦ (u, rw (inner, e, h, up), inside c e (ground arith) above)
      ]

  walk :
      (fuel i : ℕ)
      → ((i ≡ no_parent) × (0 < fuel)) ⊎ ((i < length cs) × (suc i < fuel))
      → Walk fuel i
  unfolding application_usage_from Walk
  walk zero i (inl (top, h)) = elim h [ ]
  walk zero i (inr (lt, h)) = elim h [ ]
  walk (suc fuel) i (inl (top, h)) = (no_usage, ground arith, outside top refl)
  walk (suc fuel) i (inr (lt, h)) =
      let (c, e) = get_elem?-some cs i lt in
      Walk-from fuel i c lt e (walk fuel c.parent (ground (arith, Linked-get 0 cs i c linked e)))

-- In a sound report map, the walk up from a known collection, or from none, gives the usage of the
-- nearest application collection that encloses it, or the empty usage where there is none; the
-- fuel, one more than the collections, is enough.
pub application_usage-Encloses :
    (m : HidReportMap) (id : ℕ)
    → Linked 0 m.collections
    → length m.collections ≤ max_collections
    → (id ≡ no_parent) ⊎ (id < length m.collections)
    → Encloses m.collections (application_usage m id) id
unfolding application_usage Walk
application_usage-Encloses m id linked few known =
    let (u, e, above) =
      walk m.collections linked few (suc (length m.collections)) id (ground arith) in
    rw e above
