-- ===== src/Descriptor/Preserve.antt =====
-- Every item keeps the invariant of the parser, and no item runs out of fuel.
use esphome_ble_remote.Prelude.{
  ℕ, ◌+◌, ◌/◌, ◌%◌, ◌≤◌, ◌<◌, ◌≡◌, ◌⊎◌, inl, inr, refl, true, false, ◌||◌, List, [], ◌∷◌, ◌++◌,
  arith, length, length-append, length-set, All, Bool-cases, leb, ◌==◌,
}
use esphome_ble_remote.Prelude.Words.{u16}
use esphome_ble_remote.Prelude.Text.{Text}
use esphome_ble_remote.Schema.Usage.{HidUsage, no_parent}
use esphome_ble_remote.Schema.ReportMap.{
  add_diagnostic, max_collections, max_collection_depth, max_global_stack_depth,
}
use esphome_ble_remote.Descriptor.State
use esphome_ble_remote.Descriptor.State.{
  GlobalState, Parser, push_usage, Result, ok, fail, fuel_out, fail_if, ◌>>=◌, ◌>>◌, ItemTag, Item,
}
use esphome_ble_remote.Descriptor.Items.{
  on_usage_page, on_report_id, on_push, on_pop, on_usage, on_delimiter, decode_usage, with_global,
  with_local,
}
use esphome_ble_remote.Descriptor.Main.{
  on_collection, on_end_collection, collection_of, current_collection,
}
use esphome_ble_remote.Descriptor.Parse.{on_unknown}
use esphome_ble_remote.Descriptor.Layout.{FieldsAreSound-mono, Linked, Linked-snoc, SchemaIsSound}

pub record Inv (s : Parser) : Type 0 where
  pub schema : SchemaIsSound s.report_map.reports s.report_map.fields s.report_map.collections
  pub valid : s.report_map.valid ≡ true
  pub open_bounded : length s.collection_stack ≤ max_collection_depth
  pub open_known : All (λ c. c < length s.report_map.collections) s.collection_stack
  pub pushed_bounded : length s.global_stack ≤ max_global_stack_depth
  pub set_known : s.local.active_usage_set < length s.local.usage_sets

-- The step ends, and its result, if it is one, has the property.
abbrev pub Ensures : {A : Type 0} → (A → Type 0) → Result A → Type 0
Ensures P (ok a) = P a
Ensures P (fail offset e) = Unit {0}
Ensures P fuel_out = ⊥

-- A step that changes the global or the local state alone.
pub with_global-Inv : (s : Parser) (g : GlobalState) → Inv s → Inv (with_global s g)
with_global-Inv s g v = record {
  schema = v.schema;
  valid = v.valid;
  open_bounded = v.open_bounded;
  open_known = v.open_known;
  pushed_bounded = v.pushed_bounded;
  set_known = v.set_known;
}

pub with_local-Inv :
    (s : Parser) (l : State.LocalState)
    → l.active_usage_set < length l.usage_sets
    → Inv s
    → Inv (with_local s l)
with_local-Inv s l h v = record {
  schema = v.schema;
  valid = v.valid;
  open_bounded = v.open_bounded;
  open_known = v.open_known;
  pushed_bounded = v.pushed_bounded;
  set_known = h;
}

pub on_usage_page-Inv : (i : Item) (s : Parser) → Inv s → Ensures Inv (on_usage_page i s)
unfolding on_usage_page
on_usage_page-Inv i s v = ground arith

pub on_report_id-Inv : (i : Item) (s : Parser) → Inv s → Ensures Inv (on_report_id i s)
unfolding on_report_id
on_report_id-Inv i s v = ground arith

pub on_push-Inv : (i : Item) (s : Parser) → Inv s → Ensures Inv (on_push i s)
unfolding on_push
on_push-Inv i s v = ground arith

pub on_pop-Inv : (i : Item) (s : Parser) → Inv s → Ensures Inv (on_pop i s)
unfolding on_pop
on_pop-Inv i s v = ground arith

push_usage_known :
    (u : HidUsage) (l : State.LocalState)
    → l.active_usage_set < length l.usage_sets
    → (push_usage u l).active_usage_set < length (push_usage u l).usage_sets
unfolding push_usage
push_usage_known u l h = rw length-set h

pub on_usage-Inv : (i : Item) (s : Parser) → Inv s → Inv (on_usage i s)
unfolding on_usage
on_usage-Inv i s v =
    with_local-Inv s _
      (push_usage_known (decode_usage i.raw i.size s.global.usage_page) s.local v.set_known) v

pub on_delimiter-Inv : (i : Item) (s : Parser) → Inv s → Ensures Inv (on_delimiter i s)
unfolding on_delimiter
on_delimiter-Inv i s v = ground (arith, length-append {0} s.local.usage_sets ([] ∷ []))

-- A diagnostic that is no error.
pub noted-Inv :
    (s : Parser) (offset : ℕ) (message : Text)
    → Inv s
    → Inv (record s { report_map = add_diagnostic s.report_map offset false message })
unfolding add_diagnostic
noted-Inv s offset message v = record {
  schema = v.schema;
  valid = v.valid;
  open_bounded = v.open_bounded;
  open_known = v.open_known;
  pushed_bounded = v.pushed_bounded;
  set_known = v.set_known;
}

pub on_unknown-Inv : (i : Item) (s : Parser) → Inv s → Inv (on_unknown i s)
unfolding on_unknown
on_unknown-Inv i s v = elim (Bool-cases (i.prefix / 4 % 4 == 0)) [
  | inl h ↦ rw h (with_local-Inv _ State.initial_local (omega arith) (noted-Inv s i.offset _ v))
  | inr h ↦ rw h (noted-Inv s i.offset _ v)
]

pub on_end_collection-Inv : (i : Item) (s : Parser) → Inv s → Ensures Inv (on_end_collection i s)
unfolding on_end_collection
on_end_collection-Inv i s v = ground arith

-- The parent of a new collection is open, so it stands before it.
pub current_collection-lt :
    (n : ℕ) (stack : List ℕ)
    → All (λ c. c < n) stack
    → (current_collection stack ≡ no_parent) ⊎ (current_collection stack < n)
current_collection-lt n [] h = inl refl
current_collection-lt n (c ∷ stack) h = inr h.0

collection_of-Linked :
    (i : Item) (s : Parser)
    → Inv s
    → length s.report_map.collections < max_collections
    → Linked 0 (s.report_map.collections ++ collection_of i s ∷ [])
unfolding collection_of
collection_of-Linked i s v room =
    Linked-snoc 0 s.report_map.collections _ v.schema.collections_linked (omega arith) (
      ground (
        arith,
        current_collection-lt (length s.report_map.collections) s.collection_stack v.open_known,
      ))

open_grows : (m n : ℕ) (stack : List ℕ) → m ≤ n → All (λ c. c < m) stack → All (λ c. c < n) stack
open_grows m n [] h a = tt
open_grows m n (c ∷ stack) h a = (omega arith, open_grows m n stack h a.1)

collected-Inv :
    (i : Item) (s : Parser)
    → Inv s
    → length s.report_map.collections < max_collections
    → length s.collection_stack < max_collection_depth
    → Inv (record s {
      report_map = record (s.report_map) {
        collections = s.report_map.collections ++ collection_of i s ∷ [];
      };
      collection_stack = u16 (length s.report_map.collections) ∷ s.collection_stack;
      local = State.initial_local;
    })
collected-Inv i s v room depth =
    let more : length (s.report_map.collections ++ collection_of i s ∷ [])
        ≡ length s.report_map.collections + 1 =
      length-append s.report_map.collections (collection_of i s ∷ []) in
    record {
      schema = record {
        reports_bounded = v.schema.reports_bounded;
        fields_bounded = v.schema.fields_bounded;
        collections_bounded = omega arith;
        collections_linked = collection_of-Linked i s v room;
        fields_sound =
            FieldsAreSound-mono _ _ 0 s.report_map.fields (omega arith) v.schema.fields_sound;
        reports_sound = v.schema.reports_sound;
        reports_distinct = v.schema.reports_distinct;
      };
      valid = v.valid;
      open_bounded = omega arith;
      open_known = (omega arith, open_grows _ _ s.collection_stack (omega arith) v.open_known);
      pushed_bounded = v.pushed_bounded;
      set_known = omega arith;
    }

pub on_collection-Inv : (i : Item) (s : Parser) → Inv s → Ensures Inv (on_collection i s)
unfolding on_collection
on_collection-Inv i s v =
    elim (Bool-cases (
      leb max_collections (length s.report_map.collections)
      || leb max_collection_depth (length s.collection_stack))) [
        | inl h ↦ rw h tt
        | inr h ↦ rw h (collected-Inv i s v (ground arith) (ground arith))
      ]
