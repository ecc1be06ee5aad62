-- ===== src/Store/Filters.antt =====
-- The recipes of the filters slice, over immer's drafts, and the slice as a function of lists.
pub mod Refine
pub mod Lookup
pub mod Unique
use teletrace.Base.{
  ℕ, zero, suc, ◌≡◌, Bool, true, false, ◌&&◌, Option, none, some, List, [], ◌∷◌, ◌++◌, map, String,
  ◌==◌, get_or, if◌then◌else◌, length, find, ℤ, negsuc, find_index, splice_one, str_eq,
}
use teletrace.Search.Types.{Operator, operator_eq, KeyValueFilter, SearchFilter}

-- The index -1.
abbrev pub is_missing : ℤ → Bool
is_missing (negsuc zero) = true
is_missing _ = false

unfoldable pub is_filters_structure_equal : String → String → Operator → Operator → Bool
is_filters_structure_equal k1 k2 o1 o2 = str_eq k1 k2 && operator_eq o1 o2

-- An item of a draft array: an object with its identity, since the recipe below keeps a reference
-- to one and writes through it after the array has changed.
pub record Draft (N : Type 0) : Type 0 where
  pub slot : ℕ
  pub filter : SearchFilter N

-- immer's `produce(recipe)` on the filters: the recipe gets a draft of each item, and what the
-- array then holds is the next state.
module _ {N : Type 0} where
  abbrev pub draft_from : ℕ → List (SearchFilter N) → List (Draft N)
  draft_from n [] = []
  draft_from n (f ∷ fs) = record { slot = n; filter = f } ∷ draft_from (suc n) fs

  abbrev pub finish : List (Draft N) → List (SearchFilter N)
  finish = map (λ d. d.filter)

pub record Immer (N : Type 0) : Type 0 where
  pub produce : (List (Draft N) → List (Draft N)) → List (SearchFilter N) → List (SearchFilter N)
  pub produce_lem :
      (recipe : List (Draft N) → List (Draft N)) (fs : List (SearchFilter N))
      → produce recipe fs ≡ finish (recipe (draft_from 0 fs))

module _ {N : Type 0} where
  -- The test that `find` and `findIndex` are given.
  unfoldable pub has_structure : String → Operator → SearchFilter N → Bool
  unfolding is_filters_structure_equal
  has_structure key operator f =
      is_filters_structure_equal f.key_value_filter.key key f.key_value_filter.operator operator

  unfoldable pub like : SearchFilter N → SearchFilter N → Bool
  unfolding has_structure
  like g f = has_structure g.key_value_filter.key g.key_value_filter.operator f

  abbrev pub like_draft : SearchFilter N → Draft N → Bool
  like_draft g d = like g d.filter

  -- `o.keyValueFilter = v` for the object at a slot, wherever the array holds it.
  abbrev pub write : ℕ → KeyValueFilter N → List (Draft N) → List (Draft N)
  write slot v [] = []
  write slot v (d ∷ ds) =
      (if d.slot == slot then record d { filter = record { key_value_filter = v } } else d)
      ∷ write slot v ds

  unfoldable pub handle_pre_existing_filter_override :
      SearchFilter N → List (Draft N) → List (Draft N)
  unfolding find_index splice_one
  handle_pre_existing_filter_override filter filters =
      let filter_index = find_index (like_draft filter) filters in
      if is_missing filter_index then filters else splice_one filters filter_index

  unfoldable pub create_or_update_recipe :
      SearchFilter N → Option (SearchFilter N) → List (Draft N) → List (Draft N)
  unfolding handle_pre_existing_filter_override
  create_or_update_recipe filter previous_filter filters =
      let target_filter = get_or previous_filter filter in
      elim (find (like_draft target_filter) filters) [
        | some filter_to_update ↦
            write filter_to_update.slot filter.key_value_filter (elim previous_filter [
              | some _ ↦ handle_pre_existing_filter_override filter filters
              | none ↦ filters
            ])
        | none ↦ filters ++ record { slot = length filters; filter = filter } ∷ []
      ]

  unfoldable pub delete_recipe : String → Operator → List (Draft N) → List (Draft N)
  unfolding find_index splice_one
  delete_recipe key operator filters =
      splice_one filters (find_index (λ d. has_structure key operator d.filter) filters)
