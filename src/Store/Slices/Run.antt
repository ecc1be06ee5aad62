-- ===== src/Store/Slices/Run.antt =====
-- The filters under every sequence of the store's actions.
use teletrace.Base.{
  ℕ, ◌≡◌, inl, inr, ◌∙◌, ap, sym, refl, Bool, true, false, Option, none, some, List, [], ◌∷◌, ◌++◌,
  String, if◌then◌else◌, find, is_some,
}
use teletrace.Search.Types.{Operator, SearchFilter, array, Sort}
use teletrace.Store.State.{State, Zustand}
use teletrace.Store.Filters.{Immer, like, has_structure}
use teletrace.Store.Filters.Refine as Refine
use teletrace.Store.Filters.Lookup.{IsUnique}
use teletrace.Store.Filters.Unique.{
  find-create, find-edit, find-edit_same, find-delete, delete_absent, create_or_update-IsUnique,
  delete-IsUnique,
}
use teletrace.Store.Slices.{
  initial_state, set_is_on, set_relative_timeframe, set_absolute_timeframe, set_sort,
  create_or_update_filter, delete_filter, clear_filters,
}
use teletrace.Store.Slices.Frames.{
  set_is_on_lem, set_absolute_timeframe_lem, set_relative_timeframe_lem,
}

-- The calls that the page makes of the store.
pub data Action (N : Type 0) : Type 0 where
  live : Bool → Action N
  relative : (clock new_start : ℕ) → Action N
  absolute : (new_start new_end : ℕ) → Action N
  order_by : List Sort → Action N
  create_or_update : SearchFilter N → Option (SearchFilter N) → Action N
  delete : String → Operator → Action N
  clear : Action N

module _ {N : Type 0} where
  abbrev pub lookup : String → Operator → State N → Option (SearchFilter N)
  lookup key operator s = find (has_structure key operator) s.filters

  abbrev probe : String → Operator → SearchFilter N
  probe key operator = record {
    key_value_filter = record { key = key; value = array []; operator = operator };
  }

  abbrev pub is_present : SearchFilter N → State N → Bool
  is_present f s = is_some (lookup f.key_value_filter.key f.key_value_filter.operator s)

  -- An edit names a filter that the store holds.
  abbrev pub IsAllowed : Action N → State N → Type 0
  IsAllowed (create_or_update f (some previous)) s = is_present previous s ≡ true
  IsAllowed _ s = Unit

module _ {N : Type 0} (z : Zustand N) (m : Immer N) where
  -- The two filter actions implement the contract over plain lists, and change nothing else.
  pub create_or_update_filter_lem :
      (f : SearchFilter N) (previous : Option (SearchFilter N)) (s : State N)
      → create_or_update_filter z m f previous s
        ≡ record s { filters = Refine.create_or_update f previous s.filters }
  unfolding create_or_update_filter
  create_or_update_filter_lem f previous s =
      rw (z.set_lem, m.produce_lem, Refine.finish-create_or_update)

  pub delete_filter_lem :
      (key : String) (operator : Operator) (s : State N)
      → delete_filter z m key operator s
        ≡ record s { filters = Refine.delete_filter key operator s.filters }
  unfolding delete_filter
  delete_filter_lem key operator s = rw (z.set_lem, m.produce_lem, Refine.finish-delete_filter)

  pub clear_filters_lem : (s : State N) → clear_filters z m s ≡ record s { filters = [] }
  unfolding clear_filters
  clear_filters_lem s = rw (z.set_lem, m.produce_lem)

  -- Adding a filter, with no previous one: afterwards its key and operator find it, whether or not
  -- the store held a filter of that key and operator, and all others find what they found before.
  pub lookup-create :
      (key : String) (operator : Operator) (f : SearchFilter N) (s : State N)
      → lookup key operator (create_or_update_filter z m f none s)
        ≡ (if has_structure key operator f then some f else lookup key operator s)
  unfolding like
  lookup-create key operator f s =
      rw (create_or_update_filter_lem f none s) (find-create (probe key operator) f s.filters)

  -- Editing a stored filter into one of another key or operator, where the stored filters have
  -- distinct keys and operators: the new filter is found, the previous one is gone, whatever the
  -- new one's key and operator held before is replaced, and all others are found as before.
  pub lookup-edit :
      (key : String) (operator : Operator) (f previous : SearchFilter N) (s : State N)
      → IsUnique s.filters
      → is_present previous s ≡ true
      → like previous f ≡ false
      → lookup key operator (create_or_update_filter z m f (some previous) s) ≡ (
          if has_structure key operator f
          then some f
          else if has_structure key operator previous
          then none
          else lookup key operator s)
  unfolding like
  lookup-edit key operator f previous s u e d =
      rw (create_or_update_filter_lem f (some previous) s)
        (find-edit (probe key operator) f previous s.filters u e d)

  -- Editing a stored filter without changing its key and operator, where the stored filters have
  -- distinct keys and operators, loses it: afterwards no filter of that key and operator is found,
  -- whatever the new value, and all others are found as before.
  pub lookup-edit_value :
      (key : String) (operator : Operator) (f previous : SearchFilter N) (s : State N)
      → IsUnique s.filters
      → is_present previous s ≡ true
      → like previous f ≡ true
      → lookup key operator (create_or_update_filter z m f (some previous) s)
        ≡ (if has_structure key operator f then none else lookup key operator s)
  unfolding like
  lookup-edit_value key operator f previous s u e d =
      rw (create_or_update_filter_lem f (some previous) s)
        (find-edit_same (probe key operator) f previous s.filters u e d)

  -- Deleting by the key and operator of a stored filter, where the stored filters have distinct
  -- keys and operators, removes that filter and no other.
  pub lookup-delete :
      (key : String) (operator : Operator) (f : SearchFilter N) (s : State N)
      → IsUnique s.filters
      → is_present f s ≡ true
      → lookup key operator (delete_filter z m f.key_value_filter.key f.key_value_filter.operator s)
        ≡ (if has_structure key operator f then none else lookup key operator s)
  unfolding like
  lookup-delete key operator f s u e =
      rw (delete_filter_lem f.key_value_filter.key f.key_value_filter.operator s)
        (find-delete (probe key operator) f s.filters u e)

  -- Deleting by a key and operator that no stored filter has removes the last stored filter, since
  -- `splice` gets the index -1.
  pub delete_filter-absent :
      (key : String) (operator : Operator) (fs : List (SearchFilter N)) (last : SearchFilter N)
      (s : State N)
      → s.filters ≡ fs ++ last ∷ []
      → lookup key operator s ≡ none
      → (delete_filter z m key operator s).filters ≡ fs
  delete_filter-absent key operator fs last s e absent =
      rw (delete_filter_lem key operator s, e)
        (delete_absent key operator fs last
          (ap (find (has_structure key operator)) (sym e) ∙ absent))

  -- What an action makes of the state.
  unfoldable pub step : Action N → State N → State N
  unfolding set_is_on set_relative_timeframe set_absolute_timeframe set_sort create_or_update_filter
      delete_filter clear_filters
  step (live on) s = set_is_on z on s
  step (relative clock new_start) s = set_relative_timeframe z clock new_start s
  step (absolute new_start new_end) s = set_absolute_timeframe z new_start new_end s
  step (order_by sort) s = set_sort z sort s
  step (create_or_update f previous) s = create_or_update_filter z m f previous s
  step (delete key operator) s = delete_filter z m key operator s
  step clear s = clear_filters z m s

  pub data Reach (s : State N) : State N → Type 0 where
    here : Reach s s
    next : {t : State N} → Reach s t → (a : Action N) → IsAllowed a t → Reach s (step a t)

  create_or_update-step :
      (f : SearchFilter N) (previous : Option (SearchFilter N)) (s : State N)
      → IsAllowed (create_or_update f previous) s
      → IsUnique s.filters
      → IsUnique (create_or_update_filter z m f previous s).filters
  unfolding like
  create_or_update-step f none s a u =
      rw (create_or_update_filter_lem f none s)
        (create_or_update-IsUnique f none s.filters u (inl refl))
  create_or_update-step f (some g) s a u =
      rw (create_or_update_filter_lem f (some g) s)
        (create_or_update-IsUnique f (some g) s.filters u (inr a))

  pub step-IsUnique :
      (a : Action N) (s : State N)
      → IsAllowed a s
      → IsUnique s.filters
      → IsUnique (step a s).filters
  unfolding step like
  step-IsUnique (live on) s a u = rw (set_is_on_lem z on s) u
  step-IsUnique (relative clock new_start) s a u =
      rw (set_relative_timeframe_lem z clock new_start s) u
  step-IsUnique (absolute new_start new_end) s a u =
      rw (set_absolute_timeframe_lem z new_start new_end s) u
  step-IsUnique (order_by sort) s a u = unfold set_sort in (rw z.set_lem u)
  step-IsUnique (create_or_update f previous) s a u = create_or_update-step f previous s a u
  step-IsUnique (delete key operator) s a u =
      rw (delete_filter_lem key operator s) (delete-IsUnique (probe key operator) s.filters u)
  step-IsUnique clear s a u = rw (clear_filters_lem s) tt

  -- In every state that the page reaches from the initial one by any sequence of the store's
  -- actions, where each edit names a filter that the store then holds, no two filters have the
  -- same key and operator.
  pub Reach-IsUnique : (c d : ℕ) {s : State N} → Reach (initial_state c d) s → IsUnique s.filters
  unfolding initial_state
  Reach-IsUnique c d here = tt
  Reach-IsUnique c d (next {t} r a h) = step-IsUnique a t h (Reach-IsUnique c d r)
