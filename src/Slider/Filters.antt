-- ===== src/Slider/Filters.antt =====
-- The filters that a committed slider leaves in the store.
use teletrace.Base.{
  ◌≡◌, refl, sym, ap, ap₂, ◌∙◌, inl, inr, true, false, ◌||◌, none, some, List, [], ◌∷◌, String,
  if◌then◌else◌, arith, eq_iff, find, is_some, Bool-cases,
}
use teletrace.Numbers.{Numbers}
use teletrace.Search.Types.{Operator, gte, lte, operator_eq, operator_eq_iff, SearchFilter}
use teletrace.Store.State.{State, Zustand}
use teletrace.Store.Filters.{Immer, has_structure, is_filters_structure_equal}
use teletrace.Store.Filters.Lookup.{IsUnique}
use teletrace.Store.Slices.Run.{
  lookup, lookup-create, lookup-delete, delete, create_or_update, step, step-IsUnique,
}
use teletrace.Slider.{
  SliderState, bound_filter, filter_exists, delete_if_exists, set_bound, handle_filters,
  handle_filters_within,
}

module _ {N : Type 0} where
  bound-lookup :
      (key tag : String) (operator o : Operator) (v : N) (s : State N)
      → has_structure key operator (bound_filter tag o v) ≡ true
      → lookup key operator s ≡ lookup tag o s
  unfolding has_structure is_filters_structure_equal
  bound-lookup key tag operator o v s h =
      ap₂ (λ k p. find (has_structure k p) s.filters) (ground (arith, eq_iff tag key))
        (ground (arith, operator_eq_iff o operator))

  gte-lte : (tag : String) (v : N) → has_structure tag lte (bound_filter tag gte v) ≡ false
  unfolding has_structure is_filters_structure_equal operator_eq
  gte-lte tag v = ground arith

  gte-or-lte :
      (key tag : String) (operator : Operator) (v w : N)
      → has_structure key operator (bound_filter tag gte v) ≡ true
      → has_structure key operator (bound_filter tag lte w) ≡ false
  unfolding has_structure is_filters_structure_equal operator_eq
  gte-or-lte key tag operator v w h = ground arith

module _ {N : Type 0} (z : Zustand N) (m : Immer N) where
  lookup-delete_if_exists :
      (key : String) (operator : Operator) (tag : String) (o : Operator) (v : N)
      (seen : List (SearchFilter N)) (s : State N)
      → IsUnique s.filters
      → find (has_structure tag o) seen ≡ lookup tag o s
      → lookup key operator (delete_if_exists z m tag o seen s) ≡ (
          if has_structure key operator (bound_filter tag o v) then none else lookup key operator s)
  unfolding delete_if_exists filter_exists
  lookup-delete_if_exists key operator tag o v seen s u e =
      elim (Bool-cases (is_some (lookup tag o s))) [
        | inl present ↦
            rw (e, present) (lookup-delete z m key operator (bound_filter tag o v) s u present)
        | inr absent ↦ rw (e, absent) (ground (arith, bound-lookup key tag operator o v s))
      ]

  delete_if_exists-IsUnique :
      (tag : String) (o : Operator) (seen : List (SearchFilter N)) (s : State N)
      → IsUnique s.filters
      → IsUnique (delete_if_exists z m tag o seen s).filters
  unfolding delete_if_exists step
  delete_if_exists-IsUnique tag o seen s u = elim (Bool-cases (filter_exists tag o seen)) [
    | inl e ↦ rw e (step-IsUnique z m (delete tag o) s tt u)
    | inr e ↦ rw e u
  ]

module _ {N : Type 0} (js : Numbers N) (undefined : N) (z : Zustand N) (m : Immer N) where
  lookup-set_bound :
      (key : String) (operator : Operator) (tag : String) (o : Operator) (value bound : N)
      (seen : List (SearchFilter N)) (s : State N)
      → IsUnique s.filters
      → find (has_structure tag o) seen ≡ lookup tag o s
      → lookup key operator (set_bound js undefined z m tag o value bound seen s) ≡ (
          if has_structure key operator (bound_filter tag o value)
          then (if js.equal value bound then none else some (bound_filter tag o value))
          else lookup key operator s)
  unfolding set_bound
  lookup-set_bound key operator tag o value bound seen s u e =
      elim (Bool-cases (js.equal value bound)) [
        | inl same ↦ rw same (lookup-delete_if_exists z m key operator tag o value seen s u e)
        | inr other ↦ rw other (lookup-create z m key operator (bound_filter tag o value) s)
      ]

  set_bound-IsUnique :
      (tag : String) (o : Operator) (value bound : N) (seen : List (SearchFilter N)) (s : State N)
      → IsUnique s.filters
      → IsUnique (set_bound js undefined z m tag o value bound seen s).filters
  unfolding set_bound step
  set_bound-IsUnique tag o value bound seen s u = elim (Bool-cases (js.equal value bound)) [
    | inl e ↦ rw e (delete_if_exists-IsUnique z m tag o seen s u)
    | inr e ↦ rw e (step-IsUnique z m (create_or_update (bound_filter tag o value) none) s tt u)
  ]

  -- Committing the slider at two values v0 and v1 over a known range, where the stored filters have
  -- distinct keys and operators. If both values are in the range, the tag's "gte" filter is v0, or
  -- none where v0 is the range's minimum, and its "lte" filter v1, or none where v1 is the maximum.
  -- If v0 is out of the range, the "gte" filter is gone and the "lte" filter is as before; else if
  -- v1 is, the other way round. All other filters are found as before.
  pub lookup-handle_filters :
      (key : String) (operator : Operator) (tag : String) (v0 v1 min max : N) (store : State N)
      → IsUnique store.filters
      → (let s : SliderState N = record {
        slider_values = v0 ∷ v1 ∷ [];
        absolute_min = some min;
        absolute_max = some max;
      } in
          let bad0 = js.less v0 min || js.less max v0 in
          let bad1 = js.less max v1 || js.less v1 min in
          let before = lookup key operator store in
          lookup key operator (handle_filters js undefined z m tag (s, store)).1 ≡ (
            if has_structure key operator (bound_filter tag gte v0)
            then (if bad0
                then none
                else if bad1
                then before
                else if js.equal v0 min
                then none
                else some (bound_filter tag gte v0))
            else if has_structure key operator (bound_filter tag lte v1)
            then (if bad0
                then before
                else if bad1
                then none
                else if js.equal v1 max
                then none
                else some (bound_filter tag lte v1))
            else before))
  unfolding handle_filters
  lookup-handle_filters key operator tag v0 v1 min max store u =
      let lower_gone =
        lookup-delete_if_exists z m key operator tag gte v0 store.filters store u refl in
      let upper_gone =
        lookup-delete_if_exists z m key operator tag lte v1 store.filters store u refl in
      let clash = gte-or-lte key tag operator v0 v1 in
      elim (Bool-cases (js.less v0 min || js.less max v0)) [
        | inl low ↦ rw (low, handle_filters_within) (ground arith)
        | inr fits0 ↦ elim (Bool-cases (js.less max v1 || js.less v1 min)) [
          | inl high ↦ rw (fits0, high, handle_filters_within) (ground arith)
          | inr fits1 ↦
              let next = set_bound js undefined z m tag gte v0 min store.filters store in
              let set_lower =
                lookup-set_bound key operator tag gte v0 min store.filters store u refl in
              let kept =
                lookup-set_bound tag lte tag gte v0 min store.filters store u refl
                ∙ ap
                    (λ b.
                      if b
                      then (if js.equal v0 min then none else some (bound_filter tag gte v0))
                      else lookup tag lte store)
                    (gte-lte tag v0) in
              let set_upper =
                lookup-set_bound key operator tag lte v1 max store.filters next
                  (set_bound-IsUnique tag gte v0 min store.filters store u) (sym kept) in
              rw (fits0, fits1, handle_filters_within) (set_upper ∙ ground arith)
        ]
      ]
