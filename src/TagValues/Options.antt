-- ===== src/TagValues/Options.antt =====
-- The options of the value selector: AutoCompleteValueSelector.tsx.
use teletrace.Base.{
  ◌≡◌, refl, inl, inr, Bool, true, not, ◌&&◌, Option, none, some, List, [], ◌∷◌, ◌++◌, String,
  str_eq, if◌then◌else◌, arith, All, find, filter, any, is_some, Bool-cases, map,
}
use teletrace.Numbers.{Numbers}
use teletrace.Search.Types.{Operator, operator_eq, Scalar, SearchFilter, TagValue}
use teletrace.Search.Scalars.{scalar_eq}

module _ {N : Type 0} (js : Numbers N) where
  -- The filters that narrow the options: all but the one that is being made.
  unfoldable pub filter_excluding_current :
      String → Operator → List (SearchFilter N) → List (SearchFilter N)
  filter_excluding_current tag operator filters =
      filter
        (λ f.
          not
            (str_eq f.key_value_filter.key tag && operator_eq f.key_value_filter.operator operator))
        filters

  -- `searchTagValues.find((e) => e.value === item)`, as a test.
  abbrev pub is_offered : Scalar N → List (TagValue N) → Bool
  is_offered item options = is_some (find (λ e. scalar_eq js e.value item) options)

  -- The selected options that are missing are pushed to the options, with count 0.
  unfoldable pub add_selected_options : List (Scalar N) → List (TagValue N) → List (TagValue N)
  unfolding scalar_eq
  add_selected_options [] options = options
  add_selected_options (item ∷ items) options = add_selected_options items (
      if is_offered item options
      then options
      else options ++ record { value = item; count = 0 } ∷ [])

  -- `value.includes(v)`.
  abbrev includes : List (Scalar N) → Scalar N → Bool
  includes vs v = any (λ w. scalar_eq js w v) vs

  unfoldable pub get_selected_values :
      List (Scalar N) → Option (List (TagValue N)) → List (TagValue N)
  unfolding scalar_eq
  get_selected_values value none = []
  get_selected_values value (some options) = filter (λ o. includes value o.value) options

  unfoldable pub handle_select_change : List (TagValue N) → List (Scalar N)
  handle_select_change event_value = map (λ v. v.value) event_value

  offered-append :
      (v : Scalar N) (os ps : List (TagValue N))
      → is_offered v os ≡ true
      → is_offered v (os ++ ps) ≡ true
  offered-append v [] ps h = cc
  offered-append v (o ∷ os) ps h = ground (arith, offered-append v os ps)

  offered-last :
      (v : Scalar N) (os : List (TagValue N))
      → scalar_eq js v v ≡ true
      → is_offered v (os ++ record { value = v; count = 0 } ∷ []) ≡ true
  offered-last v [] h = ground arith
  offered-last v (o ∷ os) h = ground (arith, offered-last v os h)

  offered-kept :
      (v : Scalar N) (items : List (Scalar N)) (os : List (TagValue N))
      → is_offered v os ≡ true
      → is_offered v (add_selected_options items os) ≡ true
  unfolding add_selected_options
  offered-kept v [] os h = h
  offered-kept v (i ∷ items) os h = elim (Bool-cases (is_offered i os)) [
    | inl e ↦ rw e (offered-kept v items os h)
    | inr e ↦ rw e (offered-kept v items _ (offered-append v os _ h))
  ]

  offered-step :
      (v : Scalar N) (os : List (TagValue N))
      → scalar_eq js v v ≡ true
      → is_offered v (if is_offered v os then os else os ++ record { value = v; count = 0 } ∷ [])
        ≡ true
  offered-step v os h = elim (Bool-cases (is_offered v os)) [
    | inl e ↦ rw e e
    | inr e ↦ rw e (offered-last v os h)
  ]

  offered-added :
      (items : List (Scalar N)) (os : List (TagValue N))
      → All (λ v. scalar_eq js v v ≡ true) items
      → All (λ v. is_offered v (add_selected_options items os) ≡ true) items
  unfolding add_selected_options
  offered-added [] os h = tt
  offered-added (i ∷ items) os h =
      let next = if is_offered i os then os else os ++ record { value = i; count = 0 } ∷ [] in
      (offered-kept i items next (offered-step i os h.0), offered-added items next h.1)

  added-nothing :
      (items : List (Scalar N)) (os : List (TagValue N))
      → All (λ v. is_offered v os ≡ true) items
      → add_selected_options items os ≡ os
  unfolding add_selected_options
  added-nothing [] os h = refl
  added-nothing (i ∷ items) os h = rw h.0 (added-nothing items os h.1)

  -- If no selected value is NaN (each equals itself), every selected value is offered after the
  -- missing ones are pushed, whatever the backend returned, and a second rendering, which finds
  -- the cached array already changed, pushes nothing more.
  add_selected_options_lem :
      (selected : List (Scalar N)) (options : List (TagValue N))
      → All (λ v. scalar_eq js v v ≡ true) selected
      → All (λ v. is_offered v (add_selected_options selected options) ≡ true) selected
        × (add_selected_options selected (add_selected_options selected options)
            ≡ add_selected_options selected options)
  add_selected_options_lem selected options h =
      let a = offered-added selected options h in (a, added-nothing selected _ a)
