-- ===== src/TagSelector/Change.antt =====
-- The selector's values in the stored filters, and what a change of the checkboxes does to them.
use teletrace.Base.{
  ◌≡◌, refl, sym, ap, ◌∙◌, inl, inr, Bool, true, false, ◌&&◌, ◌||◌, Option, none, some, List, [],
  ◌∷◌, String, str_eq, if◌then◌else◌, arith, eq_iff, find, filter, not, Bool-cases, is_some,
}
use teletrace.Numbers.{Numbers}
use teletrace.Search.Types.{Operator, is_in, operator_eq, Scalar, single, array, SearchFilter}
use teletrace.Store.State.{State, Zustand}
use teletrace.Store.Filters.{Immer, has_structure}
use teletrace.Store.Filters.Lookup.{IsUnique}
use teletrace.Store.Slices.{create_or_update_filter, delete_filter}
use teletrace.Store.Slices.Run.{lookup, lookup-create, lookup-delete}
use teletrace.TagSelector.Checkbox.{handle_toggle}

module _ {N : Type 0} where
  abbrev values_of : Option (SearchFilter N) → List (Scalar N)
  values_of none = []
  values_of (some f) = elim f.key_value_filter.value [ single _ ↦ [] | array vs ↦ vs ]

  unfoldable pub extract_filter_array_value : String → List (SearchFilter N) → List (Scalar N)
  unfolding operator_eq
  extract_filter_array_value tag filters = values_of (
      find (λ f. str_eq f.key_value_filter.key tag && operator_eq f.key_value_filter.operator is_in)
        filters)

  -- The filters that narrow the selector's options.
  unfoldable pub other_filters : String → List (SearchFilter N) → List (SearchFilter N)
  unfolding operator_eq
  other_filters tag filters =
      filter
        (λ f.
          not (str_eq f.key_value_filter.key tag && operator_eq f.key_value_filter.operator is_in))
        filters

  abbrev pub filter_of : String → List (Scalar N) → SearchFilter N
  filter_of tag values = record {
    key_value_filter = record { key = tag; value = array values; operator = is_in };
  }

  abbrev pub is_empty : List (Scalar N) → Bool
  is_empty [] = true
  is_empty (v ∷ vs) = false

  has_structure_self :
      (tag : String) (values : List (Scalar N))
      → has_structure tag is_in (filter_of tag values) ≡ true
  unfolding has_structure operator_eq
  has_structure_self tag values = ground (arith, eq_iff tag tag)

  extract-lookup :
      (tag : String) (s : State N)
      → extract_filter_array_value tag s.filters ≡ values_of (lookup tag is_in s)
  unfolding extract_filter_array_value has_structure
  extract-lookup tag s = refl

  present : (o : Option (SearchFilter N)) → is_empty (values_of o) ≡ false → is_some o ≡ true
  present none h = cc
  present (some f) h = refl

module _ {N : Type 0} (z : Zustand N) (m : Immer N) where
  -- `handleCheckboxChange`; the operator of its filter is "in" and the value an array, so that only
  -- the number of values decides.
  unfoldable pub handle_checkbox_change : String → List (Scalar N) → State N → State N
  unfolding delete_filter create_or_update_filter
  handle_checkbox_change tag values s =
      if is_empty values
      then delete_filter z m tag is_in s
      else create_or_update_filter z m (filter_of tag values) none s

  -- A change to values that are not empty, or from values that are not empty.
  lookup-change :
      (key : String) (operator : Operator) (tag : String) (values : List (Scalar N)) (s : State N)
      → IsUnique s.filters
      → is_some (lookup tag is_in s) || not (is_empty values) ≡ true
      → lookup key operator (handle_checkbox_change tag values s) ≡ (
          if has_structure key operator (filter_of tag values)
          then (if is_empty values then none else some (filter_of tag values))
          else lookup key operator s)
  unfolding handle_checkbox_change has_structure
  lookup-change key operator tag [] s u h =
      lookup-delete z m key operator (filter_of tag []) s u (ground arith)
  lookup-change key operator tag (v ∷ vs) s u h =
      lookup-create z m key operator (filter_of tag (v ∷ vs)) s

module _ {N : Type 0} (js : Numbers N) where
  empty-toggle :
      (vs : List (Scalar N)) (o : Scalar N)
      → is_empty (handle_toggle js vs o) ≡ true
      → is_empty vs ≡ false
  unfolding handle_toggle
  empty-toggle [] o h = cc
  empty-toggle (v ∷ vs) o h = refl

module _ {N : Type 0} (js : Numbers N) (z : Zustand N) (m : Immer N) where
  -- The click on an option's checkbox, on the page that shows the stored filters.
  unfoldable pub click : String → Scalar N → State N → State N
  unfolding handle_checkbox_change handle_toggle extract_filter_array_value
  click tag opt s =
      handle_checkbox_change z m tag
        (handle_toggle js (extract_filter_array_value tag s.filters) opt) s

  toggled_present :
      (tag : String) (opt : Scalar N) (s : State N)
      → is_some (lookup tag is_in s)
          || not (is_empty (handle_toggle js (extract_filter_array_value tag s.filters) opt))
        ≡ true
  toggled_present tag opt s =
      elim (Bool-cases
        (is_empty (handle_toggle js (extract_filter_array_value tag s.filters) opt))) [
          | inl e ↦
              let filled = empty-toggle js (extract_filter_array_value tag s.filters) opt e in
              let found =
                present (lookup tag is_in s) (ap is_empty (sym (extract-lookup tag s)) ∙ filled) in
              ground arith
          | inr e ↦ ground arith
        ]

  -- Clicking an option, where the stored filters have distinct keys and operators: afterwards the
  -- tag's "in" filter holds the toggled values, or is gone when none is left, and at every other
  -- key and operator the same filter is found as before.
  pub lookup-click :
      (key : String) (operator : Operator) (tag : String) (opt : Scalar N) (s : State N)
      → IsUnique s.filters
      → lookup key operator (click tag opt s) ≡ (
          let toggled = handle_toggle js (extract_filter_array_value tag s.filters) opt in
          if has_structure key operator (filter_of tag toggled)
          then (if is_empty toggled then none else some (filter_of tag toggled))
          else lookup key operator s)
  unfolding click
  lookup-click key operator tag opt s u =
      lookup-change z m key operator tag _ s u (toggled_present tag opt s)

  values_kept :
      (tag : String) (vs : List (Scalar N))
      → values_of (if is_empty vs then none else some (filter_of tag vs)) ≡ vs
  values_kept tag [] = refl
  values_kept tag (v ∷ vs) = refl

  -- The values that the selector shows as checked after a click are the toggled values of before,
  -- where the stored filters have distinct keys and operators.
  extract-click :
      (tag : String) (opt : Scalar N) (s : State N)
      → IsUnique s.filters
      → extract_filter_array_value tag (click tag opt s).filters
        ≡ handle_toggle js (extract_filter_array_value tag s.filters) opt
  extract-click tag opt s u =
      let toggled = handle_toggle js (extract_filter_array_value tag s.filters) opt in
      rw
        (
          extract-lookup tag (click tag opt s),
          lookup-click tag is_in tag opt s u,
          has_structure_self tag toggled,
        )
        (values_kept tag toggled)
