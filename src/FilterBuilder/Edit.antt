-- ===== src/FilterBuilder/Edit.antt =====
-- The dialog and the store together: what applying the dialog makes of the stored filters.
use teletrace.Base.{
  ◌≡◌, ◌≢◌, ap, ap₂, ◌∙◌, true, false, ◌||◌, Option, none, some, List, String, if◌then◌else◌, arith,
}
use teletrace.Numbers.{Numbers}
use teletrace.Search.Types.{Operator, KeyValueFilter, SearchFilter, AvailableTag}
use teletrace.Store.State.{State, Zustand}
use teletrace.Store.Filters.{Immer, has_structure, is_filters_structure_equal}
use teletrace.Store.Filters.Refine.{like_iff}
use teletrace.Store.Filters.Lookup.{IsUnique}
use teletrace.Store.Slices.{create_or_update_filter}
use teletrace.Store.Slices.Run.{lookup, is_present, lookup-create, lookup-edit, lookup-edit_value}
use teletrace.FilterBuilder.Value.{convert_value}
use teletrace.FilterBuilder.Form.{
  DialogState, refused, submitted, initial_state, tag_type, tag_name, validate_form, handle_apply,
}

module _ {N : Type 0} where
  has_structure-alike :
      (key : String) (operator : Operator) (f g : SearchFilter N)
      → f.key_value_filter.key ≡ g.key_value_filter.key
      → f.key_value_filter.operator ≡ g.key_value_filter.operator
      → has_structure key operator f ≡ has_structure key operator g
  unfolding has_structure
  has_structure-alike key operator f g k o =
      ap₂ (λ a b. is_filters_structure_equal a key b operator) k o

module _ {N : Type 0} (js : Numbers N) where
  abbrev pub IsValid : DialogState N → Type 0
  IsValid d = ((validate_form js d).tag || (validate_form js d).value) ≡ false

  -- The filter that the dialog's state stands for.
  abbrev pub entered : DialogState N → SearchFilter N
  entered d = record {
    key_value_filter = record {
      key = tag_name js d.tag;
      operator = d.operator;
      value = convert_value js (tag_type js d.tag) d.value;
    };
  }

  handle_apply-valid :
      (tags : Option (List AvailableTag)) (initial : Option (KeyValueFilter N)) (d : DialogState N)
      → IsValid d
      → handle_apply js tags initial d
        ≡ submitted (entered d).key_value_filter (initial_state js tags initial)
  unfolding handle_apply
  handle_apply-valid tags initial d v = rw v

module _ {N : Type 0} (js : Numbers N) (z : Zustand N) (m : Immer N) where
  -- The call `createOrUpdateFilter(newFilter, initialFilter && …)` of a dialog that is applied.
  unfoldable pub apply_to_store :
      Option (List AvailableTag) → Option (KeyValueFilter N) → DialogState N → State N → State N
  unfolding handle_apply create_or_update_filter
  apply_to_store tags initial d s = elim (handle_apply js tags initial d) [
    | refused _ ↦ s
    | submitted f _ ↦
        create_or_update_filter z m (record { key_value_filter = f })
          (elim initial [ none ↦ none | some g ↦ some (record { key_value_filter = g }) ]) s
  ]

  -- Applying the dialog for a new filter stores it: afterwards its key and operator find it, and
  -- all others find what they found before, if the form has no error.
  lookup-apply_new :
      (key : String) (operator : Operator) (tags : Option (List AvailableTag)) (d : DialogState N)
      (s : State N)
      → IsValid js d
      → lookup key operator (apply_to_store tags none d s) ≡ (
          if has_structure key operator (entered js d)
          then some (entered js d)
          else lookup key operator s)
  unfolding apply_to_store
  lookup-apply_new key operator tags d s v =
      rw (handle_apply-valid js tags none d v, apply_to_store)
        (lookup-create z m key operator (entered js d) s)

  -- Applying the dialog to a stored filter after a change of its value alone deletes the filter:
  -- where the stored filters have distinct keys and operators, the form has no error, and the tag
  -- and the operator are still those of the filter that was opened, its key and operator find
  -- nothing afterwards, and all others find what they found before.
  pub lookup-apply_value :
      (key : String) (operator : Operator) (tags : Option (List AvailableTag)) (g : SearchFilter N)
      (d : DialogState N) (s : State N)
      → IsUnique s.filters
      → is_present g s ≡ true
      → IsValid js d
      → tag_name js d.tag ≡ g.key_value_filter.key
      → d.operator ≡ g.key_value_filter.operator
      → lookup key operator (apply_to_store tags (some g.key_value_filter) d s)
        ≡ (if has_structure key operator g then none else lookup key operator s)
  unfolding apply_to_store
  lookup-apply_value key operator tags g d s u p v k o =
      let same = (like_iff g (entered js d)).1 (k, o) in
      rw (handle_apply-valid js tags (some g.key_value_filter) d v, apply_to_store)
        (lookup-edit_value z m key operator (entered js d) g s u p same
          ∙ ap (λ b. if b then none else lookup key operator s)
              (has_structure-alike key operator (entered js d) g k o))

  -- Applying it after a change of the operator replaces the filter, under the same conditions:
  -- afterwards the new filter is found and the opened one is not.
  lookup-apply_operator :
      (key : String) (operator : Operator) (tags : Option (List AvailableTag)) (g : SearchFilter N)
      (d : DialogState N) (s : State N)
      → IsUnique s.filters
      → is_present g s ≡ true
      → IsValid js d
      → d.operator ≢ g.key_value_filter.operator
      → lookup key operator (apply_to_store tags (some g.key_value_filter) d s) ≡ (
          if has_structure key operator (entered js d)
          then some (entered js d)
          else if has_structure key operator g
          then none
          else lookup key operator s)
  unfolding apply_to_store
  lookup-apply_operator key operator tags g d s u p v o =
      rw (handle_apply-valid js tags (some g.key_value_filter) d v, apply_to_store)
        (lookup-edit z m key operator (entered js d) g s u p
          (ground (arith, like_iff g (entered js d))))
