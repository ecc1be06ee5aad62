-- ===== src/FilterBuilder/Submit.antt =====
-- What the dialog hands to the store, and when.
use teletrace.Base.{
  ◌≡◌, ◌≢◌, ◌↔◌, refl, sym, ◌∙◌, subst, inl, inr, Bool, true, false, not, ◌||◌, Option, none, some,
  List, [], ◌∷◌, map, String, str_eq, arith, All, any, eq_iff, Bool-cases,
}
use teletrace.Numbers.{Numbers}
use teletrace.Search.Types.{
  Operator, ValueInputMode, Scalar, str, num, FilterValue, single, array, KeyValueFilter,
  AvailableTag,
}
use teletrace.FilterBuilder.Value.{
  value_type_by_operators, mode_eq, convert_value, convert_single_value, is_nan, as_list,
}
use teletrace.FilterBuilder.Form.{
  DialogState, refused, submitted, initial_state, is_missing, tag_type, tag_name, validate_form,
  handle_apply,
}

abbrev is_numeric : Option String → Bool
is_numeric none = false
is_numeric (some t) = str_eq t "Int" || str_eq t "Double"

abbrev is_textual : Option String → Bool
is_textual none = false
is_textual (some t) = str_eq t "Str"

empty-numeric : (t : String) → str_eq t "" ≡ true → is_numeric (some t) ≡ false
empty-numeric t e = subst (λ x. is_numeric (some x) ≡ false) (sym ((eq_iff t "").0 e)) refl

empty-textual : (t : String) → str_eq t "" ≡ true → is_textual (some t) ≡ false
empty-textual t e = subst (λ x. is_textual (some x) ≡ false) (sym ((eq_iff t "").0 e)) refl

textual-numeric : (t : String) → str_eq t "Str" ≡ true → is_numeric (some t) ≡ false
textual-numeric t e = subst (λ x. is_numeric (some x) ≡ false) (sym ((eq_iff t "Str").0 e)) refl

module _ {N : Type 0} (js : Numbers N) where
  -- A value is no text for a tag of numbers, no number for a tag of texts, and never NaN.
  abbrev pub IsSound : Option String → Scalar N → Type 0
  IsSound t (str s) = is_numeric t ≡ false
  IsSound t (num n) = (is_textual t ≡ false) × (js.is_nan n ≡ false)

  converted-IsSound :
      (t : Option String) (v : Scalar N)
      → is_nan js (convert_single_value js t v) ≡ false
      → IsSound t (convert_single_value js t v)
  unfolding convert_single_value is_nan
  converted-IsSound none (str s) h = refl
  converted-IsSound none (num n) h = (refl, h)
  converted-IsSound (some t) (str s) h = elim (Bool-cases (str_eq t "")) [
    | inl e ↦ rw e (empty-numeric t e)
    | inr e ↦ elim (Bool-cases (str_eq t "Str")) [
      | inl f ↦ rw (e, f) (textual-numeric t f)
      | inr f ↦ elim (Bool-cases (is_numeric (some t))) [
        | inl g ↦ rw (e, f, g) (f, rw (e, f, g) at h)
        | inr g ↦ rw (e, f, g) g
      ]
    ]
  ]
  converted-IsSound (some t) (num n) h = elim (Bool-cases (str_eq t "")) [
    | inl e ↦ rw e (empty-textual t e, rw e at h)
    | inr e ↦ elim (Bool-cases (str_eq t "Str")) [
      | inl f ↦ rw (e, f) (textual-numeric t f)
      | inr f ↦ elim (Bool-cases (is_numeric (some t))) [
        | inl g ↦ rw (e, f, g) (f, rw (e, f, g) at h)
        | inr g ↦ rw (e, f, g) (f, rw (e, f, g) at h)
      ]
    ]
  ]

  converted-All :
      (t : Option String) (vs : List (Scalar N))
      → any (is_nan js) (map (convert_single_value js t) vs) ≡ false
      → All (IsSound t) (map (convert_single_value js t) vs)
  converted-All t [] h = tt
  converted-All t (v ∷ vs) h =
      (converted-IsSound t v (ground arith), converted-All t vs (ground arith))

  -- The value of a filter that is sent for a tag of some type.
  abbrev pub IsComplete : Option String → FilterValue N → Type 0
  IsComplete t v = (as_list js v ≢ []) × All (IsSound t) (as_list js v)

  converted-IsComplete :
      (t : Option String) (v : FilterValue N)
      → is_missing js v ≡ false
      → any (is_nan js) (as_list js (convert_value js t v)) ≡ false
      → IsComplete t (convert_value js t v)
  unfolding convert_value is_missing
  converted-IsComplete t (single v) m h = (cc, converted-All t (v ∷ []) h)
  converted-IsComplete t (array []) m h = cc
  converted-IsComplete t (array (v ∷ vs)) m h = (cc, converted-All t (v ∷ vs) h)

  abbrev pub is_valued : Operator → Bool
  is_valued operator = not (mode_eq (value_type_by_operators operator) ValueInputMode.none)

  validated-IsComplete :
      (s : DialogState N)
      → (validate_form js s).value ≡ false
      → is_valued s.operator ≡ true
      → IsComplete (tag_type js s.tag) (convert_value js (tag_type js s.tag) s.value)
  unfolding validate_form
  validated-IsComplete s h v =
      converted-IsComplete (tag_type js s.tag) s.value (ground arith) (ground arith)

  key_nonempty : (s : DialogState N) → (validate_form js s).tag ≡ false → tag_name js s.tag ≢ ""
  unfolding validate_form
  key_nonempty s h q = ground (arith, eq_iff (tag_name js s.tag) "")

  submitted_parts :
      (tags : Option (List AvailableTag)) (initial : Option (KeyValueFilter N))
      (s s' : DialogState N) (f : KeyValueFilter N)
      → handle_apply js tags initial s ≡ submitted f s'
      → (f.key ≡ tag_name js s.tag)
        × (f.operator ≡ s.operator)
        × (f.value ≡ convert_value js (tag_type js s.tag) s.value)
        × (s' ≡ initial_state js tags initial)
  unfolding handle_apply
  submitted_parts tags initial s s' f h = ground arith

  -- A filter that the dialog hands to the store has a key, which is the chosen tag's name, and the
  -- chosen operator; if the operator takes a value, the filter has at least one, and each is of the
  -- tag's type: no text for a tag of numbers, no number for a tag of texts, and never NaN. The
  -- dialog then returns to the state that it opened in.
  pub handle_apply_submitted :
      (tags : Option (List AvailableTag)) (initial : Option (KeyValueFilter N))
      (s s' : DialogState N) (f : KeyValueFilter N)
      → handle_apply js tags initial s ≡ submitted f s'
      → (f.key ≢ "")
        × (f.key ≡ tag_name js s.tag)
        × (f.operator ≡ s.operator)
        × (is_valued s.operator ≡ true → IsComplete (tag_type js s.tag) f.value)
        × (s' ≡ initial_state js tags initial)
  unfolding handle_apply
  handle_apply_submitted tags initial s s' f h =
      let e : ((validate_form js s).tag || (validate_form js s).value) ≡ false = ground arith in
      let (k, o, v, d) = submitted_parts tags initial s s' f h in
      (
        λ q. key_nonempty s (ground arith) (sym k ∙ q),
        k,
        o,
        λ w.
            subst (IsComplete (tag_type js s.tag)) (sym v)
              (validated-IsComplete s (ground arith) w),
        d,
      )

  -- The dialog refuses exactly the states with an error, and then changes nothing but the errors
  -- that it shows, which are those of the state.
  handle_apply_refused :
      (tags : Option (List AvailableTag)) (initial : Option (KeyValueFilter N)) (s : DialogState N)
      → (handle_apply js tags initial s ≡ refused (record s { form_error = validate_form js s }))
        ↔ (((validate_form js s).tag || (validate_form js s).value) ≡ true)
  unfolding handle_apply
  handle_apply_refused tags initial s = ground arith
