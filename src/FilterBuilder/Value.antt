-- ===== src/FilterBuilder/Value.antt =====
-- How the dialog reads a filter's value: input modes, categories, blank texts, conversion.
use Prim.Native.Char.{code}
use teletrace.Base.{
  ℕ, ◌≡◌, refl, ap, ap₂, Bool, true, false, ◌&&◌, ◌||◌, Option, none, some, List, [], ◌∷◌, map,
  String, ◌==◌, leb, str_eq, if◌then◌else◌, arith,
}
use teletrace.Numbers.{Numbers}
use teletrace.Search.Types.{
  Operator, is_in, not_in, contains, not_contains, exists, not_exists, gt, gte, lt, lte,
  OperatorCategory, ValueInputMode, Scalar, str, num, FilterValue, single, array,
}
use teletrace.Search.Scalars.{to_text, to_number}

unfoldable pub value_type_by_operators : Operator → ValueInputMode
value_type_by_operators is_in = ValueInputMode.select
value_type_by_operators not_in = ValueInputMode.select
value_type_by_operators contains = ValueInputMode.text
value_type_by_operators not_contains = ValueInputMode.text
value_type_by_operators exists = ValueInputMode.none
value_type_by_operators not_exists = ValueInputMode.none
value_type_by_operators gt = ValueInputMode.numeric
value_type_by_operators gte = ValueInputMode.numeric
value_type_by_operators lt = ValueInputMode.numeric
value_type_by_operators lte = ValueInputMode.numeric

-- `===` on two modes.
unfoldable pub mode_eq : ValueInputMode → ValueInputMode → Bool
mode_eq ValueInputMode.select ValueInputMode.select = true
mode_eq ValueInputMode.text ValueInputMode.text = true
mode_eq ValueInputMode.none ValueInputMode.none = true
mode_eq ValueInputMode.numeric ValueInputMode.numeric = true
mode_eq _ _ = false

unfoldable pub operator_category_from_value_type : Option String → OperatorCategory
operator_category_from_value_type none = OperatorCategory.text
operator_category_from_value_type (some value_type) =
    if str_eq value_type ""
    then OperatorCategory.text
    else if str_eq value_type "Str"
    then OperatorCategory.text
    else if str_eq value_type "Int" || str_eq value_type "Double"
    then OperatorCategory.number
    else if str_eq value_type "Bool"
    then OperatorCategory.boolean
    else OperatorCategory.text

-- The code points that `trim` removes.
is_white : ℕ → Bool
is_white c =
    (leb 9 c && leb c 13)
    || c == 32
    || c == 160
    || c == 0x1680
    || (leb 0x2000 c && leb c 0x200a)
    || c == 0x2028
    || c == 0x2029
    || c == 0x202f
    || c == 0x205f
    || c == 0x3000
    || c == 0xfeff

-- `text.trim() === ""`.
unfoldable pub is_blank : String → Bool
unfolding is_white
is_blank String.[] = true
is_blank (String.◌∷◌ c s) = is_white (code c) && is_blank s

module _ {N : Type 0} (js : Numbers N) where
  unfoldable pub convert_single_value : Option String → Scalar N → Scalar N
  unfolding to_text to_number
  convert_single_value none v = v
  convert_single_value (some tag_type) v =
      if str_eq tag_type ""
      then v
      else if str_eq tag_type "Str"
      then str (to_text js v)
      else if str_eq tag_type "Int" || str_eq tag_type "Double"
      then num (to_number js v)
      else v

  unfoldable pub convert_value : Option String → FilterValue N → FilterValue N
  unfolding convert_single_value
  convert_value tag_type (array vs) = array (map (convert_single_value tag_type) vs)
  convert_value tag_type (single v) = single (convert_single_value tag_type v)

  -- `typeof v === "number" && isNaN(v)`.
  unfoldable pub is_nan : Scalar N → Bool
  is_nan (str s) = false
  is_nan (num n) = js.is_nan n

  -- `Array.isArray(v) ? v : [v]`.
  abbrev pub as_list : FilterValue N → List (Scalar N)
  as_list (array vs) = vs
  as_list (single v) = v ∷ []

  convert_single_twice :
      (t : Option String) (v : Scalar N)
      → convert_single_value t (convert_single_value t v) ≡ convert_single_value t v
  unfolding convert_single_value
  convert_single_twice none v = refl
  convert_single_twice (some t) (str s) = ground arith
  convert_single_twice (some t) (num n) = ground arith

  -- Converting a value to the type of its tag a second time changes nothing, so the filter that an
  -- edit starts from is read as it was applied.
  convert_value_idempotent :
      (t : Option String) (v : FilterValue N)
      → convert_value t (convert_value t v) ≡ convert_value t v
  unfolding convert_value
  convert_value_idempotent t (single v) = ap single (convert_single_twice t v)
  convert_value_idempotent t (array vs) = ap array (each vs)
    where
      each :
          (vs : List (Scalar N))
          → map (convert_single_value t) (map (convert_single_value t) vs)
            ≡ map (convert_single_value t) vs
      each [] = refl
      each (v ∷ vs) = ap₂ (◌∷◌) (convert_single_twice t v) (each vs)
