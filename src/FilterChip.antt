-- ===== src/FilterChip.antt =====
-- The label of a filter (web/src/features/search/components/FilterChip/FilterChip.tsx).
pub mod Label
use teletrace.Base.{
  ℕ, ◌+◌, ◌-◌, ◌≡◌, ◌≤◌, Bool, true, false, List, [], ◌∷◌, String, ◌&◌, if◌then◌else◌, ltb, length,
}
use teletrace.Numbers.{Numbers}
use teletrace.Search.Types.{
  Operator, is_in, not_in, contains, not_contains, exists, not_exists, gt, gte, lt, lte, Scalar,
  str, num, FilterValue, single, array, KeyValueFilter, SearchFilter,
}
use teletrace.Search.Scalars.{to_text}

-- JavaScript's `s.length`, which adds up, and `s.substring(0, n)`.
pub record TextOps : Type 0 where
  pub length : String → ℕ
  pub substring : String → ℕ → String
  pub length_append : (s t : String) → length (s & t) ≡ length s + length t
  pub length_substring : (s : String) (n : ℕ) → length (substring s n) ≤ n
  pub length_quote : length "\"" ≡ 1
  pub length_dots : length "..." ≡ 3

abbrev pub max_filter_length : ℕ
max_filter_length = 100

unfoldable pub operators_format : Operator → String
operators_format is_in = "IN"
operators_format not_in = "NOT IN"
operators_format contains = "CONTAINS"
operators_format not_contains = "NOT CONTAINS"
operators_format exists = "EXISTS"
operators_format not_exists = "NOT EXISTS"
operators_format gt = ">"
operators_format gte = "≥"
operators_format lt = "<"
operators_format lte = "≤"

-- The source's own words for the operators.
unfoldable pub operator_text : Operator → String
operator_text is_in = "in"
operator_text not_in = "not_in"
operator_text contains = "contains"
operator_text not_contains = "not_contains"
operator_text exists = "exists"
operator_text not_exists = "not_exists"
operator_text gt = "gt"
operator_text gte = "gte"
operator_text lt = "lt"
operator_text lte = "lte"

module _ {N : Type 0} (js : Numbers N) (texts : TextOps) (show : ℕ → String) where
  -- `${array}`: the texts with commas between them.
  abbrev pub join : List (Scalar N) → String
  join [] = ""
  join (v ∷ []) = to_text js v
  join (v ∷ w ∷ vs) = to_text js v & "," & join (w ∷ vs)

  abbrev pub value_text : FilterValue N → String
  value_text (single v) = to_text js v
  value_text (array vs) = join vs

  unfoldable pub format_str_value : String → (filter_length : ℕ) → String
  format_str_value value filter_length =
      "\""
      & (if ltb max_filter_length filter_length
          then texts.substring value max_filter_length & "..."
          else value)
      & "\""

  unfoldable pub format_array_value : List (Scalar N) → (filter_len : ℕ) → String
  unfolding format_str_value
  format_array_value [] filter_len = ""
  format_array_value (str s ∷ []) filter_len = format_str_value s filter_len
  format_array_value (str s ∷ w ∷ vs) filter_len =
      "[\"" & s & "\"...+" & show (length (w ∷ vs)) & "]"
  format_array_value (num n ∷ []) filter_len = js.to_text n
  format_array_value (num n ∷ w ∷ vs) filter_len =
      "[" & js.to_text n & "...+" & show (length (w ∷ vs)) & "]"

  unfoldable pub get_filter_length : SearchFilter N → ℕ
  unfolding operator_text to_text
  get_filter_length filter =
      texts.length filter.key_value_filter.key
      + texts.length (operator_text filter.key_value_filter.operator)
      + texts.length (value_text filter.key_value_filter.value)

  unfoldable pub format_filter_value : SearchFilter N → FilterValue N → String
  unfolding format_array_value get_filter_length
  format_filter_value filter (single (str s)) = format_str_value s (get_filter_length filter)
  format_filter_value filter (single (num n)) = js.to_text n
  format_filter_value filter (array vs) = format_array_value vs (get_filter_length filter)

  unfoldable pub build_filter_label : SearchFilter N → String
  unfolding format_filter_value operators_format
  build_filter_label filter =
      filter.key_value_filter.key
      & " "
      & operators_format filter.key_value_filter.operator
      & " "
      & format_filter_value filter filter.key_value_filter.value
