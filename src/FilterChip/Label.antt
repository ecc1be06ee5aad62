-- ===== src/FilterChip/Label.antt =====
-- How long a filter's value is in its label.
use teletrace.Base.{ℕ, ◌≡◌, ◌≤◌, ◌⊎◌, inl, inr, [], ◌∷◌, String, ltb, arith, Bool-cases}
use teletrace.Numbers.{Numbers}
use teletrace.Search.Types.{str, FilterValue, single, array, SearchFilter}
use teletrace.Search.Scalars.{to_text}
use teletrace.FilterChip.{
  TextOps, format_str_value, format_array_value, get_filter_length, format_filter_value,
}

module _ {N : Type 0} (js : Numbers N) (texts : TextOps) (show : ℕ → String) where
  quoted_le :
      (s : String) (n : ℕ)
      → texts.length s ≤ n
      → texts.length (format_str_value js texts show s n) ≤ 105
  unfolding format_str_value
  quoted_le s n h = elim (Bool-cases (ltb 100 n)) [
    | inl e ↦
        let short = texts.length_substring s 100 in
        rw
          (
            e, texts.length_append, texts.length_append, texts.length_append, texts.length_quote,
            texts.length_dots,
          )
          (omega arith)
    | inr e ↦ rw (e, texts.length_append, texts.length_append, texts.length_quote) (ground arith)
  ]

  -- In a filter's label, a value that is one text, alone or in an array, takes at most 105
  -- characters, however long it is.
  format_filter_value_le :
      (filter : SearchFilter N) (s : String) (value : FilterValue N)
      → (value ≡ single (str s)) ⊎ (value ≡ array (str s ∷ []))
      → filter.key_value_filter.value ≡ value
      → texts.length (format_filter_value js texts show filter filter.key_value_filter.value) ≤ 105
  unfolding format_filter_value format_array_value get_filter_length to_text
  format_filter_value_le filter s value (inl e) h = rw (h, e) (quoted_le s _ (omega arith))
  format_filter_value_le filter s value (inr e) h = rw (h, e) (quoted_le s _ (omega arith))
