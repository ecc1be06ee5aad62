-- ===== src/TagValues/Tests.antt =====
-- The merge and the options on concrete responses.
use mathlib.Core.List.{Perm}
use teletrace.Base.{
  ℕ, ◌≡◌, Option, none, some, List, [], ◌∷◌, Bool, not, ltb, ◌==◌, map_get, values,
}
use teletrace.Numbers.Sample.{sample}
use teletrace.Search.Types.{Scalar, str, num, TagValue}
use teletrace.Search.Scalars.{scalar_eq, to_text}
use teletrace.TagValues.Merge.{
  tag_values_map, merge_tag_values, last_with, zeroed, map_get-tag_values_map,
}
use teletrace.TagValues.Sorted.{IsDescending, merge_tag_values_sorted}

abbrev Num : Type 0
Num = Option ℕ

-- Two numbers are compared, and no text is at least another.
abbrev at_least : Scalar Num → Scalar Num → Bool
at_least (num (some a)) (num (some b)) = not (ltb a b)
at_least _ _ = not (0 == 0)

abbrev cart : ℕ → TagValue Num
cart n = record { value = str "cart"; count = n }

abbrev seven : ℕ → TagValue Num
seven n = record { value = num (some 7); count = n }

abbrev current : List (TagValue Num)
current = cart 2 ∷ []

abbrev all_time : List (TagValue Num)
all_time = seven 5 ∷ cart 9 ∷ []

abbrev selected : List (Scalar Num)
selected = str "cart" ∷ str "shop" ∷ []

program : Unit {0}
unfolding scalar_eq to_text
program = tt

map_get-tag_values_map_example :
    map_get "7" (tag_values_map sample at_least current all_time)
    ≡ (elim (last_with sample at_least "7" current) [
      | some t ↦ some t
      | none ↦ zeroed sample at_least (last_with sample at_least "7" all_time)
    ])
map_get-tag_values_map_example = map_get-tag_values_map sample at_least "7" current all_time

merge_tag_values_sorted_example :
    Perm
      (merge_tag_values sample at_least current all_time)
      (values (tag_values_map sample at_least current all_time))
    × IsDescending (merge_tag_values sample at_least current all_time)
merge_tag_values_sorted_example = merge_tag_values_sorted sample at_least current all_time
