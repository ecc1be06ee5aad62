-- ===== src/Numbers/Sample.antt =====
-- Some numbers for the tests: the naturals, and NaN as none; the texts of two digits and less that
-- are read stand in a table.
use teletrace.Base.{
  ℕ, ◌-◌, ◌/◌, true, false, Option, none, some, ◌==◌, ltb, not, str_eq, if◌then◌else◌,
}
use teletrace.Numbers.{Numbers}

abbrev pub sample : Numbers (Option ℕ)
sample = record {
  is_truthy = λ n. elim n [ none ↦ false | some k ↦ not (k == 0) ];
  is_nan = λ n. elim n [ none ↦ true | some k ↦ false ];
  to_text = λ n. elim n [ none ↦ "NaN" | some k ↦ (if k == 7 then "7" else "0") ];
  of_text = λ s. if str_eq s "7" then some 7 else if str_eq s "" then some 0 else none;
  equal = λ a b. elim a [ none ↦ false | some k ↦ elim b [ none ↦ false | some j ↦ k == j ] ];
  less = λ a b. elim a [ none ↦ false | some k ↦ elim b [ none ↦ false | some j ↦ ltb k j ] ];
  minus = λ a b. elim a [ none ↦ none | some k ↦ elim b [ none ↦ none | some j ↦ some (k - j) ] ];
  half = λ a. elim a [ none ↦ none | some k ↦ some (k / 2) ];
  zero = some 0;
}
