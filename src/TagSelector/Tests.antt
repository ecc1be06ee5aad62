-- ===== src/TagSelector/Tests.antt =====
-- The selector on concrete filters.
use teletrace.Base.{
  ℕ, ◌≡◌, refl, true, false, Option, none, some, List, [], ◌∷◌, if◌then◌else◌, arith,
}
use teletrace.Numbers.Sample.{sample}
use teletrace.Search.Types.{is_in, operator_eq, Scalar, str, num}
use teletrace.Search.Scalars.{scalar_eq}
use teletrace.Store.State.{State, assign, Zustand}
use teletrace.Store.Filters.{Immer, draft_from, finish, has_structure, like}
use teletrace.Store.Slices.Run.{lookup}
use teletrace.TagSelector.Checkbox.{handle_toggle, IsEquality}
use teletrace.TagSelector.Change.{
  extract_filter_array_value, filter_of, click, lookup-click, is_empty,
}

abbrev Num : Type 0
Num = Option ℕ

abbrev zustand : Zustand Num
zustand = record { set = λ u s. assign (u s).0 (u s).1; set_lem = λ u s. refl }

abbrev immer : Immer Num
immer = record {
  produce = λ recipe fs. finish (recipe (draft_from 0 fs));
  produce_lem = λ recipe fs. refl;
}

abbrev chosen : List (Scalar Num)
chosen = str "cart" ∷ num (some 7) ∷ []

abbrev store : State Num
store = record {
  live_spans_state = record { is_on = false; interval_in_millis = 2000 };
  current_timeframe = record {
    start_time_unix_nano_sec = 1;
    end_time_unix_nano_sec = 2;
    is_relative = true;
  };
  filters = filter_of "route" [] ∷ filter_of "service" chosen ∷ [];
  sort = [];
}

sample_equality : IsEquality sample
sample_equality = record { symmetric = λ a b. ground arith; transitive = λ a b c h k. ground arith }

program : Unit {0}
unfolding scalar_eq has_structure operator_eq like
program = tt

lookup-click_example :
    lookup "service" is_in (click sample zustand immer "service" (str "shop") store) ≡ (
      let toggled =
        handle_toggle sample (extract_filter_array_value "service" store.filters) (str "shop") in
      if has_structure "service" is_in (filter_of "service" toggled)
      then (if is_empty toggled then none else some (filter_of "service" toggled))
      else lookup "service" is_in store)
unfolding program
lookup-click_example =
    lookup-click sample zustand immer "service" is_in "service" (str "shop") store
      (refl, (refl, tt))
