-- ===== src/Slider/Tests.antt =====
-- The slider on concrete ranges; `undefined` is NaN among the sample's numbers.
use teletrace.Base.{ℕ, ◌≡◌, refl, true, false, Option, none, some, [], ◌∷◌, if◌then◌else◌}
use teletrace.Numbers.Sample.{sample}
use teletrace.Search.Types.{gte, lte, operator_eq}
use teletrace.Store.State.{State, assign, Zustand}
use teletrace.Store.Filters.{Immer, draft_from, finish, has_structure, like}
use teletrace.Store.Slices.Run.{lookup}
use teletrace.Search.Statistics.{TagStatistics}
use teletrace.Slider.{SliderState, bound_filter, handle_filters}
use teletrace.Slider.Filters.{lookup-handle_filters}

abbrev Num : Type 0
Num = Option ℕ

abbrev zustand : Zustand Num
zustand = record { set = λ u s. assign (u s).0 (u s).1; set_lem = λ u s. refl }

abbrev immer : Immer Num
immer = record {
  produce = λ recipe fs. finish (recipe (draft_from 0 fs));
  produce_lem = λ recipe fs. refl;
}

abbrev store : State Num
store = record {
  live_spans_state = record { is_on = false; interval_in_millis = 2000 };
  current_timeframe = record {
    start_time_unix_nano_sec = 1;
    end_time_unix_nano_sec = 2;
    is_relative = true;
  };
  filters = bound_filter "duration" gte (some 4) ∷ bound_filter "duration" lte (some 8) ∷ [];
  sort = [];
}

abbrev slider : SliderState Num
slider = record {
  slider_values = some 3 ∷ some 7 ∷ [];
  absolute_min = some (some 3);
  absolute_max = some (some 9);
}

abbrev at_zero : SliderState Num
at_zero = record {
  slider_values = some 0 ∷ some 0 ∷ [];
  absolute_min = some (some 0);
  absolute_max = some (some 0);
}

abbrev response : TagStatistics Num
response = record { min = some 2; max = some 8 }

program : Unit {0}
unfolding has_structure operator_eq like
program = tt

lookup-handle_filters_example :
    lookup "duration" gte (handle_filters sample none zustand immer "duration" (slider, store)).1
    ≡ (if has_structure "duration" gte (bound_filter {N = Num} "duration" gte (some 3))
        then none
        else none)
unfolding program
lookup-handle_filters_example =
    lookup-handle_filters sample none zustand immer "duration" gte "duration" (some 3) (some 7)
      (some 3) (some 9) store (refl, (refl, tt))
