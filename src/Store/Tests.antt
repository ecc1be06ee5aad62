-- ===== src/Store/Tests.antt =====
-- The store on concrete filters; zustand and immer are given by functions that meet their laws.
use teletrace.Base.{ℕ, ◌≡◌, refl, true, none, some, [], ◌∷◌, String, if◌then◌else◌}
use teletrace.Search.Types.{
  Operator, is_in, contains, exists, operator_eq, str, FilterValue, array, single, SearchFilter,
}
use teletrace.Store.State.{State, assign, Zustand}
use teletrace.Store.Filters.{
  Immer, draft_from, finish, like, has_structure, is_filters_structure_equal,
}
use teletrace.Store.Filters.Lookup.{IsUnique}
use teletrace.Store.Slices.{
  initial_state, create_or_update_filter, delete_filter, set_absolute_timeframe,
  set_relative_timeframe,
}
use teletrace.Store.Slices.Run.{
  lookup, lookup-create, lookup-edit, lookup-edit_value, lookup-delete, delete_filter-absent, Reach,
  here, next, Action, create_or_update, Reach-IsUnique, step,
}

abbrev zustand : Zustand ℕ
zustand = record { set = λ u s. assign (u s).0 (u s).1; set_lem = λ u s. refl }

abbrev immer : Immer ℕ
immer = record {
  produce = λ recipe fs. finish (recipe (draft_from 0 fs));
  produce_lem = λ recipe fs. refl;
}

abbrev filter_of : String → Operator → FilterValue ℕ → SearchFilter ℕ
filter_of key operator value = record {
  key_value_filter = record { key = key; value = value; operator = operator };
}

abbrev service : SearchFilter ℕ
service = filter_of "service" is_in (array (str "cart" ∷ []))

abbrev service_shop : SearchFilter ℕ
service_shop = filter_of "service" is_in (array (str "shop" ∷ []))

abbrev route : SearchFilter ℕ
route = filter_of "route" contains (single (str "/pay"))

abbrev start : State ℕ
start = record {
  live_spans_state = record { is_on = true; interval_in_millis = 2000 };
  current_timeframe = record {
    start_time_unix_nano_sec = 5;
    end_time_unix_nano_sec = 0;
    is_relative = true;
  };
  filters = service ∷ route ∷ [];
  sort = [];
}

program : Unit {0}
unfolding create_or_update_filter delete_filter is_filters_structure_equal like has_structure
    operator_eq set_absolute_timeframe set_relative_timeframe initial_state step
program = tt

start-IsUnique : IsUnique start.filters
unfolding program
start-IsUnique = (refl, (refl, tt))

edit_value_loses :
    (create_or_update_filter zustand immer service_shop (some service) start).filters ≡ route ∷ []
unfolding program
edit_value_loses = refl

lookup-create_example :
    lookup "route" exists (create_or_update_filter zustand immer route none start)
    ≡ (if has_structure "route" exists route then some route else lookup "route" exists start)
lookup-create_example = lookup-create zustand immer "route" exists route start

lookup-edit_example :
    lookup "route" contains (create_or_update_filter zustand immer route (some service) start) ≡ (
      if has_structure "route" contains route
      then some route
      else if has_structure "route" contains service
      then none
      else lookup "route" contains start)
unfolding program
lookup-edit_example =
    lookup-edit zustand immer "route" contains route service start start-IsUnique refl refl

lookup-edit_value_example :
    lookup "service" is_in (create_or_update_filter zustand immer service_shop (some service) start)
    ≡ (if has_structure "service" is_in service_shop then none else lookup "service" is_in start)
unfolding program
lookup-edit_value_example =
    lookup-edit_value zustand immer "service" is_in service_shop service start start-IsUnique refl
      refl

lookup-delete_example :
    lookup "route" contains (delete_filter zustand immer "service" is_in start)
    ≡ (if has_structure "route" contains service then none else lookup "route" contains start)
unfolding program
lookup-delete_example =
    lookup-delete zustand immer "route" contains service start start-IsUnique refl

delete_filter-absent_example :
    (delete_filter zustand immer "host" exists start).filters ≡ service ∷ []
unfolding program
delete_filter-absent_example =
    delete_filter-absent zustand immer "host" exists (service ∷ []) route start refl refl

abbrev added : Action ℕ
added = create_or_update service none

abbrev edited : Action ℕ
edited = create_or_update route (some service)

reached :
    Reach zustand immer
      (initial_state 4000000 4000001)
      (step zustand immer edited (step zustand immer added (initial_state 4000000 4000001)))
unfolding program
reached = next (next here added tt) edited refl

Reach-IsUnique_example :
    IsUnique
      (step zustand immer edited (step zustand immer added (initial_state 4000000 4000001))).filters
Reach-IsUnique_example = Reach-IsUnique zustand immer 4000000 4000001 reached
