-- ===== src/Store/Slices.antt =====
-- The actions of spanSearchStore.ts, slice by slice, over zustand's `set` and immer's `produce`.
pub mod Run
pub mod Frames
use teletrace.Base.{
  ℕ, ◌-◌, Bool, true, false, Option, none, some, List, [], ◌∷◌, String, if◌then◌else◌,
}
use teletrace.Format.{get_current_timestamp, one_hour_in_ns}
use teletrace.Search.Types.{Operator, KeyValueFilter, SearchFilter, Sort}
use teletrace.Store.State.{
  LiveSpansState, TimeFrameState, State, Partial, assign, unchanged, Zustand,
}
use teletrace.Store.Filters.{Immer, create_or_update_recipe, delete_recipe}

abbrev pub default_sort_field : String
default_sort_field = "span.startTimeUnixNano"

abbrev pub default_sort_asc : Bool
default_sort_asc = false

module _ {N : Type 0} where
  -- The state that `create` builds; the clock is read once for the start and once for the end.
  unfoldable pub initial_state : (start_clock end_clock : ℕ) → State N
  unfolding get_current_timestamp
  initial_state start_clock end_clock = record {
    live_spans_state = record { is_on = false; interval_in_millis = 2000 };
    current_timeframe = record {
      start_time_unix_nano_sec = get_current_timestamp start_clock - one_hour_in_ns;
      end_time_unix_nano_sec = get_current_timestamp end_clock;
      is_relative = true;
    };
    filters = [];
    sort = record { field = default_sort_field; ascending = default_sort_asc } ∷ [];
  }

module _ {N : Type 0} (z : Zustand N) where
  unfoldable pub set_is_on : Bool → State N → State N
  set_is_on is_on = z.set λ state. (
    state,
    record unchanged {
      live_spans_state = some (record {
        is_on = is_on;
        interval_in_millis = state.live_spans_state.interval_in_millis;
      });
    },
  )

  unfoldable pub set_relative_timeframe : (clock new_start : ℕ) → State N → State N
  unfolding get_current_timestamp
  set_relative_timeframe clock new_start = z.set λ state. (
    state,
    record unchanged {
      current_timeframe = some (record {
        start_time_unix_nano_sec = new_start;
        end_time_unix_nano_sec =
            if state.live_spans_state.is_on then 0 else get_current_timestamp clock;
        is_relative = true;
      });
    },
  )

  -- The updater itself calls `setIsOn(false)`.
  unfoldable pub set_absolute_timeframe : (new_start new_end : ℕ) → State N → State N
  unfolding set_is_on
  set_absolute_timeframe new_start new_end = z.set λ state. (
    set_is_on false state,
    record unchanged {
      current_timeframe = some (record {
        start_time_unix_nano_sec = new_start;
        end_time_unix_nano_sec = new_end;
        is_relative = false;
      });
    },
  )

  unfoldable pub set_sort : List Sort → State N → State N
  set_sort sort = z.set λ state. (state, record unchanged { sort = some sort })

module _ {N : Type 0} (z : Zustand N) (m : Immer N) where
  unfoldable pub create_or_update_filter :
      SearchFilter N → Option (SearchFilter N) → State N → State N
  unfolding create_or_update_recipe
  create_or_update_filter filter previous_filter = z.set λ state. (
    state,
    record unchanged {
      filters = some (m.produce (create_or_update_recipe filter previous_filter) state.filters);
    },
  )

  unfoldable pub delete_filter : String → Operator → State N → State N
  unfolding delete_recipe
  delete_filter key operator = z.set λ state. (
    state,
    record unchanged { filters = some (m.produce (delete_recipe key operator) state.filters) },
  )

  unfoldable pub clear_filters : State N → State N
  clear_filters =
      z.set
        λ state. (state, record unchanged { filters = some (m.produce (λ _. []) state.filters) })
