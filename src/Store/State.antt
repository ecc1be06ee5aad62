-- ===== src/Store/State.antt =====
-- The store's state, one field for each slice of spanSearchStore.ts, and zustand's `set`.
use teletrace.Base.{ℕ, ◌≡◌, Bool, Option, none, List, get_or}
use teletrace.Search.Types.{SearchFilter, Sort}

pub record LiveSpansState : Type 0 where
  pub is_on : Bool
  pub interval_in_millis : ℕ

pub record TimeFrameState : Type 0 where
  pub start_time_unix_nano_sec : ℕ
  pub end_time_unix_nano_sec : ℕ
  pub is_relative : Bool

pub record State (N : Type 0) : Type 0 where
  pub live_spans_state : LiveSpansState
  pub current_timeframe : TimeFrameState
  pub filters : List (SearchFilter N)
  pub sort : List Sort

-- What an updater may return: the slices that it names.
pub record Partial (N : Type 0) : Type 0 where
  pub live_spans_state : Option LiveSpansState
  pub current_timeframe : Option TimeFrameState
  pub filters : Option (List (SearchFilter N))
  pub sort : Option (List Sort)

module _ {N : Type 0} where
  -- `Object.assign({}, state, partial)`.
  abbrev pub assign : State N → Partial N → State N
  assign s p = record {
    live_spans_state = get_or p.live_spans_state s.live_spans_state;
    current_timeframe = get_or p.current_timeframe s.current_timeframe;
    filters = get_or p.filters s.filters;
    sort = get_or p.sort s.sort;
  }

  abbrev pub unchanged : Partial N
  unchanged = record {
    live_spans_state = none;
    current_timeframe = none;
    filters = none;
    sort = none;
  }

-- zustand's `set(updater)`: the updater is called on the current state and may itself call `set`,
-- so it returns the state that its calls leave beside its result. The result is then merged
-- shallowly into the state of that moment.
pub record Zustand (N : Type 0) : Type 0 where
  pub set : (State N → State N × Partial N) → State N → State N
  pub set_lem : (u : State N → State N × Partial N) (s : State N) → set u s ≡ assign (u s).0 (u s).1
