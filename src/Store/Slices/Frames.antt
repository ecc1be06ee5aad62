-- ===== src/Store/Slices/Frames.antt =====
-- The time frame and the live mode: what each action sets and what it leaves alone.
use teletrace.Base.{ℕ, ◌≡◌, Bool, true, false, if◌then◌else◌}
use teletrace.Format.{get_current_timestamp}
use teletrace.Store.State.{State, Zustand}
use teletrace.Store.Slices.{set_is_on, set_relative_timeframe, set_absolute_timeframe}

module _ {N : Type 0} (z : Zustand N) where
  pub set_is_on_lem :
      (is_on : Bool) (s : State N)
      → set_is_on z is_on s ≡ record s {
        live_spans_state = record {
          is_on = is_on;
          interval_in_millis = s.live_spans_state.interval_in_millis;
        };
      }
  unfolding set_is_on
  set_is_on_lem is_on s = z.set_lem _ s

  -- Choosing an absolute time frame turns the live mode off, sets exactly the two given ends, and
  -- leaves the refresh interval, the filters and the sort order as they were: the nested call of
  -- `set` is not undone by the outer one.
  pub set_absolute_timeframe_lem :
      (new_start new_end : ℕ) (s : State N)
      → set_absolute_timeframe z new_start new_end s ≡ record s {
        live_spans_state = record {
          is_on = false;
          interval_in_millis = s.live_spans_state.interval_in_millis;
        };
        current_timeframe = record {
          start_time_unix_nano_sec = new_start;
          end_time_unix_nano_sec = new_end;
          is_relative = false;
        };
      }
  unfolding set_absolute_timeframe
  set_absolute_timeframe_lem new_start new_end s = rw (z.set_lem, set_is_on_lem)

  -- A relative time frame has no fixed end exactly while the live mode is on: its end is then 0,
  -- which the backend reads as now, and else the clock's time. Nothing else changes.
  pub set_relative_timeframe_lem :
      (clock new_start : ℕ) (s : State N)
      → set_relative_timeframe z clock new_start s ≡ record s {
        current_timeframe = record {
          start_time_unix_nano_sec = new_start;
          end_time_unix_nano_sec =
              if s.live_spans_state.is_on then 0 else get_current_timestamp clock;
          is_relative = true;
        };
      }
  unfolding set_relative_timeframe
  set_relative_timeframe_lem clock new_start s = z.set_lem _ s
