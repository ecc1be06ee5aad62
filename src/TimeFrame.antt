-- ===== src/TimeFrame.antt =====
-- Everything on the search page that changes the time frame: TimeFrameSelector.tsx,
-- DateTimeSelector.tsx, RefreshButton.tsx and LiveSpansSwitch.tsx of
-- web/src/features/search/components. A `Date` is its milliseconds; each reading of the clock is
-- an argument.
pub mod Run
pub mod Apply
mod Tests
use teletrace.Base.{
  ℕ, ◌≡◌, ◌≤◌, ◌==◌, Bool, true, false, not, Option, none, some, List, [], ◌∷◌, String, str_eq,
  if◌then◌else◌, leb, ltb,
}
use teletrace.Format.{ms_to_nano, nano_to_ms}
use teletrace.Store.State.{State, Zustand}
use teletrace.Store.Slices.{set_relative_timeframe, set_absolute_timeframe, set_is_on}

-- JavaScript's Date in the local time zone: `setHours(getHours() - n)`, `setDate(getDate() - n)`,
-- and `d.setHours` of another date's hours, minutes and seconds. Going back gives no later time.
pub record Calendar : Type 0 where
  pub hours_back : ℕ → ℕ → ℕ
  pub days_back : ℕ → ℕ → ℕ
  pub with_time : (date time : ℕ) → ℕ
  pub hours_back_le : (n ms : ℕ) → hours_back n ms ≤ ms
  pub days_back_le : (n ms : ℕ) → days_back n ms ≤ ms

pub data TimeFrameType : Type 0 where
  relative : (label offset_range relative_to : String) → TimeFrameType
  custom : (label : String) → TimeFrameType

abbrev pub options : List TimeFrameType
options =
    relative "1H" "1h" "now"
    ∷ relative "1D" "1d" "now"
    ∷ relative "3D" "3d" "now"
    ∷ relative "1W" "1w" "now"
    ∷ []

abbrev pub label_of : TimeFrameType → String
label_of (relative label offset_range relative_to) = label
label_of (custom label) = label

-- The selector's own state.
pub record SelectorState : Type 0 where
  pub is_open : Bool
  pub previous_selected : TimeFrameType
  pub is_selected : TimeFrameType

unfoldable pub handle_cancel : SelectorState → SelectorState
handle_cancel s = record s { is_selected = s.previous_selected; is_open = false }

-- The state setters take effect after the handler: `seen` is the state that it closes over.
unfoldable pub handle_custom_click : (seen : SelectorState) → SelectorState → SelectorState
handle_custom_click seen s = record s { is_open = true; previous_selected = seen.is_selected }

module _ (calendar : Calendar) where
  unfoldable pub get_relative_start_time : (clock timestamp : ℕ) → String → ℕ
  unfolding ms_to_nano nano_to_ms
  get_relative_start_time clock timestamp offset =
      let datetime = if timestamp == 0 then clock else nano_to_ms timestamp in
      ms_to_nano (
        if str_eq offset "1h"
        then calendar.hours_back 1 datetime
        else if str_eq offset "1d"
        then calendar.days_back 1 datetime
        else if str_eq offset "3d"
        then calendar.days_back 3 datetime
        else if str_eq offset "1w"
        then calendar.days_back 7 datetime
        else datetime)

  -- `clock`, `clock1` and `clock2` are what the handler, `getRelativeStartTime` and the store read.
  unfoldable pub handle_btn_clicked :
      {N : Type 0}
      → Zustand N
      → (clock clock1 clock2 : ℕ) → TimeFrameType
      → SelectorState × State N
      → SelectorState × State N
  unfolding handle_custom_click get_relative_start_time set_relative_timeframe
  handle_btn_clicked z clock clock1 clock2 value (s, store) =
      let selected = record s { is_selected = value } in
      if str_eq (label_of value) "Custom"
      then (handle_custom_click s selected, store)
      else (elim value [
        | custom label ↦ (selected, store)
        | relative label offset_range relative_to ↦ (
          selected,
          set_relative_timeframe z clock2
              (get_relative_start_time clock1 (ms_to_nano clock) offset_range) store,
        )
      ])

-- The dialog of an absolute time frame: its dates, where `setHours` has changed them in place.
pub record DateTimeState : Type 0 where
  pub start_date : Option ℕ
  pub end_date : Option ℕ
  pub start_time : Option ℕ
  pub end_time : Option ℕ
  pub time_valid : Bool

pub record Range : Type 0 where
  pub start_range : ℕ
  pub end_range : ℕ

unfoldable pub open_date_time : {N : Type 0} → (clock : ℕ) → State N → DateTimeState
unfolding nano_to_ms
open_date_time clock s =
    let start = some (nano_to_ms s.current_timeframe.start_time_unix_nano_sec) in
    let end = some (
      if s.current_timeframe.end_time_unix_nano_sec == 0
      then clock
      else nano_to_ms s.current_timeframe.end_time_unix_nano_sec) in
    record {
      start_date = start;
      end_date = end;
      start_time = start;
      end_time = end;
      time_valid = true;
    }

module _ (calendar : Calendar) where
  -- One end of the range, and the date as `setHours` leaves it.
  unfoldable pub calc_end : (clock : ℕ) → (date time : Option ℕ) → ℕ × Option ℕ
  unfolding ms_to_nano
  calc_end clock none time = (ms_to_nano clock, none)
  calc_end clock (some d) none = (ms_to_nano clock, some d)
  calc_end clock (some d) (some t) =
      let moved = calendar.with_time d t in (ms_to_nano moved, some moved)

  unfoldable pub calc_range : (clock clock1 : ℕ) → DateTimeState → Range × DateTimeState
  unfolding calc_end
  calc_range clock clock1 d =
      let start = calc_end clock d.start_date d.start_time in
      let end = calc_end clock1 d.end_date d.end_time in
      (
        record { start_range = start.0; end_range = end.0 },
        record d { start_date = start.1; end_date = end.1 },
      )

  -- The dialog, whether it closes, and the store; `clock2` is `Date.now()`.
  unfoldable pub handle_apply :
      {N : Type 0}
      → Zustand N
      → (clock clock1 clock2 : ℕ) → DateTimeState × State N
      → DateTimeState × Bool × State N
  unfolding calc_range set_absolute_timeframe ms_to_nano
  handle_apply z clock clock1 clock2 (d, store) =
      let (time_range, moved) = calc_range clock clock1 d in
      let tested =
        if time_range.start_range == 0 then time_range.end_range else time_range.start_range in
      if ltb (ms_to_nano clock2) tested
      then (record moved { time_valid = false }, false, store)
      else if leb time_range.start_range time_range.end_range
      then (
        record moved { time_valid = true },
        true,
        set_absolute_timeframe z time_range.start_range time_range.end_range store,
      )
      else (record moved { time_valid = false }, false, store)

-- `handleRefresh`, on the store; `handleChange` of the live switch, which is disabled unless the
-- time frame is relative.
unfoldable pub handle_refresh : {N : Type 0} → Zustand N → (clock : ℕ) → State N → State N
unfolding set_relative_timeframe set_absolute_timeframe
handle_refresh z clock s =
    if s.current_timeframe.is_relative
    then set_relative_timeframe z clock s.current_timeframe.start_time_unix_nano_sec s
    else set_absolute_timeframe z s.current_timeframe.start_time_unix_nano_sec
        s.current_timeframe.end_time_unix_nano_sec s

unfoldable pub is_disabled : {N : Type 0} → State N → Bool
is_disabled s = not s.current_timeframe.is_relative

unfoldable pub handle_change : {N : Type 0} → Zustand N → Bool → State N → State N
unfolding set_is_on
handle_change z checked s = set_is_on z checked s

-- The effect of SpanSearch.tsx on a change of the live mode.
unfoldable pub live_effect : {N : Type 0} → Zustand N → (clock : ℕ) → State N → State N
unfolding set_relative_timeframe
live_effect z clock s =
    if s.live_spans_state.is_on
    then set_relative_timeframe z clock s.current_timeframe.start_time_unix_nano_sec s
    else s
