-- ===== src/Timeline/ViewRange.antt =====
-- TimelineViewer.js: the range of time that the timeline shows, and the parts of it that are only
-- proposed (the cursor, a scrubber or a frame that is being dragged). A position is in billionths of
-- the trace, as in Dragging. `clamp` is lodash's.
pub mod Adjust
pub mod Minimap
pub mod Gesture
pub mod Framing
pub mod Scrubbers
pub mod Header
mod Tests
use teletrace.Base.{ℕ, ◌/◌, ◌-◌, Bool, ◌&&◌, Option, none, some, if◌then◌else◌}
use teletrace.Numbers.Int.{ℤ, pos, negsuc, pos_part, ◌+ℤ◌, ◌-ℤ◌, div_ℤ, ltb_ℤ}
use teletrace.Timeline.Dragging.{one}

-- `VIEW_MIN_RANGE`, 0.01, and `VIEW_CHANGE_BASE` and `VIEW_CHANGE_FAST`, 0.005 and 0.05.
abbrev pub view_min_range : ℤ
view_min_range = pos 10000000

abbrev pub view_change_base : ℕ
view_change_base = 5000000

abbrev pub view_change_fast : ℕ
view_change_fast = 50000000

pub record Reframe : Type 0 where
  pub anchor : ℤ
  pub shift : ℤ

-- `viewRange.time`: the range `current`, and what is proposed.
pub record TimeRange : Type 0 where
  pub view_start : ℤ
  pub view_end : ℤ
  pub cursor : Option ℤ
  pub shift_start : Option ℤ
  pub shift_end : Option ℤ
  pub reframe : Option Reframe

-- `updateViewRangeTime`; nothing is proposed after it.
unfoldable pub update_view_range_time : (start stop : ℤ) → TimeRange
update_view_range_time start stop = record {
  view_start = start;
  view_end = stop;
  cursor = none;
  shift_start = none;
  shift_end = none;
  reframe = none;
}

-- The one part that an update of the proposal has.
pub data NextUpdate : Type 0 where
  next_cursor next_shift_start next_shift_end : Option ℤ → NextUpdate
  next_reframe : Reframe → NextUpdate

-- `updateNextViewRangeTime`.
unfoldable pub update_next_view_range_time : NextUpdate → TimeRange → TimeRange
update_next_view_range_time (next_cursor cursor) t = record t { cursor = cursor }
update_next_view_range_time (next_shift_start shift) t = record t { shift_start = shift }
update_next_view_range_time (next_shift_end shift) t = record t { shift_end = shift }
update_next_view_range_time (next_reframe reframe) t = record t { reframe = some reframe }

-- `VIEW_MIN_RANGE / 2`.
abbrev pub half_range : ℤ
half_range = pos 5000000

abbrev minus : ℕ → ℤ
minus n = pos 0 -ℤ pos n

-- The keys of `shortcutConfig`.
pub data Shortcut : Type 0 where
  pan_left pan_left_fast pan_right pan_right_fast : Shortcut
  zoom_in zoom_in_fast zoom_out zoom_out_fast : Shortcut

-- `shortcutConfig`: the changes of the start and of the end.
unfoldable pub shortcut_config : Shortcut → ℤ × ℤ
shortcut_config pan_left = (minus view_change_base, minus view_change_base)
shortcut_config pan_left_fast = (minus view_change_fast, minus view_change_fast)
shortcut_config pan_right = (pos view_change_base, pos view_change_base)
shortcut_config pan_right_fast = (pos view_change_fast, pos view_change_fast)
shortcut_config zoom_in = (pos view_change_base, minus view_change_base)
shortcut_config zoom_in_fast = (pos view_change_fast, minus view_change_fast)
shortcut_config zoom_out = (minus view_change_base, pos view_change_base)
shortcut_config zoom_out_fast = (minus view_change_fast, pos view_change_fast)

module _ (clamp : ℤ → ℤ → ℤ → ℤ) where
  -- `adjustViewRange`, in exact billionths. In the source's doubles a sum or a difference may be off
  -- by an error of rounding, so that a range which is as wide as the least here may fall short of it
  -- there.
  unfoldable pub adjust_view_range : (start_change end_change : ℤ) → TimeRange → TimeRange
  unfolding update_view_range_time
  adjust_view_range start_change end_change t =
      let start = clamp (t.view_start +ℤ start_change) (pos 0) (pos 990000000) in
      let stop = clamp (t.view_end +ℤ end_change) (pos 10000000) (pos one) in
      let center = t.view_start +ℤ div_ℤ (t.view_end -ℤ t.view_start) 2 in
      if ltb_ℤ (stop -ℤ start) view_min_range
      then (if ltb_ℤ start_change (pos 0) && ltb_ℤ end_change (pos 0)
          then update_view_range_time start (start +ℤ view_min_range)
          else if ltb_ℤ (pos 0) start_change && ltb_ℤ (pos 0) end_change
          then update_view_range_time start (start +ℤ view_min_range)
          else update_view_range_time (center -ℤ half_range) (center +ℤ half_range))
      else update_view_range_time start stop

  -- The handler of a key.
  unfoldable pub shortcut_handler : Shortcut → TimeRange → TimeRange
  unfolding adjust_view_range shortcut_config
  shortcut_handler key t = adjust_view_range (shortcut_config key).0 (shortcut_config key).1 t
