-- ===== src/Timeline/ViewRange/Header.antt =====
-- TraceTimelineViewer/TimelineHeaderRow/TimelineViewingLayer.js: the layer over the labels of the
-- times, where a position is one within the range that is shown; a frame that is drawn on it narrows
-- that range. Its bounds have no least and no greatest position.
pub mod Zoom
pub mod Layout
use teletrace.Base.{
  ℕ, ◌≡◌, Bool, true, false, Option, none, some, if◌then◌else◌, ◌&&◌, ◌||◌, not, is_some,
}
use teletrace.Numbers.Int.{ℤ, pos, pos_part, ◌+ℤ◌, ◌-ℤ◌, ◌*ℤ◌, div_ℤ, ltb_ℤ, leb_ℤ}
use teletrace.Timeline.Dragging.{
  one, Rect, Bounds, UpdateType, drag_start, drag_move, drag_end, mouse_enter, mouse_leave,
  mouse_move, Update, Manager, create, dispose, reset_bounds, Handled, failed, handled, MouseEvent,
  handle_drag_event, handle_minor_mouse_event,
}
use teletrace.Timeline.ViewRange.{
  TimeRange, next_cursor, next_reframe, update_view_range_time, update_next_view_range_time,
}
use teletrace.Timeline.ViewRange.Minimap.{anchor_of, frame_of}

-- The range of the owner, and the layer's manager.
pub record HeaderLayer : Type 0 where
  pub time : TimeRange
  pub dragger : Manager

abbrev pub sets_header : UpdateType → Bool
sets_header mouse_enter = false
sets_header mouse_leave = true
sets_header mouse_move = true
sets_header drag_start = true
sets_header drag_move = true
sets_header drag_end = true

unfoldable pub create_header : TimeRange → HeaderLayer
create_header time = record { time = time; dragger = create true sets_header }

-- `UNSAFE_componentWillReceiveProps`, by whether the `boundsInvalidator` is another.
unfoldable pub receive_invalidator : (is_other : Bool) → HeaderLayer → HeaderLayer
receive_invalidator is_other l =
    if is_other then record l { dragger = reset_bounds l.dragger } else l

-- `componentWillUnmount`.
unfoldable pub unmount_header : HeaderLayer → HeaderLayer
unmount_header l = record l { dragger = dispose l.dragger }

-- `_getDraggingBounds`.
unfoldable pub get_header_bounds : Rect → Bounds
get_header_bounds root = record {
  client_x_left = root.left;
  width = root.width;
  min_value = none;
  max_value = none;
}

-- `mapFromViewSubRange`, rounded down to a billionth. The source's doubles may exceed the view's end
-- by an error of rounding.
unfoldable pub map_from_view_sub_range : (view_start view_end value : ℤ) → ℤ
map_from_view_sub_range view_start view_end value =
    view_start +ℤ div_ℤ (value *ℤ (view_end -ℤ view_start)) one

-- In a range whose start is before its end.
unfoldable pub map_to_view_sub_range : (view_start view_end value : ℤ) → ℤ
map_to_view_sub_range view_start view_end value =
    div_ℤ ((value -ℤ view_start) *ℤ pos one) (pos_part (view_end -ℤ view_start))

-- `_handleReframeMouseMove`, `_handleReframeMouseLeave`.
unfoldable pub header_mouse_move : ℤ → TimeRange → TimeRange
unfolding map_from_view_sub_range
header_mouse_move value t =
    update_next_view_range_time
      (next_cursor (some (map_from_view_sub_range t.view_start t.view_end value))) t

unfoldable pub header_mouse_leave : TimeRange → TimeRange
header_mouse_leave t = update_next_view_range_time (next_cursor none) t

-- `_handleReframeDragUpdate`.
unfoldable pub header_drag_update : ℤ → TimeRange → TimeRange
header_drag_update value t =
    let shift = map_from_view_sub_range t.view_start t.view_end value in
    update_next_view_range_time
      (next_reframe (record { anchor = anchor_of t.reframe shift; shift = shift })) t

-- `_handleReframeDragEnd`; the frame is computed as that of the minimap.
unfoldable pub header_drag_end : ℤ → TimeRange → TimeRange
header_drag_end value t =
    let shift = map_from_view_sub_range t.view_start t.view_end value in
    let frame = frame_of shift (anchor_of t.reframe shift) in update_view_range_time frame.0 frame.1

-- The handlers that the constructor gives the manager, by the kind of the call.
unfoldable pub call_header : Update → TimeRange → TimeRange
call_header u t = elim u.kind [
  | drag_start ↦ header_drag_update u.value t
  | drag_move ↦ header_drag_update u.value t
  | drag_end ↦ header_drag_end u.value t
  | mouse_move ↦ header_mouse_move u.value t
  | mouse_leave ↦ header_mouse_leave t
  | mouse_enter ↦ t
]

-- The layer after an event that the manager handled; none is an Error.
unfoldable pub header_after : Handled → HeaderLayer → Option HeaderLayer
header_after (failed m) l = none
header_after (handled m none) l = some (record l { dragger = m })
header_after (handled m (some u)) l = some (record { time = call_header u l.time; dragger = m })

unfoldable pub drag_on_header : Rect → MouseEvent → HeaderLayer → Option HeaderLayer
drag_on_header root e l = header_after (handle_drag_event (get_header_bounds root) e l.dragger) l

unfoldable pub move_on_header : Rect → MouseEvent → HeaderLayer → Option HeaderLayer
move_on_header root e l =
    header_after (handle_minor_mouse_event (get_header_bounds root) e l.dragger) l

-- What `getNextViewLayout` returns: nothing in view, or the place of the marker, as positions (the
-- source writes them as percentages).
pub record Marker : Type 0 where
  pub is_dragging_left : Bool
  pub left : ℤ
  pub width : ℤ

-- The two ends of a marker, cut at the edges of the view.
unfoldable pub marker_of : (is_dragging_left : Bool) → (left right : ℤ) → Option Marker
marker_of is_dragging_left left right =
    let cut_left = if ltb_ℤ left (pos 0) then pos 0 else left in
    let cut_right = if ltb_ℤ (pos one) right then pos one else right in
    if leb_ℤ (pos one) left || leb_ℤ right (pos 0)
    then none
    else some (record {
      is_dragging_left = is_dragging_left;
      left = cut_left;
      width = cut_right -ℤ cut_left;
    })

unfoldable pub get_next_view_layout : (start position : ℤ) → Option Marker
unfolding marker_of
get_next_view_layout start position =
    if ltb_ℤ start position
    then marker_of (ltb_ℤ position start) start position
    else marker_of (ltb_ℤ position start) position start

-- `getMarkers`; none draws nothing.
unfoldable pub get_markers : (view_start view_end from to : ℤ) → Option Marker
get_markers view_start view_end from to =
    get_next_view_layout (map_to_view_sub_range view_start view_end from)
      (map_to_view_sub_range view_start view_end to)

-- Something is proposed for the range.
abbrev pub has_next_time_range : TimeRange → Bool
has_next_time_range t = is_some t.reframe || is_some t.shift_end || is_some t.shift_start

-- The place of the line at the cursor in `render`; none draws nothing.
unfoldable pub cursor_position : TimeRange → Option ℤ
cursor_position t = elim t.cursor [
  | none ↦ none
  | some cursor ↦
      (if not (has_next_time_range t) && leb_ℤ t.view_start cursor && leb_ℤ cursor t.view_end
        then some (map_to_view_sub_range t.view_start t.view_end cursor)
        else none)
]
