-- ===== src/Timeline/ViewRange/Minimap.antt =====
-- TracePageHeader/SpanGraph/ViewingLayer/index.js: the layer over the minimap, with a manager that
-- draws a new frame, and one for each of the two scrubbers.
pub mod Layout
use teletrace.Base.{
  ℕ, ◌≡◌, Bool, true, false, ◌||◌, Option, none, some, is_some, if◌then◌else◌, ◌&&◌, not, get_or,
}
use teletrace.Numbers.Int.{ℤ, pos, ◌+ℤ◌, ◌-ℤ◌, ltb_ℤ, eqb_ℤ}
use teletrace.Timeline.Dragging.{
  one, Rect, Bounds, MouseEvent, UpdateType, drag_start, drag_move, drag_end, mouse_enter,
  mouse_leave, mouse_move, Update, Manager, create, dispose, reset_bounds, Handled, failed, handled,
  handle_minor_mouse_event, handle_drag_event,
}
use teletrace.Timeline.ViewRange.{
  TimeRange, Reframe, NextUpdate, next_cursor, next_shift_start, next_shift_end, next_reframe,
  update_view_range_time, update_next_view_range_time, view_min_range, half_range,
}

-- `dragTypes`.
pub data DragType : Type 0 where
  reframes shifts_start shifts_end : DragType

-- The range of the owner, and the layer's managers and state.
pub record Layer : Type 0 where
  pub time : TimeRange
  pub dragger_reframe : Manager
  pub dragger_start : Manager
  pub dragger_end : Manager
  pub prevent_cursor_line : Bool

-- The handlers that the constructor sets.
abbrev pub sets_handler : DragType → UpdateType → Bool
sets_handler reframes mouse_enter = false
sets_handler reframes mouse_leave = true
sets_handler reframes mouse_move = true
sets_handler reframes drag_start = true
sets_handler reframes drag_move = true
sets_handler reframes drag_end = true
sets_handler shifts_start mouse_enter = true
sets_handler shifts_start mouse_leave = true
sets_handler shifts_start mouse_move = false
sets_handler shifts_start drag_start = true
sets_handler shifts_start drag_move = true
sets_handler shifts_start drag_end = true
sets_handler shifts_end mouse_enter = true
sets_handler shifts_end mouse_leave = true
sets_handler shifts_end mouse_move = false
sets_handler shifts_end drag_start = true
sets_handler shifts_end drag_move = true
sets_handler shifts_end drag_end = true

unfoldable pub create_layer : TimeRange → Layer
unfolding create
create_layer time = record {
  time = time;
  dragger_reframe = create true (sets_handler reframes);
  dragger_start = create true (sets_handler shifts_start);
  dragger_end = create true (sets_handler shifts_end);
  prevent_cursor_line = false;
}

-- `componentWillUnmount`.
unfoldable pub unmount_layer : Layer → Layer
unmount_layer l = record l {
  dragger_reframe = dispose l.dragger_reframe;
  dragger_start = dispose l.dragger_start;
  dragger_end = dispose l.dragger_end;
}

abbrev pub manager_for : DragType → Layer → Manager
manager_for reframes l = l.dragger_reframe
manager_for shifts_start l = l.dragger_start
manager_for shifts_end l = l.dragger_end

abbrev pub put_manager : DragType → Manager → Layer → Layer
put_manager reframes m l = record l { dragger_reframe = m }
put_manager shifts_start m l = record l { dragger_start = m }
put_manager shifts_end m l = record l { dragger_end = m }

-- `_getDraggingBounds`.
unfoldable pub get_dragging_bounds : Rect → TimeRange → DragType → Bounds
get_dragging_bounds root t tag = record {
  client_x_left = root.left;
  width = root.width;
  min_value = some (elim tag [ shifts_end ↦ t.view_start | _ ↦ pos 0 ]);
  max_value = some (elim tag [ shifts_start ↦ t.view_end | _ ↦ pos one ]);
}

-- The anchor of the frame that is being drawn, or the position itself.
abbrev pub anchor_of : Option Reframe → ℤ → ℤ
anchor_of none value = value
anchor_of (some reframe) value = reframe.anchor

-- `_handleReframeMouseMove`, `_handleReframeMouseLeave`, `_handleReframeDragUpdate`.
unfoldable pub reframe_mouse_move : ℤ → TimeRange → TimeRange
reframe_mouse_move value t = update_next_view_range_time (next_cursor (some value)) t

unfoldable pub reframe_mouse_leave : TimeRange → TimeRange
reframe_mouse_leave t = update_next_view_range_time (next_cursor none) t

unfoldable pub reframe_drag_update : ℤ → TimeRange → TimeRange
reframe_drag_update value t =
    update_next_view_range_time
      (next_reframe (record { anchor = anchor_of t.reframe value; shift = value })) t

-- The ends of a frame: those of a frame without width are moved apart, and then a start below 0 or
-- an end above 1 is moved, with the other end at the least distance from it.
unfoldable pub widened : ℤ × ℤ → ℤ × ℤ
widened (start, stop) =
    if eqb_ℤ start stop then (start -ℤ half_range, stop +ℤ half_range) else (start, stop)

unfoldable pub from_zero : ℤ × ℤ → ℤ × ℤ
from_zero (start, stop) =
    if ltb_ℤ start (pos 0) then (pos 0, pos 0 +ℤ view_min_range) else (start, stop)

unfoldable pub to_one : ℤ × ℤ → ℤ × ℤ
to_one (start, stop) =
    if ltb_ℤ (pos one) stop then (pos one -ℤ view_min_range, pos one) else (start, stop)

abbrev pub sorted : (value anchor : ℤ) → ℤ × ℤ
sorted value anchor = if ltb_ℤ value anchor then (value, anchor) else (anchor, value)

-- The frame from an anchor to a position, of `_handleReframeDragEnd` (here and of the header).
unfoldable pub frame_of : (value anchor : ℤ) → ℤ × ℤ
unfolding widened from_zero to_one
frame_of value anchor = to_one (from_zero (widened (sorted value anchor)))

-- `_handleReframeDragEnd`.
unfoldable pub reframe_drag_end : ℤ → TimeRange → TimeRange
unfolding update_view_range_time
reframe_drag_end value t =
    let frame = frame_of value (anchor_of t.reframe value) in update_view_range_time frame.0 frame.1

-- `_handleScrubberEnterLeave`.
unfoldable pub scrubber_enter_leave : UpdateType → Layer → Layer
scrubber_enter_leave type l = record l {
  prevent_cursor_line = elim type [ mouse_enter ↦ true | _ ↦ false ];
}

-- `_handleScrubberDragUpdate`.
unfoldable pub scrubber_drag_update : DragType → ℤ → TimeRange → TimeRange
scrubber_drag_update reframes value t = t
scrubber_drag_update shifts_start value t =
    update_next_view_range_time (next_shift_start (some value)) t
scrubber_drag_update shifts_end value t =
    update_next_view_range_time (next_shift_end (some value)) t

-- `_handleScrubberDragEnd`; none is the Error for a tag that is no scrubber's.
unfoldable pub scrubber_drag_end : DragType → ℤ → Layer → Option Layer
unfolding reset_bounds update_view_range_time
scrubber_drag_end reframes value l = none
scrubber_drag_end shifts_start value l = some (record l {
  time = update_view_range_time value l.time.view_end;
  dragger_start = reset_bounds l.dragger_start;
  prevent_cursor_line = false;
})
scrubber_drag_end shifts_end value l = some (record l {
  time = update_view_range_time l.time.view_start value;
  dragger_end = reset_bounds l.dragger_end;
  prevent_cursor_line = false;
})

-- The handlers that the constructor gives a manager, by the kind of the call.
unfoldable pub call_reframe : Update → Layer → Layer
call_reframe u l = elim u.kind [
  | drag_start ↦ record l { time = reframe_drag_update u.value l.time }
  | drag_move ↦ record l { time = reframe_drag_update u.value l.time }
  | drag_end ↦ record l { time = reframe_drag_end u.value l.time }
  | mouse_move ↦ record l { time = reframe_mouse_move u.value l.time }
  | mouse_leave ↦ record l { time = reframe_mouse_leave l.time }
  | mouse_enter ↦ l
]

unfoldable pub call_scrubber : DragType → Update → Layer → Option Layer
call_scrubber tag u l = elim u.kind [
  | drag_start ↦ some (record l { time = scrubber_drag_update tag u.value l.time })
  | drag_move ↦ some (record l { time = scrubber_drag_update tag u.value l.time })
  | drag_end ↦ scrubber_drag_end tag u.value l
  | mouse_enter ↦ some (scrubber_enter_leave mouse_enter l)
  | mouse_leave ↦ some (scrubber_enter_leave mouse_leave l)
  | mouse_move ↦ some l
]

abbrev pub call_owner : DragType → Update → Layer → Option Layer
call_owner reframes u l = some (call_reframe u l)
call_owner shifts_start u l = call_scrubber shifts_start u l
call_owner shifts_end u l = call_scrubber shifts_end u l

-- The layer after an event that a manager handled; none is an Error.
unfoldable pub after : DragType → Handled → Layer → Option Layer
after tag (failed m) l = none
after tag (handled m none) l = some (put_manager tag m l)
after tag (handled m (some u)) l = call_owner tag u (put_manager tag m l)

-- An event of the mouse for a manager: `handleMouseDown` and the window's events of a drag, and the
-- events of an element that the mouse moves over. The owner has its new range at the next event.
unfoldable pub drag_on : Rect → DragType → MouseEvent → Layer → Option Layer
unfolding after
drag_on root tag e l =
    after tag (handle_drag_event (get_dragging_bounds root l.time tag) e (manager_for tag l)) l

unfoldable pub move_on : Rect → DragType → MouseEvent → Layer → Option Layer
unfolding after
move_on root tag e l =
    after tag (handle_minor_mouse_event (get_dragging_bounds root l.time tag) e (manager_for tag l))
      l
