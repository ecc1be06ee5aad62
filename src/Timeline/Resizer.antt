-- ===== src/Timeline/Resizer.antt =====
-- TraceTimelineViewer/TimelineHeaderRow/TimelineColumnResizer.js: the grip between the column of the
-- names and that of the bars, which may be dragged between two positions.
pub mod Change
mod Tests
use teletrace.Base.{
  ℕ, Bool, true, false, Option, none, some, List, [], ◌∷◌, ◌++◌, if◌then◌else◌, ◌&&◌, is_some,
  ◌>>=◌,
}
use teletrace.Numbers.Int.{ℤ, pos, ◌-ℤ◌, ltb_ℤ}
use teletrace.Timeline.Dragging.{
  one, Rect, Bounds, MouseEvent, UpdateType, drag_start, drag_move, drag_end, mouse_enter,
  mouse_leave, mouse_move, Update, Manager, create, dispose, reset_bounds, Handled, failed, handled,
  handle_drag_event,
}

pub record Resizer : Type 0 where
  pub drag_manager : Manager
  pub drag_position : Option ℤ

abbrev pub sets_drag : UpdateType → Bool
sets_drag drag_start = true
sets_drag drag_move = true
sets_drag drag_end = true
sets_drag mouse_enter = false
sets_drag mouse_leave = false
sets_drag mouse_move = false

unfoldable pub create_resizer : Resizer
unfolding create
create_resizer = record { drag_manager = create true sets_drag; drag_position = none }

-- `componentWillUnmount`.
unfoldable pub unmount_resizer : Resizer → Resizer
unmount_resizer r = record r { drag_manager = dispose r.drag_manager }

-- `_getDraggingBounds`, with the properties `min` and `max`.
unfoldable pub get_resizer_bounds : Rect → (min max : ℤ) → Bounds
get_resizer_bounds root min max = record {
  client_x_left = root.left;
  width = root.width;
  min_value = some min;
  max_value = some max;
}

-- `_handleDragUpdate`.
unfoldable pub resizer_drag_update : ℤ → Resizer → Resizer
resizer_drag_update value r = record r { drag_position = some value }

-- `_handleDragEnd`: the value for `onChange`, and the resizer. (The window's "resize" that it sends
-- resets the bounds of the managers, this one's once more.)
unfoldable pub resizer_drag_end : ℤ → Resizer → List ℤ × Resizer
unfolding reset_bounds
resizer_drag_end value r = (
  value ∷ [],
  record { drag_manager = reset_bounds (reset_bounds r.drag_manager); drag_position = none },
)

-- The handlers that the constructor gives the manager, by the kind of the call.
unfoldable pub call_resizer : Update → Resizer → List ℤ × Resizer
unfolding resizer_drag_update resizer_drag_end
call_resizer u r = elim u.kind [
  | drag_start ↦ ([], resizer_drag_update u.value r)
  | drag_move ↦ ([], resizer_drag_update u.value r)
  | drag_end ↦ resizer_drag_end u.value r
  | mouse_enter ↦ ([], r)
  | mouse_leave ↦ ([], r)
  | mouse_move ↦ ([], r)
]

-- An event that the manager handled; none is an Error.
unfoldable pub resizer_after : Handled → Resizer → Option (List ℤ × Resizer)
unfolding call_resizer
resizer_after (failed m) r = none
resizer_after (handled m none) r = some ([], record r { drag_manager = m })
resizer_after (handled m (some u)) r = some (call_resizer u (record r { drag_manager = m }))

unfoldable pub drag_resizer :
    Rect → (min max : ℤ) → MouseEvent → Resizer → Option (List ℤ × Resizer)
unfolding resizer_after
drag_resizer root min max e r =
    resizer_after (handle_drag_event (get_resizer_bounds root min max) e r.drag_manager) r

-- What `render` places, as positions (the source writes them as percentages): the dragger's left end
-- and, in a drag, the distance of its right end from the right edge (less a pixel).
pub record Dragger : Type 0 where
  pub is_dragging_left : Bool
  pub is_dragging_right : Bool
  pub left : ℤ
  pub right : Option ℤ

unfoldable pub render_resizer : (position : ℤ) → Resizer → Dragger
render_resizer position r =
    let at_rest : Dragger = record {
      is_dragging_left = false;
      is_dragging_right = false;
      left = position;
      right = none;
    } in
    if r.drag_manager.is_dragging
    then (elim r.drag_position [
      | none ↦ at_rest
      | some drag_position ↦ record {
        is_dragging_left = ltb_ℤ drag_position position;
        is_dragging_right = ltb_ℤ position drag_position;
        left = if ltb_ℤ drag_position position then drag_position else position;
        right =
            some (pos one -ℤ (if ltb_ℤ drag_position position then position else drag_position));
      }
    ])
    else at_rest
