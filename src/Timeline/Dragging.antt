-- ===== src/Timeline/Dragging.antt =====
-- utils/DraggableManager.js: the listeners on the window, the phases of a drag, and the position of
-- the mouse within bounds that are kept. A position is in billionths, rounded down to a whole one
-- (the source has a fraction from 0 to 1 for it); pixels are whole.
pub mod Phases
pub mod Bounded
pub mod Held
use teletrace.Numbers.Int.{ℤ, pos, ◌-ℤ◌, ◌*ℤ◌, div_ℤ, ltb_ℤ}
use teletrace.Base.{
  ℕ, Bool, true, false, not, ◌&&◌, ◌||◌, Option, none, some, List, [], ◌∷◌, ◌++◌, if◌then◌else◌,
}

-- `event.type`, and `other` for one that the handlers refuse.
pub data EventType : Type 0 where
  mousedown mousemove mouseup mouseenter mouseleave other : EventType

pub record MouseEvent : Type 0 where
  pub event_type : EventType
  pub left_button : Bool
  pub client_x : ℤ

-- `updateTypes`.
pub data UpdateType : Type 0 where
  drag_start drag_move drag_end mouse_enter mouse_leave mouse_move : UpdateType

-- The position 1, at the right end.
abbrev pub one : ℕ
one = 1000000000

-- `getBoundingClientRect` of an owner's element.
pub record Rect : Type 0 where
  pub left : ℤ
  pub width : ℕ

-- What `getBounds` of the owner returns; the width is that of an element the mouse is on, and not 0.
pub record Bounds : Type 0 where
  pub client_x_left : ℤ
  pub width : ℕ
  pub min_value : Option ℤ
  pub max_value : Option ℤ

-- What a handler is called with: its kind, the event's place, and its position within the bounds.
pub record Update : Type 0 where
  pub kind : UpdateType
  pub client_x : ℤ
  pub value : ℤ
  pub x : ℤ

-- The manager, with the handlers that are set, and what the window and the document hold of it.
pub record Manager : Type 0 where
  pub is_dragging : Bool
  pub bounds : Option Bounds
  pub reset_bounds_on_resize : Bool
  pub handles : UpdateType → Bool
  pub listens_drag : Bool
  pub listens_resize : Bool
  pub selects_text : Bool

unfoldable pub create : (reset_bounds_on_resize : Bool) → (UpdateType → Bool) → Manager
create reset_bounds_on_resize handles = record {
  is_dragging = false;
  bounds = none;
  reset_bounds_on_resize = reset_bounds_on_resize;
  handles = handles;
  listens_drag = false;
  listens_resize = reset_bounds_on_resize;
  selects_text = true;
}

unfoldable pub stop_dragging : Manager → Manager
stop_dragging m = record m { listens_drag = false; selects_text = true; is_dragging = false }

unfoldable pub dispose : Manager → Manager
unfolding stop_dragging
dispose m =
    let stopped = if m.is_dragging then stop_dragging m else m in
    record stopped {
      listens_resize = if m.reset_bounds_on_resize then false else m.listens_resize;
      bounds = none;
      handles = λ kind. false;
    }

unfoldable pub reset_bounds : Manager → Manager
reset_bounds m = record m { bounds = none }

-- What an event does: an Error, or the manager after it and the handler's call, if there is one.
pub data Handled : Type 0 where
  failed : Manager → Handled
  handled : Manager → Option Update → Handled

pub record Position : Type 0 where
  pub value : ℤ
  pub x : ℤ

abbrev pub is_below : ℤ → Option ℤ → Bool
is_below value none = false
is_below value (some min_value) = ltb_ℤ value min_value

abbrev pub is_above : ℤ → Option ℤ → Bool
is_above value none = false
is_above value (some max_value) = ltb_ℤ max_value value

abbrev pub limit_or : Option ℤ → ℤ → ℤ
limit_or none value = value
limit_or (some limit) value = limit

-- `_getBounds`: those that are kept, or what the owner returns now.
unfoldable pub get_bounds : (now : Bounds) → Manager → Bounds
get_bounds now m = elim m.bounds [ none ↦ now | some bounds ↦ bounds ]

-- `_getPosition`, in the bounds.
unfoldable pub get_position : ℤ → Bounds → Position
get_position client_x b =
    let x = client_x -ℤ b.client_x_left in
    let value = div_ℤ (x *ℤ pos one) b.width in
    let min_value = limit_or b.min_value value in
    let max_value = limit_or b.max_value value in
    if is_below value b.min_value
    then record { value = min_value; x = div_ℤ (min_value *ℤ pos b.width) one }
    else if is_above value b.max_value
    then record { value = max_value; x = div_ℤ (max_value *ℤ pos b.width) one }
    else record { value = value; x = x }

-- The call of a handler at a position.
abbrev pub update_at : UpdateType → ℤ → Position → Update
update_at kind client_x p = record { kind = kind; client_x = client_x; value = p.value; x = p.x }

-- The end of both handlers: `_getPosition` reads the bounds and keeps them, and the handler is called.
unfoldable pub call_handler : (now : Bounds) → UpdateType → ℤ → Manager → Handled
unfolding get_bounds get_position
call_handler now kind client_x m =
    if m.handles kind
    then handled (record m { bounds = some (get_bounds now m) })
        (some (update_at kind client_x (get_position client_x (get_bounds now m))))
    else handled m none

-- `_handleMinorMouseEvent`.
unfoldable pub handle_minor_mouse_event : (now : Bounds) → MouseEvent → Manager → Handled
unfolding call_handler
handle_minor_mouse_event now e m =
    if m.is_dragging || not e.left_button then handled m none else (elim e.event_type [
      | mouseenter ↦ call_handler now mouse_enter e.client_x m
      | mouseleave ↦ call_handler now mouse_leave e.client_x m
      | mousemove ↦ call_handler now mouse_move e.client_x m
      | mousedown ↦ failed m
      | mouseup ↦ failed m
      | other ↦ failed m
    ])

-- `_handleDragEvent`.
unfoldable pub handle_drag_event : (now : Bounds) → MouseEvent → Manager → Handled
unfolding call_handler stop_dragging
handle_drag_event now e m = elim e.event_type [
  | mousedown ↦
      (if m.is_dragging || not e.left_button
        then handled m none
        else call_handler now drag_start e.client_x
            (record m { listens_drag = true; selects_text = false; is_dragging = true }))
  | mousemove ↦ (if m.is_dragging then call_handler now drag_move e.client_x m else handled m none)
  | mouseup ↦
      (if m.is_dragging
        then call_handler now drag_end e.client_x (stop_dragging m)
        else handled m none)
  | mouseenter ↦ failed m
  | mouseleave ↦ failed m
  | other ↦ failed m
]
