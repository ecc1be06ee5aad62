-- ===== src/Timeline/Dragging/Held.antt =====
-- What the manager does with the events of one drag: it is pressed, moved and let go.
use teletrace.Base.{◌≡◌, refl, true, false, none, some}
use teletrace.Numbers.Int.{ℤ}
use teletrace.Timeline.Dragging.{
  mousedown, mousemove, mouseup, MouseEvent, drag_start, drag_move, drag_end, Bounds, Manager,
  get_bounds, get_position, update_at, handled, call_handler, stop_dragging, handle_drag_event,
}

-- The events of a drag, at a place.
abbrev pub press : ℤ → MouseEvent
press x = record { event_type = mousedown; left_button = true; client_x = x }

abbrev pub shift_to : ℤ → MouseEvent
shift_to x = record { event_type = mousemove; left_button = true; client_x = x }

abbrev pub let_go : ℤ → MouseEvent
let_go x = record { event_type = mouseup; left_button = true; client_x = x }

-- A manager in a drag, with the bounds `b`.
pub record IsHeld (b : Bounds) (m : Manager) : Type 0 where
  pub drags : m.is_dragging ≡ true
  pub bounded : m.bounds ≡ some b
  pub moves : m.handles drag_move ≡ true
  pub ends : m.handles drag_end ≡ true

get_bounds-kept :
    (now : Bounds) (m : Manager) (b : Bounds) → m.bounds ≡ some b → get_bounds now m ≡ b
unfolding get_bounds
get_bounds-kept now m b h = rw h refl

pub get_bounds-none : (now : Bounds) (m : Manager) → m.bounds ≡ none → get_bounds now m ≡ now
unfolding get_bounds
get_bounds-none now m h = rw h refl

module _ (now : Bounds) (m : Manager) where
  pub handle_drag_event-press :
      (x : ℤ)
      → m.is_dragging ≡ false
      → m.handles drag_start ≡ true
      → handle_drag_event now (press x) m
        ≡ handled
            (record m {
              listens_drag = true;
              selects_text = false;
              is_dragging = true;
              bounds = some (get_bounds now m);
            })
            (some (update_at drag_start x (get_position x (get_bounds now m))))
  unfolding handle_drag_event call_handler get_bounds
  handle_drag_event-press x off set = rw (off, set) refl

  pub handle_drag_event-shift_to :
      (x : ℤ) (b : Bounds)
      → IsHeld b m
      → handle_drag_event now (shift_to x) m
        ≡ handled (record m { bounds = some b }) (some (update_at drag_move x (get_position x b)))
  unfolding handle_drag_event call_handler
  handle_drag_event-shift_to x b held =
      simp (held.drags, held.moves, get_bounds-kept now m b held.bounded) refl

  pub handle_drag_event-let_go :
      (x : ℤ) (b : Bounds)
      → IsHeld b m
      → handle_drag_event now (let_go x) m
        ≡ handled
            (record (stop_dragging m) { bounds = some b })
            (some (update_at drag_end x (get_position x b)))
  unfolding handle_drag_event call_handler stop_dragging
  handle_drag_event-let_go x b held =
      simp (held.drags, held.ends, get_bounds-kept now (stop_dragging m) b held.bounded) refl
