-- ===== src/Timeline/ViewRange/Gesture.antt =====
-- A whole drag on the minimap's layer: the mouse is pressed, moved any number of times, and let go.
use teletrace.Base.{◌≡◌, refl, ap, ◌∙◌, true, false, Option, none, some, List, [], ◌∷◌, ◌>>=◌}
use teletrace.Numbers.Int.{ℤ}
use teletrace.Timeline.Dragging.{
  Rect, Bounds, MouseEvent, Handled, drag_start, drag_move, drag_end, get_bounds, get_position,
  stop_dragging, handle_drag_event, reset_bounds,
}
use teletrace.Timeline.Dragging.Held.{
  press, shift_to, let_go, IsHeld, handle_drag_event-press, handle_drag_event-shift_to,
  handle_drag_event-let_go,
}
use teletrace.Timeline.ViewRange.{
  TimeRange, Reframe, update_view_range_time, update_next_view_range_time,
}
use teletrace.Timeline.ViewRange.Minimap.{
  DragType, reframes, shifts_start, shifts_end, Layer, manager_for, get_dragging_bounds, anchor_of,
  frame_of, reframe_drag_update, reframe_drag_end, scrubber_drag_update, scrubber_drag_end,
  call_reframe, call_scrubber, after, drag_on,
}

abbrev pub moves : Rect → DragType → List ℤ → Layer → Option Layer
moves root tag [] l = some l
moves root tag (x ∷ xs) l = drag_on root tag (shift_to x) l >>= moves root tag xs

-- Pressed at `first`, moved to each of `xs`, let go at `last`.
abbrev pub gesture : Rect → DragType → (first : ℤ) → List ℤ → (last : ℤ) → Layer → Option Layer
gesture root tag first xs last l =
    drag_on root tag (press first) l
    >>= (λ pressed. moves root tag xs pressed >>= drag_on root tag (let_go last))

-- The range after a drag between two positions.
abbrev pub dropped : DragType → (first last start stop : ℤ) → TimeRange
dropped reframes first last start stop =
    update_view_range_time (frame_of last first).0 (frame_of last first).1
dropped shifts_start first last start stop = update_view_range_time last stop
dropped shifts_end first last start stop = update_view_range_time start last

-- The manager is free, its handlers are set, and no frame is being drawn.
pub record IsReady (tag : DragType) (l : Layer) : Type 0 where
  pub is_free : (manager_for tag l).is_dragging ≡ false
  pub starts : (manager_for tag l).handles drag_start ≡ true
  pub moves : (manager_for tag l).handles drag_move ≡ true
  pub ends : (manager_for tag l).handles drag_end ≡ true
  pub unframed : l.time.reframe ≡ none

abbrev IsAnchored : DragType → ℤ → TimeRange → Type 0
IsAnchored reframes a t = (v : ℤ) → anchor_of t.reframe v ≡ a
IsAnchored shifts_start a t = a ≡ a
IsAnchored shifts_end a t = a ≡ a

-- In the drag, the range is still that of its start.
record IsUnderway (tag : DragType) (b : Bounds) (a start stop : ℤ) (l : Layer) : Type 0 where
  held : IsHeld b (manager_for tag l)
  starts : l.time.view_start ≡ start
  stops : l.time.view_end ≡ stop
  anchored : IsAnchored tag a l.time

anchor_of-none : (o : Option Reframe) (v : ℤ) → o ≡ none → anchor_of o v ≡ v
anchor_of-none o v h = rw h refl

module _ (root : Rect) where
  drag_on-after :
      (tag : DragType) (l : Layer) (e : MouseEvent) {h : Handled}
      → handle_drag_event (get_dragging_bounds root l.time tag) e (manager_for tag l) ≡ h
      → drag_on root tag e l ≡ after tag h l
  unfolding drag_on after
  drag_on-after tag l e p = ap (λ h. after tag h l) p

  press-IsUnderway :
      (tag : DragType) (x : ℤ) (l : Layer) (b : Bounds)
      → IsReady tag l
      → get_bounds (get_dragging_bounds root l.time tag) (manager_for tag l) ≡ b
      → (l' : Layer) × (drag_on root tag (press x) l ≡ some l')
        × IsUnderway tag b (get_position x b).value l.time.view_start l.time.view_end l'
  unfolding drag_on after call_reframe call_scrubber reframe_drag_update scrubber_drag_update
      update_next_view_range_time
  press-IsUnderway reframes x l b r h = (
    _,
    drag_on-after reframes _ (press x) (handle_drag_event-press _ _ x r.is_free r.starts),
    record {
      held = record { drags = refl; bounded = ap some h; moves = r.moves; ends = r.ends };
      starts = refl;
      stops = refl;
      anchored =
          λ v. anchor_of-none l.time.reframe _ r.unframed ∙ ap (λ c. (get_position x c).value) h;
    },
  )
  press-IsUnderway shifts_start x l b r h = (
    _,
    drag_on-after shifts_start _ (press x) (handle_drag_event-press _ _ x r.is_free r.starts),
    record {
      held = record { drags = refl; bounded = ap some h; moves = r.moves; ends = r.ends };
      starts = refl;
      stops = refl;
      anchored = refl;
    },
  )
  press-IsUnderway shifts_end x l b r h = (
    _,
    drag_on-after shifts_end _ (press x) (handle_drag_event-press _ _ x r.is_free r.starts),
    record {
      held = record { drags = refl; bounded = ap some h; moves = r.moves; ends = r.ends };
      starts = refl;
      stops = refl;
      anchored = refl;
    },
  )

  shift_to-IsUnderway :
      (tag : DragType) (x : ℤ) (l : Layer) (b : Bounds) (a start stop : ℤ)
      → IsUnderway tag b a start stop l
      → (l' : Layer) × (drag_on root tag (shift_to x) l ≡ some l')
        × IsUnderway tag b a start stop l'
  unfolding drag_on after call_reframe call_scrubber reframe_drag_update scrubber_drag_update
      update_next_view_range_time
  shift_to-IsUnderway reframes x l b a start stop u = (
    _,
    drag_on-after reframes _ (shift_to x) (handle_drag_event-shift_to _ _ x b u.held),
    record {
      held = record {
        drags = u.held.drags;
        bounded = refl;
        moves = u.held.moves;
        ends = u.held.ends;
      };
      starts = u.starts;
      stops = u.stops;
      anchored = λ v. u.anchored (get_position x b).value;
    },
  )
  shift_to-IsUnderway shifts_start x l b a start stop u = (
    _,
    drag_on-after shifts_start _ (shift_to x) (handle_drag_event-shift_to _ _ x b u.held),
    record {
      held = record {
        drags = u.held.drags;
        bounded = refl;
        moves = u.held.moves;
        ends = u.held.ends;
      };
      starts = u.starts;
      stops = u.stops;
      anchored = refl;
    },
  )
  shift_to-IsUnderway shifts_end x l b a start stop u = (
    _,
    drag_on-after shifts_end _ (shift_to x) (handle_drag_event-shift_to _ _ x b u.held),
    record {
      held = record {
        drags = u.held.drags;
        bounded = refl;
        moves = u.held.moves;
        ends = u.held.ends;
      };
      starts = u.starts;
      stops = u.stops;
      anchored = refl;
    },
  )

  moves-IsUnderway :
      (tag : DragType) (xs : List ℤ) (l : Layer) (b : Bounds) (a start stop : ℤ)
      → IsUnderway tag b a start stop l
      → (l' : Layer) × (moves root tag xs l ≡ some l') × IsUnderway tag b a start stop l'
  moves-IsUnderway tag [] l b a start stop u = (l, refl, u)
  moves-IsUnderway tag (x ∷ xs) l b a start stop u =
      let (l', e, u') = shift_to-IsUnderway tag x l b a start stop u in
      let (l'', e', u'') = moves-IsUnderway tag xs l' b a start stop u' in (l'', rw e e', u'')

  -- Letting go: the range of the drag, and the manager free again.
  let_go-dropped :
      (tag : DragType) (x : ℤ) (l : Layer) (b : Bounds) (a start stop : ℤ)
      → IsUnderway tag b a start stop l
      → (l' : Layer) × (drag_on root tag (let_go x) l ≡ some l')
        × (l'.time ≡ dropped tag a (get_position x b).value start stop)
        × ((manager_for tag l').is_dragging ≡ false)
  unfolding drag_on after call_reframe call_scrubber reframe_drag_end scrubber_drag_end
      stop_dragging reset_bounds
  let_go-dropped reframes x l b a start stop u = (
    _,
    drag_on-after reframes _ (let_go x) (handle_drag_event-let_go _ _ x b u.held),
    ap
        (λ c.
          update_view_range_time (frame_of (get_position x b).value c).0
            (frame_of (get_position x b).value c).1)
        (u.anchored (get_position x b).value),
    refl,
  )
  let_go-dropped shifts_start x l b a start stop u = (
    _,
    drag_on-after shifts_start _ (let_go x) (handle_drag_event-let_go _ _ x b u.held),
    ap (update_view_range_time (get_position x b).value) u.stops,
    refl,
  )
  let_go-dropped shifts_end x l b a start stop u = (
    _,
    drag_on-after shifts_end _ (let_go x) (handle_drag_event-let_go _ _ x b u.held),
    ap (λ c. update_view_range_time c (get_position x b).value) u.starts,
    refl,
  )

  pub gesture-dropped :
      (tag : DragType) (first last : ℤ) (xs : List ℤ) (l : Layer) (b : Bounds)
      → IsReady tag l
      → get_bounds (get_dragging_bounds root l.time tag) (manager_for tag l) ≡ b
      → (l' : Layer) × (gesture root tag first xs last l ≡ some l')
        × (l'.time
            ≡ dropped tag
                (get_position first b).value
                (get_position last b).value
                l.time.view_start
                l.time.view_end)
        × ((manager_for tag l').is_dragging ≡ false)
  gesture-dropped tag first last xs l b r h =
      let (l1, e1, u1) = press-IsUnderway tag first l b r h in
      let (l2, e2, u2) = moves-IsUnderway tag xs l1 b _ _ _ u1 in
      let (l3, e3, t3, f3) = let_go-dropped tag last l2 b _ _ _ u2 in (l3, rw (e1, e2) e3, t3, f3)
