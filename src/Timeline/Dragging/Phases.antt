-- ===== src/Timeline/Dragging/Phases.antt =====
-- Sequences of events: the listeners are those of a drag, and the calls are in the order of one.
use teletrace.Base.{
  ◌≡◌, refl, inl, inr, Bool, true, false, not, Option, none, some, List, [], ◌∷◌, if◌then◌else◌,
  arith, ◌||◌, Bool-cases,
}
use teletrace.Numbers.Int.{ℤ}
use teletrace.Timeline.Dragging.{
  Bounds, get_bounds, get_position, update_at, mousedown, mousemove, mouseup, mouseenter,
  mouseleave, other, MouseEvent, UpdateType, drag_start, drag_move, drag_end, mouse_enter,
  mouse_leave, mouse_move, Update, Manager, create, stop_dragging, dispose, reset_bounds, Handled,
  failed, handled, call_handler, handle_minor_mouse_event, handle_drag_event,
}

-- What happens to a manager; its owner would return the bounds `now`.
pub data Happening : Type 0 where
  drag : (now : Bounds) → MouseEvent → Happening
  minor : (now : Bounds) → MouseEvent → Happening
  resize : Happening

abbrev pub manager_of : Handled → Manager
manager_of (failed m) = m
manager_of (handled m update) = m

abbrev pub update_of : Handled → Option Update
update_of (failed m) = none
update_of (handled m update) = update

-- The handler of an event, or the reset of the bounds.
abbrev pub happen : Happening → Manager → Handled
happen (drag now e) m = handle_drag_event now e m
happen (minor now e) m = handle_minor_mouse_event now e m
happen resize m = handled (reset_bounds m) none

-- The kinds of the calls of a sequence, and the manager at its end.
abbrev pub put : Option Update → List UpdateType → List UpdateType
put none kinds = kinds
put (some update) kinds = update.kind ∷ kinds

abbrev pub calls : List Happening → Manager → List UpdateType
calls [] m = []
calls (h ∷ hs) m = put (update_of (happen h m)) (calls hs (manager_of (happen h m)))

abbrev pub last : List Happening → Manager → Manager
last [] m = m
last (h ∷ hs) m = last hs (manager_of (happen h m))

-- The listeners are registered, and the selection of text is off, exactly during a drag; that for
-- the window's size is registered if it was asked for.
pub record IsTidy (m : Manager) : Type 0 where
  pub listens : m.listens_drag ≡ m.is_dragging
  pub selects : m.selects_text ≡ not m.is_dragging
  pub resizes : m.listens_resize ≡ m.reset_bounds_on_resize

-- Nothing is left of a manager.
pub record IsDisposed (m : Manager) : Type 0 where
  pub stopped : m.is_dragging ≡ false
  pub no_drag : m.listens_drag ≡ false
  pub no_resize : m.listens_resize ≡ false
  pub selects : m.selects_text ≡ true
  pub no_handler : (kind : UpdateType) → m.handles kind ≡ false

-- The order of the calls, from and to a phase: a drag starts, moves and ends; outside of one there
-- are only the calls for the mouse's other moves.
pub data IsInOrder : (from : Bool) → List UpdateType → (to : Bool) → Type 0 where
  done : {b : Bool} → IsInOrder b [] b
  start :
      {ks : List UpdateType} {b : Bool} → IsInOrder true ks b → IsInOrder false (drag_start ∷ ks) b
  move : {ks : List UpdateType} {b : Bool} → IsInOrder true ks b → IsInOrder true (drag_move ∷ ks) b
  stop : {ks : List UpdateType} {b : Bool} → IsInOrder false ks b → IsInOrder true (drag_end ∷ ks) b
  enter :
      {ks : List UpdateType} {b : Bool}
      → IsInOrder false ks b
      → IsInOrder false (mouse_enter ∷ ks) b
  leave :
      {ks : List UpdateType} {b : Bool}
      → IsInOrder false ks b
      → IsInOrder false (mouse_leave ∷ ks) b
  hover :
      {ks : List UpdateType} {b : Bool} → IsInOrder false ks b → IsInOrder false (mouse_move ∷ ks) b

-- The handlers of a drag are set; those for the mouse's other moves may be unset.
abbrev HandlesDrags : Manager → Type 0
HandlesDrags m =
    (m.handles drag_start ≡ true) × (m.handles drag_move ≡ true) × (m.handles drag_end ≡ true)

-- One event goes from a phase to the next, with its call in order.
pub record IsStep (m : Manager) (r : Handled) : Type 0 where
  pub tidy : IsTidy (manager_of r)
  pub handles : HandlesDrags (manager_of r)
  pub goes :
      {ks : List UpdateType} {b : Bool}
      → IsInOrder (manager_of r).is_dragging ks b
      → IsInOrder m.is_dragging (put (update_of r) ks) b

call_handler_lem :
    (now : Bounds) (kind : UpdateType) (x : ℤ) (m : Manager)
    → m.handles kind ≡ true
    → call_handler now kind x m
      ≡ handled
          (record m { bounds = some (get_bounds now m) })
          (some (update_at kind x (get_position x (get_bounds now m))))
unfolding call_handler
call_handler_lem now kind x m h = rw h refl

stays-IsStep : (m : Manager) → IsTidy m → HandlesDrags m → IsStep m (handled m none)
stays-IsStep m t h = record { tidy = t; handles = h; goes = λ r. r }

fails-IsStep : (m : Manager) → IsTidy m → HandlesDrags m → IsStep m (failed m)
fails-IsStep m t h = record { tidy = t; handles = h; goes = λ r. r }

calls-IsStep :
    (now : Bounds) (kind : UpdateType) (x : ℤ) (m m' : Manager)
    → IsTidy m'
    → HandlesDrags m'
    → m'.handles kind ≡ true
    → ((ks : List UpdateType) (b : Bool)
        → IsInOrder m'.is_dragging ks b
        → IsInOrder m.is_dragging (kind ∷ ks) b)
    → IsStep m (call_handler now kind x m')
calls-IsStep now kind x m m' t h set goes = rw (call_handler_lem now kind x m' set) (record {
  tidy = record { listens = t.listens; selects = t.selects; resizes = t.resizes };
  handles = h;
  goes = λ r. goes _ _ r;
})

-- A call for one of the mouse's other moves, which comes only if its handler is set.
minor_call-IsStep :
    (now : Bounds) (kind : UpdateType) (x : ℤ) (m : Manager)
    → IsTidy m
    → HandlesDrags m
    → ((ks : List UpdateType) (b : Bool)
        → IsInOrder m.is_dragging ks b
        → IsInOrder m.is_dragging (kind ∷ ks) b)
    → IsStep m (call_handler now kind x m)
unfolding call_handler
minor_call-IsStep now kind x m t h goes = elim (Bool-cases (m.handles kind)) [
  | inl set ↦ calls-IsStep now kind x m m t h set goes
  | inr unset ↦ rw unset (stays-IsStep m t h)
]

if-IsStep :
    (m : Manager) (b : Bool) (r r' : Handled)
    → (b ≡ true → IsStep m r)
    → (b ≡ false → IsStep m r')
    → IsStep m (if b then r else r')
if-IsStep m true r r' p q = p refl
if-IsStep m false r r' p q = q refl

drag-IsStep :
    (now : Bounds) (e : MouseEvent) (m : Manager)
    → IsTidy m
    → HandlesDrags m
    → IsStep m (handle_drag_event now e m)
unfolding handle_drag_event stop_dragging
drag-IsStep now e m t h =
    elim e.event_type as (λ k. IsStep m (handle_drag_event now (record e { event_type = k }) m)) [
      | mousedown ↦
          if-IsStep m (m.is_dragging || not e.left_button) _ _ (λ ignored. stays-IsStep m t h)
            (λ heeded.
              calls-IsStep now drag_start e.client_x m
                (record m { listens_drag = true; selects_text = false; is_dragging = true })
                (record { listens = refl; selects = refl; resizes = t.resizes }) h h.0
                (λ ks b r. let off : m.is_dragging ≡ false = ground arith in rw off (start r)))
      | mousemove ↦
          if-IsStep m m.is_dragging _ _
            (λ on.
              calls-IsStep now drag_move e.client_x m m t h h.1
                (λ ks b r. rw on (move (rw on at r))))
            (λ off. stays-IsStep m t h)
      | mouseup ↦
          if-IsStep m m.is_dragging _ _
            (λ on.
              calls-IsStep now drag_end e.client_x m (stop_dragging m)
                (record { listens = refl; selects = refl; resizes = t.resizes }) h h.2
                (λ ks b r. rw on (stop r)))
            (λ off. stays-IsStep m t h)
      | mouseenter ↦ fails-IsStep m t h
      | mouseleave ↦ fails-IsStep m t h
      | other ↦ fails-IsStep m t h
    ]

minor-IsStep :
    (now : Bounds) (e : MouseEvent) (m : Manager)
    → IsTidy m
    → HandlesDrags m
    → IsStep m (handle_minor_mouse_event now e m)
unfolding handle_minor_mouse_event
minor-IsStep now e m t h = elim (Bool-cases (m.is_dragging || not e.left_button)) [
  | inl ignored ↦ rw ignored (stays-IsStep m t h)
  | inr heeded ↦
      let off : m.is_dragging ≡ false = ground arith in
      rw heeded
        (elim e.event_type
          as (λ k. IsStep m (elim k [
            | mouseenter ↦ call_handler now mouse_enter e.client_x m
            | mouseleave ↦ call_handler now mouse_leave e.client_x m
            | mousemove ↦ call_handler now mouse_move e.client_x m
            | mousedown ↦ failed m
            | mouseup ↦ failed m
            | other ↦ failed m
          ])) [
            | mouseenter ↦
                minor_call-IsStep now mouse_enter e.client_x m t h
                  (λ ks b r. rw off (enter (rw off at r)))
            | mouseleave ↦
                minor_call-IsStep now mouse_leave e.client_x m t h
                  (λ ks b r. rw off (leave (rw off at r)))
            | mousemove ↦
                minor_call-IsStep now mouse_move e.client_x m t h
                  (λ ks b r. rw off (hover (rw off at r)))
            | mousedown ↦ fails-IsStep m t h
            | mouseup ↦ fails-IsStep m t h
            | other ↦ fails-IsStep m t h
          ])
]

happen-IsStep : (x : Happening) (m : Manager) → IsTidy m → HandlesDrags m → IsStep m (happen x m)
unfolding reset_bounds
happen-IsStep (drag now e) m t h = drag-IsStep now e m t h
happen-IsStep (minor now e) m t h = minor-IsStep now e m t h
happen-IsStep resize m t h = record {
  tidy = record { listens = t.listens; selects = t.selects; resizes = t.resizes };
  handles = h;
  goes = λ r. r;
}

calls-IsInOrder :
    (xs : List Happening) (m : Manager)
    → IsTidy m
    → HandlesDrags m
    → IsTidy (last xs m) × IsInOrder m.is_dragging (calls xs m) (last xs m).is_dragging
calls-IsInOrder [] m t h = (t, done)
calls-IsInOrder (x ∷ xs) m t h =
    let step = happen-IsStep x m t h in
    let (tidy, order) = calls-IsInOrder xs (manager_of (happen x m)) step.tidy step.handles in
    (tidy, step.goes order)

dispose-IsDisposed : (m : Manager) → IsTidy m → IsDisposed (dispose m)
unfolding dispose stop_dragging
dispose-IsDisposed m t =
    let listens = t.listens in
    let selects = t.selects in
    let resizes = t.resizes in
    record {
      stopped = ground arith;
      no_drag = ground arith;
      no_resize = ground arith;
      selects = ground arith;
      no_handler = λ kind. refl;
    }

-- Whatever events come, in whatever order and with whatever buttons, a manager whose handlers for the
-- start, the moves and the end of a drag are set, and the others or not, listens to the window's moves,
-- and keeps text from being selected, exactly while it drags. Its calls are in order: a drag starts
-- before it moves or ends, it ends before another starts, and the calls for the mouse's other moves
-- come outside of a drag only. Disposing of it leaves no listener and no handler, whatever its phase.
pub handle_drag_event-IsInOrder :
    (resets : Bool) (handles : UpdateType → Bool) (xs : List Happening)
    → handles drag_start ≡ true
    → handles drag_move ≡ true
    → handles drag_end ≡ true
    → IsTidy (last xs (create resets handles))
      × IsInOrder false
          (calls xs (create resets handles))
          (last xs (create resets handles)).is_dragging
      × IsDisposed (dispose (last xs (create resets handles)))
unfolding create
handle_drag_event-IsInOrder resets handles xs starts moves ends =
    let (tidy, order) =
      calls-IsInOrder xs (create resets handles)
        (record { listens = refl; selects = refl; resizes = refl }) (starts, moves, ends) in
    (tidy, order, dispose-IsDisposed (last xs (create resets handles)) tidy)
