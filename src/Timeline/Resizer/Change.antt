-- ===== src/Timeline/Resizer/Change.antt =====
-- A drag of the grip changes the column once, when it is let go, and within its limits.
use teletrace.Base.{◌≡◌, refl, ap, true, false, Option, none, some, List, [], ◌∷◌, ◌++◌, ◌>>=◌, map}
use teletrace.Numbers.Int.{ℤ, ◌≤ℤ◌}
use teletrace.Timeline.Dragging.{
  Rect, Bounds, MouseEvent, Handled, drag_start, drag_move, drag_end, get_bounds, get_position,
  handle_drag_event, stop_dragging, reset_bounds,
}
use teletrace.Timeline.Dragging.Held.{
  press, shift_to, let_go, IsHeld, handle_drag_event-press, handle_drag_event-shift_to,
  handle_drag_event-let_go, get_bounds-none,
}
use teletrace.Timeline.Dragging.Bounded.{get_position-bounded}
use teletrace.Timeline.Resizer.{
  Resizer, get_resizer_bounds, call_resizer, resizer_drag_update, resizer_drag_end, resizer_after,
  drag_resizer,
}

-- The changes that some events make, and the resizer after them.
abbrev pub run_resizer :
    Rect → (min max : ℤ) → List MouseEvent → Resizer → Option (List ℤ × Resizer)
run_resizer root min max [] r = some ([], r)
run_resizer root min max (e ∷ es) r = drag_resizer root min max e r >>= (λ (changes, r').
    run_resizer root min max es r' >>= (λ (later, r''). some (changes ++ later, r'')))

-- Pressed at `first`, moved to each of `xs`, let go at `last`.
abbrev pub grip : (first : ℤ) → List ℤ → (last : ℤ) → List MouseEvent
grip first xs last = press first ∷ map shift_to xs ++ let_go last ∷ []

-- The manager is free with its handlers set, and nothing is dragged.
pub record IsAtRest (r : Resizer) : Type 0 where
  pub is_free : r.drag_manager.is_dragging ≡ false
  pub unbound : r.drag_manager.bounds ≡ none
  pub unplaced : r.drag_position ≡ none
  pub starts : r.drag_manager.handles drag_start ≡ true
  pub moves : r.drag_manager.handles drag_move ≡ true
  pub ends : r.drag_manager.handles drag_end ≡ true

module _ (root : Rect) (min max : ℤ) where
  drag_resizer-after :
      (r : Resizer) (e : MouseEvent) {h : Handled}
      → handle_drag_event (get_resizer_bounds root min max) e r.drag_manager ≡ h
      → drag_resizer root min max e r ≡ resizer_after h r
  unfolding drag_resizer resizer_after
  drag_resizer-after r e p = ap (λ h. resizer_after h r) p

  run_resizer-step :
      (e : MouseEvent) (es : List MouseEvent) (r : Resizer) {r1 r' : Resizer}
      {changes later : List ℤ}
      → drag_resizer root min max e r ≡ some (changes, r1)
      → run_resizer root min max es r1 ≡ some (later, r')
      → run_resizer root min max (e ∷ es) r ≡ some (changes ++ later, r')
  run_resizer-step e es r p q = rw (p, q) refl

  run_resizer-let_go :
      (last : ℤ) (b : Bounds) (r : Resizer)
      → IsHeld b r.drag_manager
      → r.drag_manager.handles drag_start ≡ true
      → (r' : Resizer) × (run_resizer root min max (let_go last ∷ []) r
          ≡ some ((get_position last b).value ∷ [], r'))
        × IsAtRest r'
  unfolding resizer_after call_resizer resizer_drag_end reset_bounds stop_dragging
  run_resizer-let_go last b r held starts =
      let e = drag_resizer-after r (let_go last) (handle_drag_event-let_go _ _ last b held) in
      (
        _,
        run_resizer-step (let_go last) [] r e refl,
        record {
          is_free = refl;
          unbound = refl;
          unplaced = refl;
          starts = starts;
          moves = held.moves;
          ends = held.ends;
        },
      )

  run_resizer-held :
      (xs : List ℤ) (last : ℤ) (b : Bounds) (r : Resizer)
      → IsHeld b r.drag_manager
      → r.drag_manager.handles drag_start ≡ true
      → (r' : Resizer) × (run_resizer root min max (map shift_to xs ++ let_go last ∷ []) r
          ≡ some ((get_position last b).value ∷ [], r'))
        × IsAtRest r'
  unfolding resizer_after call_resizer resizer_drag_update
  run_resizer-held [] last b r held starts = run_resizer-let_go last b r held starts
  run_resizer-held (x ∷ xs) last b r held starts =
      let m = record r.drag_manager { bounds = some b } in
      let r1 : Resizer = record {
        drag_manager = m;
        drag_position = some (get_position x b).value;
      } in
      let (r', e, rest) =
        run_resizer-held xs last b r1
          (record { drags = held.drags; bounded = refl; moves = held.moves; ends = held.ends })
          starts in
      (
        r',
        run_resizer-step (shift_to x) _ r
            (drag_resizer-after r (shift_to x) (handle_drag_event-shift_to _ _ x b held)) e,
        rest,
      )

  -- A grip at rest (its manager free with its handlers set, no bounds kept, nothing dragged) that is
  -- pressed, moved any number of times and let go, with a least position that
  -- is no greater than the greatest: no Error comes, the owner is told of exactly one change, that of
  -- the position where the grip is let go, which is between the two limits, and the grip is at rest
  -- again, without bounds that are kept.
  pub run_resizer-grip :
      (first last : ℤ) (xs : List ℤ) (r : Resizer)
      → min ≤ℤ max
      → IsAtRest r
      → (value : ℤ) × (r' : Resizer) × (run_resizer root min max (grip first xs last) r
          ≡ some (value ∷ [], r'))
        × (value ≡ (get_position last (get_resizer_bounds root min max)).value)
        × (min ≤ℤ value)
        × (value ≤ℤ max)
        × IsAtRest r'
  unfolding resizer_after call_resizer resizer_drag_update get_resizer_bounds
  run_resizer-grip first last xs r ordered rest =
      let b = get_resizer_bounds root min max in
      let kept : get_bounds b r.drag_manager ≡ b = get_bounds-none b r.drag_manager rest.unbound in
      let m = record r.drag_manager {
        listens_drag = true;
        selects_text = false;
        is_dragging = true;
        bounds = some (get_bounds b r.drag_manager);
      } in
      let r1 : Resizer = record {
        drag_manager = m;
        drag_position = some (get_position first (get_bounds b r.drag_manager)).value;
      } in
      let (r', e, rests) =
        run_resizer-held xs last b r1
          (record { drags = refl; bounded = ap some kept; moves = rest.moves; ends = rest.ends })
          rest.starts in
      let (low, high) = get_position-bounded last min max b refl refl ordered in
      (
        (get_position last b).value,
        r',
        run_resizer-step (press first) _ r
            (drag_resizer-after r (press first)
              (handle_drag_event-press _ _ first rest.is_free rest.starts))
            e,
        refl,
        low,
        high,
        rests,
      )
