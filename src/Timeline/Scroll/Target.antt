-- ===== src/Timeline/Scroll/Target.antt =====
-- The index that scrolling to the next or the previous span ends at: that of a span that is shown.
-- Which of those it is, is not said.
use teletrace.Base.{
  ℕ, zero, suc, ◌-◌, ◌≤◌, ◌<◌, ◌≡◌, ◌≢◌, ◌==◌, refl, ap, ◌∙◌, subst, inl, inr, String, true, false,
  not, ◌&&◌, ◌||◌, Option, some, List, [], length, Map, arith, Bool-cases, Option-cases,
}
use teletrace.Timeline.Scroll.{
  ScrollSpan, Scrolling, check_refs, hidden_loop, is_span_hidden, add_first, span_at, step_back,
  boundary_of, fallback_loop, settle, start_index, stays, goes, scroll_target,
}
use teletrace.Timeline.Scroll.Next.{
  IsIndex, IsOnPath, distance, IsShown, IsWalkable, IsLeft, add_first-Sub, span_at-total,
  is_span_hidden-total, IsShown-fewer, next_loop-IsLeft,
}

-- Without references a span is not hidden.
top-shown :
    (fuel : ℕ) (set ids : List String) (spans_map : Map ScrollSpan)
    → hidden_loop fuel set spans_map [] [] ≢ some (true, ids)
unfolding hidden_loop check_refs
top-shown zero set ids spans_map e = absurd (cc e)
top-shown (suc fuel) set ids spans_map e = absurd (cc e)

module _ (fuel : ℕ) (w : Scrolling) where
  first-shown :
      (set ids : List String) (i : ℕ) (span : ScrollSpan)
      → IsWalkable fuel w
      → 1 ≤ i
      → span_at w.spans i ≡ some span
      → is_span_hidden fuel span set w.spans_map ≡ some (true, ids)
      → 2 ≤ i
  unfolding is_span_hidden
  first-shown set ids i span k p e h = elim (Bool-cases (i == 1)) [
    | inl one_is ↦
        let first : i ≡ 1 = ground arith in
        let top : span.references ≡ [] =
          k.first span (subst (λ n. span_at w.spans n ≡ some span) first e) in
        absurd (
          top-shown fuel set ids w.spans_map
            (subst (λ r. hidden_loop fuel set w.spans_map r [] ≡ some (true, ids)) top h))
    | inr other ↦ ground arith
  ]

  fallback_loop-IsShown :
      (rounds i : ℕ) (set : List String)
      → IsWalkable fuel w
      → IsIndex w i
      → i ≤ rounds
      → (j : ℕ) × (fallback_loop rounds fuel w i set ≡ some j) × IsShown fuel w set j
  unfolding fallback_loop
  fallback_loop-IsShown zero i set k p l = absurd (omega (arith, p.0))
  fallback_loop-IsShown (suc rounds) i set k p l =
      let (span, e) = span_at-total w.spans i p.0 p.1 in
      let (is_hidden, ids, h) = is_span_hidden-total fuel w set i span k e in
      elim (Bool-cases is_hidden) [
        | inl hit ↦
            let h' : is_span_hidden fuel span set w.spans_map ≡ some (true, ids) =
              h ∙ ap (λ b. some (b, ids)) hit in
            let more = first-shown set ids i span k p.0 e h' in
            let (j, q, shown) =
              fallback_loop-IsShown rounds (i - 1) (add_first ids set) k
                (omega arith, omega (arith, p.1)) (omega arith) in
            (
              j,
              simp (e, h', fallback_loop) q,
              IsShown-fewer fuel w set (add_first ids set) j (add_first-Sub ids set) shown,
            )
        | inr miss ↦
            let h' : is_span_hidden fuel span set w.spans_map ≡ some (false, ids) =
              h ∙ ap (λ b. some (b, ids)) miss in
            (
              i,
              simp (e, h', fallback_loop) refl,
              record { indexed = p; span = span; at = e; parent_ids = ids; shown = h' },
            )
      ]

  settle-IsShown :
      (rounds : ℕ) (set : List String) (left : Option ℕ × List String)
      → IsWalkable fuel w
      → 1 ≤ length w.spans
      → length w.spans ≤ rounds
      → IsLeft fuel w set left
      → (j : ℕ) × (settle rounds fuel w left ≡ some j) × IsShown fuel w set j
  unfolding settle
  settle-IsShown rounds set (ended_at, more) k p l is_left =
      let index : IsIndex w (step_back w.is_up (boundary_of w)) = elim (Bool-cases w.is_up) [
        | inl up ↦ simp up (omega arith, omega arith)
        | inr down ↦ simp down (omega arith, omega arith)
      ] in
      let (back, q, shown) =
        fallback_loop-IsShown rounds (step_back w.is_up (boundary_of w)) more k index
          (omega (arith, index.1)) in
      let back_shown = IsShown-fewer fuel w set more back is_left.sub shown in
      elim (Option-cases ended_at) [
        | inl e ↦ (back, simp (e, q, settle) refl, back_shown)
        | inr (j, e) ↦ elim (Bool-cases (j == 1)) [
          | inl first ↦ (back, simp (e, first, q, settle) refl, back_shown)
          | inr later ↦ (
            j,
            simp (e, later, settle) refl,
            IsShown-fewer fuel w set more j is_left.sub (is_left.shown j e),
          )
        ]
      ]

  start_index-IsOnPath :
      (span_index : ℕ)
      → IsIndex w span_index
      → ((span_index == 1 && w.is_up) || (span_index == length w.spans && not w.is_up)) ≡ false
      → IsOnPath w (start_index w span_index)
        × (distance w (start_index w span_index) ≤ length w.spans)
  unfolding start_index
  start_index-IsOnPath span_index p e = elim (Bool-cases w.is_up) [
    | inl up ↦
        let (low, high) = p in
        ((λ is_up. ground (arith, up), λ is_down. absurd (cc (up, is_down))), ground (arith, up))
    | inr down ↦
        let (low, high) = p in
        (
          (
            λ is_up. absurd (cc (down, is_up)),
            λ is_down. (ground (arith, down), ground (arith, down)),
          ),
          ground (arith, down),
        )
  ]

  scroll_target-goes :
      (rounds : ℕ) (collapsed : List String) (span_index : ℕ)
      → IsWalkable fuel w
      → IsIndex w span_index
      → length w.spans < rounds
      → ((span_index == 1 && w.is_up) || (span_index == length w.spans && not w.is_up)) ≡ false
      → (i : ℕ) × (scroll_target rounds fuel w collapsed span_index ≡ some (goes i))
        × IsShown fuel w collapsed i
  unfolding scroll_target
  scroll_target-goes rounds collapsed span_index k p l e =
      let (path, near) = start_index-IsOnPath span_index p e in
      let (left, q, is_left) =
        next_loop-IsLeft fuel w rounds (start_index w span_index) collapsed k path (omega arith) in
      let (i, settled, shown) =
        settle-IsShown rounds collapsed left k (omega (arith, p.0, p.1)) (omega arith) is_left in
      (i, simp (e, q, settled, scroll_target) refl, shown)

  -- From a span of the trace at the edge of the view, scrolling to the next or the previous span stays where it is
  -- exactly at that end of the trace, and else goes to a span of the trace that no collapsed span
  -- hides. Both loops end, with a round for each span and one more, and no index is out of range; the
  -- walk over the parents of a span has to end with its fuel, and the first span to have no parent.
  scroll_target_lem :
      (rounds : ℕ) (collapsed : List String) (span_index : ℕ)
      → IsWalkable fuel w
      → IsIndex w span_index
      → length w.spans < rounds
      → (((span_index == 1 && w.is_up) || (span_index == length w.spans && not w.is_up)) ≡ true
          → scroll_target rounds fuel w collapsed span_index ≡ some stays)
        × (((span_index == 1 && w.is_up) || (span_index == length w.spans && not w.is_up)) ≡ false
            → (i : ℕ) × (scroll_target rounds fuel w collapsed span_index ≡ some (goes i))
              × IsShown fuel w collapsed i)
  unfolding scroll_target
  scroll_target_lem rounds collapsed span_index k p l =
      (λ e. rw (e, scroll_target) refl, λ e. scroll_target-goes rounds collapsed span_index k p l e)
