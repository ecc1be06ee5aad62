-- ===== src/Timeline/ViewRange/Scrubbers.antt =====
-- The scrubbers of the minimap keep the range in order, if their managers read the bounds anew.
use teletrace.Base.{◌≡◌, refl, sym, ap, subst, ◌∙◌, some, none, List, arith}
use teletrace.Numbers.Int.{ℤ, pos, ◌≤ℤ◌}
use teletrace.Timeline.Dragging.{one, Rect, Bounds, get_position}
use teletrace.Timeline.Dragging.Held.{get_bounds-none}
use teletrace.Timeline.Dragging.Bounded.{get_position-bounded}
use teletrace.Timeline.ViewRange.{TimeRange, update_view_range_time}
use teletrace.Timeline.ViewRange.Minimap.{
  DragType, reframes, shifts_start, shifts_end, Layer, manager_for, get_dragging_bounds,
}
use teletrace.Timeline.ViewRange.Gesture.{gesture, IsReady, gesture-dropped, dropped}
use teletrace.Timeline.ViewRange.Framing.{frame_of-IsFrame}

-- A range within the trace, in order.
pub record IsOrdered (t : TimeRange) : Type 0 where
  pub starts : pos 0 ≤ℤ t.view_start
  pub ordered : t.view_start ≤ℤ t.view_end
  pub ends : t.view_end ≤ℤ pos one

dropped-IsOrdered :
    (root : Rect) (tag : DragType) (first last : ℤ) (t : TimeRange)
    → IsOrdered t
    → IsOrdered (
        dropped tag
          (get_position first (get_dragging_bounds root t tag)).value
          (get_position last (get_dragging_bounds root t tag)).value
          t.view_start
          t.view_end)
unfolding get_dragging_bounds update_view_range_time
dropped-IsOrdered root reframes first last t o =
    let b = get_dragging_bounds root t reframes in
    let (a, c) = get_position-bounded first (pos 0) (pos one) b refl refl (omega arith) in
    let (d, e) = get_position-bounded last (pos 0) (pos one) b refl refl (omega arith) in
    let frame = frame_of-IsFrame (get_position last b).value (get_position first b).value d e a c in
    let less = frame.ordered in
    record { starts = frame.starts; ordered = omega arith; ends = frame.ends }
dropped-IsOrdered root shifts_start first last t o =
    let b = get_dragging_bounds root t shifts_start in
    let starts = o.starts in
    let ordered = o.ordered in
    let (d, e) = get_position-bounded last (pos 0) t.view_end b refl refl (omega arith) in
    record { starts = d; ordered = e; ends = o.ends }
dropped-IsOrdered root shifts_end first last t o =
    let b = get_dragging_bounds root t shifts_end in
    let ends = o.ends in
    let ordered = o.ordered in
    let (d, e) = get_position-bounded last t.view_start (pos one) b refl refl (omega arith) in
    record { starts = o.starts; ordered = d; ends = e }

-- From a range within the trace and in order, a drag of either scrubber or of a new frame whose
-- manager is free, has its handlers set and keeps no bounds, while no frame is being drawn, brings no Error and leads to a range within the trace and in
-- order; the scrubber that is not dragged stays where it is.
pub gesture-IsOrdered :
    (root : Rect) (tag : DragType) (first last : ℤ) (xs : List ℤ) (l : Layer)
    → IsReady tag l
    → (manager_for tag l).bounds ≡ none
    → IsOrdered l.time
    → (l' : Layer) × (gesture root tag first xs last l ≡ some l')
      × IsOrdered l'.time
      × (tag ≡ shifts_start → l'.time.view_end ≡ l.time.view_end)
      × (tag ≡ shifts_end → l'.time.view_start ≡ l.time.view_start)
unfolding update_view_range_time
gesture-IsOrdered root tag first last xs l ready unkept o =
    let b : Bounds = get_dragging_bounds root l.time tag in
    let (l', e, t, free) =
      gesture-dropped root tag first last xs l b ready
        (get_bounds-none b (manager_for tag l) unkept) in
    let v = (get_position last b).value in
    let a = (get_position first b).value in
    (
      l',
      e,
      subst IsOrdered (sym t) (dropped-IsOrdered root tag first last l.time o),
      λ is_start.
          ap (λ u. u.view_end) t
          ∙ ap (λ k. (dropped k a v l.time.view_start l.time.view_end).view_end) is_start,
      λ is_end.
          ap (λ u. u.view_start) t
          ∙ ap (λ k. (dropped k a v l.time.view_start l.time.view_end).view_start) is_end,
    )
