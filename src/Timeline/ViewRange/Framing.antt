-- ===== src/Timeline/ViewRange/Framing.antt =====
-- The frame that is drawn on the minimap: within the trace, in order and not empty.
use teletrace.Base.{◌≡◌, ◌≢◌, refl, sym, ap, subst, inl, inr, false, some, List, arith, Bool-cases}
use teletrace.Numbers.Int.{
  ℤ, pos, ◌+ℤ◌, ◌-ℤ◌, ◌≤ℤ◌, ◌<ℤ◌, ltb_ℤ, int_laws, le_of_ltb_ℤ, lt_of_ltb_ℤ, eq_of_parts, pos_part,
  neg_part,
}
use teletrace.Timeline.Dragging.{one, Rect, Bounds, get_bounds, get_position}
use teletrace.Timeline.Dragging.Bounded.{get_position-bounded}
use teletrace.Timeline.ViewRange.{view_min_range, half_range, update_view_range_time}
use teletrace.Timeline.ViewRange.Gesture.{gesture, IsReady, gesture-dropped}
use teletrace.Timeline.ViewRange.Minimap.{
  Layer, reframes, get_dragging_bounds, sorted, widened, from_zero, to_one, frame_of,
}

-- What a frame between two positions is: the two of them in order, if they differ; else the least
-- range, with the position in it.
pub record IsFrame (value anchor : ℤ) (f : ℤ × ℤ) : Type 0 where
  pub starts : pos 0 ≤ℤ f.0
  pub ends : f.1 ≤ℤ pos one
  pub ordered : f.0 <ℤ f.1
  pub drawn : value ≢ anchor → f ≡ sorted value anchor
  pub point : value ≡ anchor → (f.1 -ℤ f.0 ≡ view_min_range) × (f.0 ≤ℤ value) × (value ≤ℤ f.1)

from_zero-low : (s e : ℤ) → s <ℤ pos 0 → from_zero (s, e) ≡ (pos 0, view_min_range)
unfolding from_zero ◌+ℤ◌
from_zero-low s e h = ground arith

from_zero-same : (s e : ℤ) → pos 0 ≤ℤ s → from_zero (s, e) ≡ (s, e)
unfolding from_zero
from_zero-same s e h = ground arith

to_one-high : (s e : ℤ) → pos one <ℤ e → to_one (s, e) ≡ (pos 990000000, pos one)
unfolding to_one ◌-ℤ◌
to_one-high s e h = ground arith

to_one-same : (s e : ℤ) → e ≤ℤ pos one → to_one (s, e) ≡ (s, e)
unfolding to_one
to_one-same s e h = ground arith

widened-point : (s : ℤ) → widened (s, s) ≡ (s -ℤ half_range, s +ℤ half_range)
unfolding widened
widened-point s = ground arith

widened-same : (s e : ℤ) → s <ℤ e → widened (s, e) ≡ (s, e)
unfolding widened
widened-same s e h = ground arith

-- Of two positions that differ.
frame_of-drawn :
    (value anchor lo hi : ℤ)
    → sorted value anchor ≡ (lo, hi)
    → pos 0 ≤ℤ lo
    → lo <ℤ hi
    → hi ≤ℤ pos one
    → frame_of value anchor ≡ (lo, hi)
unfolding frame_of
frame_of-drawn value anchor lo hi e h k l =
    rw (e, widened-same lo hi k, from_zero-same lo hi h) (to_one-same lo hi l)

sorted-point : (v : ℤ) → sorted v v ≡ (v, v)
sorted-point v = ground arith

frame_of-point : (v : ℤ) → frame_of v v ≡ to_one (from_zero (v -ℤ half_range, v +ℤ half_range))
unfolding frame_of
frame_of-point v = rw (sorted-point v, widened-point v) refl

-- The least range around a position, pushed into the trace.
record IsPointFrame (v : ℤ) (f : ℤ × ℤ) : Type 0 where
  starts : pos 0 ≤ℤ f.0
  ends : f.1 ≤ℤ pos one
  ordered : f.0 <ℤ f.1
  wide : f.1 -ℤ f.0 ≡ view_min_range
  holds : (f.0 ≤ℤ v) × (v ≤ℤ f.1)

frame_of-IsPointFrame : (v : ℤ) → pos 0 ≤ℤ v → v ≤ℤ pos one → IsPointFrame v (frame_of v v)
frame_of-IsPointFrame v low high =
    let start : ℤ = v -ℤ half_range in
    let stop : ℤ = v +ℤ half_range in
    rw (frame_of-point v) (elim (Bool-cases (ltb_ℤ start (pos 0))) [
      | inl below ↦
          let under : start <ℤ pos 0 = lt_of_ltb_ℤ start (pos 0) below in
          rw (from_zero-low start stop under, to_one-same (pos 0) view_min_range (omega arith))
            (record {
              starts = omega arith;
              ends = omega arith;
              ordered = omega int_laws;
              wide = omega int_laws;
              holds = (omega int_laws, omega int_laws);
            })
      | inr not_below ↦
          let over : pos 0 ≤ℤ start = le_of_ltb_ℤ start (pos 0) not_below in
          rw (from_zero-same start stop over) (elim (Bool-cases (ltb_ℤ (pos one) stop)) [
            | inl above ↦
                let beyond : pos one <ℤ stop = lt_of_ltb_ℤ (pos one) stop above in
                rw (to_one-high start stop beyond) (record {
                  starts = omega arith;
                  ends = omega arith;
                  ordered = omega int_laws;
                  wide = omega int_laws;
                  holds = (omega int_laws, omega int_laws);
                })
            | inr not_above ↦
                let within : stop ≤ℤ pos one = le_of_ltb_ℤ (pos one) stop not_above in
                rw (to_one-same start stop within) (record {
                  starts = omega int_laws;
                  ends = omega int_laws;
                  ordered = omega int_laws;
                  wide = omega int_laws;
                  holds = (omega int_laws, omega int_laws);
                })
          ])
    ])

drawn-IsFrame :
    (value anchor lo hi : ℤ)
    → sorted value anchor ≡ (lo, hi)
    → value ≢ anchor
    → pos 0 ≤ℤ lo
    → lo <ℤ hi
    → hi ≤ℤ pos one
    → IsFrame value anchor (frame_of value anchor)
drawn-IsFrame value anchor lo hi e ne h k l =
    rw (frame_of-drawn value anchor lo hi e h k l) (record {
      starts = h;
      ends = l;
      ordered = k;
      drawn = λ differ. sym e;
      point = λ same. absurd (ne same);
    })

sorted-below : (v a : ℤ) → v <ℤ a → sorted v a ≡ (v, a)
sorted-below v a h = ground arith

sorted-above : (v a : ℤ) → a <ℤ v → sorted v a ≡ (a, v)
sorted-above v a h = ground arith

pub frame_of-IsFrame :
    (value anchor : ℤ)
    → pos 0 ≤ℤ value
    → value ≤ℤ pos one
    → pos 0 ≤ℤ anchor
    → anchor ≤ℤ pos one
    → IsFrame value anchor (frame_of value anchor)
frame_of-IsFrame value anchor h k l m = elim (Bool-cases (ltb_ℤ value anchor)) [
  | inl less ↦
      let below : value <ℤ anchor = lt_of_ltb_ℤ value anchor less in
      drawn-IsFrame value anchor value anchor (sorted-below value anchor below)
        (λ same. absurd (omega (arith, ap pos_part same, ap neg_part same))) h below m
  | inr not_less ↦ elim (Bool-cases (ltb_ℤ anchor value)) [
    | inl more ↦
        let above : anchor <ℤ value = lt_of_ltb_ℤ anchor value more in
        drawn-IsFrame value anchor anchor value (sorted-above value anchor above)
          (λ same. absurd (omega (arith, ap pos_part same, ap neg_part same))) l above k
    | inr not_more ↦
        let ge : anchor ≤ℤ value = le_of_ltb_ℤ value anchor not_less in
        let le : value ≤ℤ anchor = le_of_ltb_ℤ anchor value not_more in
        let same : value ≡ anchor = eq_of_parts value anchor (omega arith) in
        let f = frame_of-IsPointFrame value h k in
        subst (λ a. IsFrame value a (frame_of value a)) same
          (record {
            starts = f.starts;
            ends = f.ends;
            ordered = f.ordered;
            drawn = λ differ. absurd (differ refl);
            point = λ again. (f.wide, f.holds.0, f.holds.1);
          })
  ]
]

-- A frame that is drawn on the minimap, from a press of the mouse over any moves to its release,
-- where the layer's manager is free, its handlers are set, no frame is being drawn yet, and it works
-- with bounds from 0 to 1 (those that it kept, or else those of now): no Error comes, the range becomes the frame of the positions of the press and of the
-- release alone, and the manager is free again. The frame is within the trace, and its start is before
-- its end: it is the two positions in order if they differ, and else the least range, which holds the
-- position.
pub gesture-IsFrame :
    (root : Rect) (first last : ℤ) (xs : List ℤ) (l : Layer) (b : Bounds)
    → IsReady reframes l
    → get_bounds (get_dragging_bounds root l.time reframes) l.dragger_reframe ≡ b
    → b.min_value ≡ some (pos 0)
    → b.max_value ≡ some (pos one)
    → (l' : Layer) × (gesture root reframes first xs last l ≡ some l')
      × IsFrame
          (get_position last b).value
          (get_position first b).value
          (l'.time.view_start, l'.time.view_end)
      × (l'.dragger_reframe.is_dragging ≡ false)
unfolding update_view_range_time
gesture-IsFrame root first last xs l b ready bounds min_is max_is =
    let (l', e, t, free) = gesture-dropped root reframes first last xs l b ready bounds in
    let (first_low, first_high) =
      get_position-bounded first (pos 0) (pos one) b min_is max_is (omega arith) in
    let (last_low, last_high) =
      get_position-bounded last (pos 0) (pos one) b min_is max_is (omega arith) in
    let frame = frame_of-IsFrame _ _ last_low last_high first_low first_high in
    (
      l',
      e,
      subst
          (λ u.
            IsFrame (get_position last b).value (get_position first b).value
              (u.view_start, u.view_end))
          (sym t) frame,
      free,
    )
