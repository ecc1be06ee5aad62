-- ===== src/Timeline/ViewRange/Header/Zoom.antt =====
-- A frame on the header narrows the range; the markers are within the view.
use teletrace.Base.{
  ℕ, ◌≡◌, ◌≢◌, ◌≤◌, ◌*◌, ◌/◌, refl, inl, inr, Option, none, some, arith, Bool-cases,
}
use teletrace.Numbers.Int.{ℤ, pos, negsuc, ◌-ℤ◌, ◌*ℤ◌, ◌≤ℤ◌, div_ℤ, int_laws, ltb_ℤ}
use teletrace.Timeline.Dragging.{one}
use teletrace.Timeline.ViewRange.{TimeRange, Reframe, update_view_range_time}
use teletrace.Timeline.ViewRange.Minimap.{anchor_of, sorted}
use teletrace.Timeline.ViewRange.Framing.{IsFrame, frame_of-IsFrame}
use teletrace.Timeline.ViewRange.Scrubbers.{IsOrdered}
use teletrace.Timeline.ViewRange.Header.{map_from_view_sub_range, header_drag_end}

scaled : (v w : ℕ) → v ≤ one → (v * w) / 1000000000 ≤ w
scaled v w h = grind arith

pos_times : (v w : ℕ) → pos v *ℤ pos w ≡ pos (v * w)
unfolding ◌*ℤ◌
pos_times v w = ground arith

-- The part of a width at a position from 0 to 1.
part_bounded :
    (v w : ℤ)
    → pos 0 ≤ℤ v
    → v ≤ℤ pos one
    → pos 0 ≤ℤ w
    → (pos 0 ≤ℤ div_ℤ (v *ℤ w) one) × (div_ℤ (v *ℤ w) one ≤ℤ w)
unfolding div_ℤ
part_bounded (pos v) (pos w) h k l =
    let small = scaled v w (omega arith) in rw (pos_times v w) (omega arith, omega arith)
part_bounded (negsuc v) w h k l = absurd (omega arith)
part_bounded (pos v) (negsuc w) h k l = absurd (omega arith)

map_from_view_sub_range-bounded :
    (s e v : ℤ)
    → pos 0 ≤ℤ v
    → v ≤ℤ pos one
    → s ≤ℤ e
    → (s ≤ℤ map_from_view_sub_range s e v) × (map_from_view_sub_range s e v ≤ℤ e)
unfolding map_from_view_sub_range
map_from_view_sub_range-bounded s e v h k l =
    let (low, high) = part_bounded v (e -ℤ s) h k (omega int_laws) in
    (omega int_laws, omega int_laws)

-- The anchor of a frame that is being drawn is within the range.
pub record IsAnchored (t : TimeRange) : Type 0 where
  pub holds :
      (r : Reframe) → t.reframe ≡ some r → (t.view_start ≤ℤ r.anchor) × (r.anchor ≤ℤ t.view_end)

anchor_of-bounded :
    (o : Option Reframe) (s e v : ℤ)
    → ((r : Reframe) → o ≡ some r → (s ≤ℤ r.anchor) × (r.anchor ≤ℤ e))
    → s ≤ℤ v
    → v ≤ℤ e
    → (s ≤ℤ anchor_of o v) × (anchor_of o v ≤ℤ e)
anchor_of-bounded none s e v h k l = (k, l)
anchor_of-bounded (some r) s e v h k l = h r refl

-- A frame of two positions of a range lies in it.
pub record IsWithin (s e : ℤ) (f : ℤ × ℤ) : Type 0 where
  pub starts : s ≤ℤ f.0
  pub ends : f.1 ≤ℤ e

sorted-IsWithin : (s e v a : ℤ) → s ≤ℤ v → v ≤ℤ e → s ≤ℤ a → a ≤ℤ e → IsWithin s e (sorted v a)
sorted-IsWithin s e v a h k l m = elim (Bool-cases (ltb_ℤ v a)) [
  | inl below ↦ rw below (record { starts = h; ends = m })
  | inr above ↦ rw above (record { starts = l; ends = k })
]

-- Letting go of a frame on the header at a position from 0 to 1, while a range within the trace and
-- in order is shown and the frame's anchor, if it has one, is in that range: the new range is within
-- the trace with its start before its end; it lies in the range that was shown if the anchor and the
-- position let go at differ, and else it is the least range, which holds the position.
pub header_drag_end_lem :
    (value : ℤ) (t : TimeRange)
    → IsOrdered t
    → IsAnchored t
    → pos 0 ≤ℤ value
    → value ≤ℤ pos one
    → let shift = map_from_view_sub_range t.view_start t.view_end value in
      let t' = header_drag_end value t in
      IsFrame shift (anchor_of t.reframe shift) (t'.view_start, t'.view_end)
      × (shift ≢ anchor_of t.reframe shift
          → IsWithin t.view_start t.view_end (t'.view_start, t'.view_end))
unfolding header_drag_end update_view_range_time
header_drag_end_lem value t o anchored h k =
    let starts = o.starts in
    let ends = o.ends in
    let shift : ℤ = map_from_view_sub_range t.view_start t.view_end value in
    let (low, high) = map_from_view_sub_range-bounded t.view_start t.view_end value h k o.ordered in
    let (anchor_low, anchor_high) =
      anchor_of-bounded t.reframe t.view_start t.view_end shift anchored.holds low high in
    let frame =
      frame_of-IsFrame shift (anchor_of t.reframe shift) (omega arith) (omega arith) (omega arith)
        (omega arith) in
    (
      frame,
      λ differ. rw (frame.drawn differ) (
          sorted-IsWithin t.view_start t.view_end shift (anchor_of t.reframe shift) low high
            anchor_low anchor_high),
    )
