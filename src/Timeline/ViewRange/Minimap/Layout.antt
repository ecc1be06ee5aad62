-- ===== src/Timeline/ViewRange/Minimap/Layout.antt =====
-- What the layer over the minimap draws, as positions (the source writes them as percentages).
use teletrace.Base.{
  ◌≡◌, ◌≢◌, refl, sym, ap, ◌∙◌, inl, inr, Bool, false, Option, none, some, is_some, not, ◌&&◌, ◌||◌,
  if◌then◌else◌, arith, Bool-cases,
}
use teletrace.Numbers.Int.{ℤ, pos, ◌+ℤ◌, ◌-ℤ◌, ◌≤ℤ◌, ltb_ℤ, eqb_ℤ, int_laws, le_of_ltb_ℤ}
use teletrace.Timeline.Dragging.{one}
use teletrace.Timeline.ViewRange.{TimeRange, update_next_view_range_time, update_view_range_time}
use teletrace.Timeline.ViewRange.Minimap.{
  Layer, reframe_drag_update, reframe_drag_end, anchor_of, sorted,
}
use teletrace.Timeline.ViewRange.Framing.{frame_of-IsFrame}

-- `getNextViewLayout`.
pub record Fill : Type 0 where
  pub leading_x : ℤ
  pub width : ℤ
  pub x : ℤ

unfoldable pub next_fill : (start position : ℤ) → Fill
next_fill start position =
    let left = if ltb_ℤ start position then start else position in
    let right = if ltb_ℤ start position then position else start in
    record { leading_x = position; width = right -ℤ left; x = left }

-- `leftInactive` and `rightInactive`: the widths outside of the range, where an end at 0 counts as
-- not given.
unfoldable pub left_inactive : TimeRange → ℤ
left_inactive t = if eqb_ℤ t.view_start (pos 0) then pos 0 else t.view_start

unfoldable pub right_inactive : TimeRange → ℤ
right_inactive t = if eqb_ℤ t.view_end (pos 0) then pos one else pos one -ℤ t.view_end

-- `haveNextTimeRange`.
unfoldable pub have_next_time_range : TimeRange → Bool
have_next_time_range t = is_some t.shift_start || is_some t.shift_end || is_some t.reframe

-- `cursorPosition`.
unfoldable pub cursor_guide : Layer → Option ℤ
unfolding have_next_time_range
cursor_guide l =
    if not (have_next_time_range l.time) && not l.prevent_cursor_line then l.time.cursor else none

-- The frame of the markers (`_getMarkers`) while a new one is drawn.
unfoldable pub reframe_fill : TimeRange → Option Fill
reframe_fill t = elim t.reframe [
  | none ↦ none
  | some reframe ↦ some (next_fill reframe.anchor reframe.shift)
]

next_fill-sorted :
    (anchor value : ℤ)
    → ((next_fill anchor value).x ≡ (sorted value anchor).0)
      × ((next_fill anchor value).x +ℤ (next_fill anchor value).width ≡ (sorted value anchor).1)
unfolding next_fill
next_fill-sorted anchor value = elim (Bool-cases (ltb_ℤ anchor value)) [
  | inl right ↦
      let left : ltb_ℤ value anchor ≡ false = ground arith in
      rw (right, left) (refl, omega int_laws)
  | inr not_right ↦ elim (Bool-cases (ltb_ℤ value anchor)) [
    | inl left ↦ rw (not_right, left) (refl, omega int_laws)
    | inr not_left ↦
        let below : value ≤ℤ anchor = le_of_ltb_ℤ anchor value not_right in
        let above : anchor ≤ℤ value = le_of_ltb_ℤ value anchor not_left in
        rw (not_right, not_left) (omega int_laws, omega int_laws)
  ]
]

-- While a frame is drawn on the minimap between two different positions from 0 to 1, from its anchor
-- (or from the position itself, if there is none) to the position it is dragged to, the markers fill
-- what becomes the range if it is let go there: they start at the range's start and end at its end.
pub reframe_fill-reframe_drag_end :
    (value : ℤ) (t : TimeRange)
    → pos 0 ≤ℤ value
    → value ≤ℤ pos one
    → pos 0 ≤ℤ anchor_of t.reframe value
    → anchor_of t.reframe value ≤ℤ pos one
    → value ≢ anchor_of t.reframe value
    → let dragged = reframe_drag_update value t in
      let t' = reframe_drag_end value dragged in
      (fill : Fill) × (reframe_fill dragged ≡ some fill)
      × (fill.x ≡ t'.view_start)
      × (fill.x +ℤ fill.width ≡ t'.view_end)
unfolding reframe_fill reframe_drag_update reframe_drag_end update_next_view_range_time
    update_view_range_time
reframe_fill-reframe_drag_end value t h k l m differ =
    let anchor : ℤ = anchor_of t.reframe value in
    let drawn = (frame_of-IsFrame value anchor h k l m).drawn differ in
    let (starts, ends) = next_fill-sorted anchor value in
    (
      next_fill anchor value,
      refl,
      starts ∙ sym (ap (λ f. f.0) drawn),
      ends ∙ sym (ap (λ f. f.1) drawn),
    )
