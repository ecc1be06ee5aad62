-- ===== src/Timeline/ViewRange/Header/Layout.antt =====
-- The markers of a proposed range are what the view shows of it.
use teletrace.Base.{
  ◌≡◌, refl, inl, inr, ◌⊎◌, ◌↔◌, Bool, true, false, Option, none, some, arith, Bool-cases,
  if◌then◌else◌, ◌||◌,
}
use teletrace.Numbers.Int.{ℤ, pos, ◌+ℤ◌, ◌≤ℤ◌, ◌<ℤ◌, ltb_ℤ, leb_ℤ, int_laws, le_of_ltb_ℤ}
use teletrace.Timeline.Dragging.{one}
use teletrace.Timeline.ViewRange.Header.{Marker, marker_of, get_next_view_layout}

-- What is drawn for the positions from `left` to `right`: nothing if they are outside of the view or
-- at its edge only; else the positions of the view that are among them.
pub data Shows (is_dragging_left : Bool) (left right : ℤ) : Option Marker → Type 0 where
  outside : (pos one ≤ℤ left) ⊎ (right ≤ℤ pos 0) → Shows is_dragging_left left right none
  inside :
      {m : Marker}
      → left <ℤ pos one
      → pos 0 <ℤ right
      → m.is_dragging_left ≡ is_dragging_left
      → pos 0 ≤ℤ m.left
      → pos 0 ≤ℤ m.width
      → m.left +ℤ m.width ≤ℤ pos one
      → ((p : ℤ)
          → pos 0 ≤ℤ p
          → p ≤ℤ pos one
          → ((m.left ≤ℤ p) × (p ≤ℤ m.left +ℤ m.width)) ↔ ((left ≤ℤ p) × (p ≤ℤ right)))
      → Shows is_dragging_left left right (some m)

out_of_view :
    (left right : ℤ)
    → (leb_ℤ (pos one) left || leb_ℤ right (pos 0)) ≡ true
    → (pos one ≤ℤ left) ⊎ (right ≤ℤ pos 0)
out_of_view left right h = ground arith

in_view :
    (left right : ℤ)
    → (leb_ℤ (pos one) left || leb_ℤ right (pos 0)) ≡ false
    → (left <ℤ pos one) × (pos 0 <ℤ right)
in_view left right h = (ground arith, ground arith)

-- A left end cut at 0 and a right one cut at 1.
cut_left_lem :
    (left : ℤ)
    → let cut = if ltb_ℤ left (pos 0) then pos 0 else left in
      (pos 0 ≤ℤ cut) × (left ≤ℤ cut) × ((cut ≤ℤ left) ⊎ (cut ≤ℤ pos 0))
cut_left_lem left = elim (Bool-cases (ltb_ℤ left (pos 0))) [
  | inl low ↦ rw low (omega arith, ground arith, inr (omega arith))
  | inr high ↦ rw high (le_of_ltb_ℤ left (pos 0) high, omega arith, inl (omega arith))
]

cut_right_lem :
    (right : ℤ)
    → let cut = if ltb_ℤ (pos one) right then pos one else right in
      (cut ≤ℤ pos one) × (cut ≤ℤ right) × ((right ≤ℤ cut) ⊎ (pos one ≤ℤ cut))
cut_right_lem right = elim (Bool-cases (ltb_ℤ (pos one) right)) [
  | inl high ↦ rw high (omega arith, ground arith, inr (omega arith))
  | inr low ↦ rw low (le_of_ltb_ℤ (pos one) right low, omega arith, inl (omega arith))
]

marker_of-Shows :
    (is_dragging_left : Bool) (left right : ℤ)
    → left ≤ℤ right
    → Shows is_dragging_left left right (marker_of is_dragging_left left right)
unfolding marker_of
marker_of-Shows d left right h =
    let cut_left : ℤ = if ltb_ℤ left (pos 0) then pos 0 else left in
    let cut_right : ℤ = if ltb_ℤ (pos one) right then pos one else right in
    let (left_in, left_ge, left_tight) = cut_left_lem left in
    let (right_in, right_le, right_tight) = cut_right_lem right in
    elim (Bool-cases (leb_ℤ (pos one) left || leb_ℤ right (pos 0))) [
      | inl out ↦ rw out (outside (out_of_view left right out))
      | inr seen ↦
          let (left_lt, right_gt) = in_view left right seen in
          let ordered : cut_left ≤ℤ cut_right = elim left_tight [
            | inl a ↦ elim right_tight [ inl b ↦ omega arith | inr b ↦ omega arith ]
            | inr a ↦ elim right_tight [ inl b ↦ omega arith | inr b ↦ omega arith ]
          ] in
          rw seen (
            inside left_lt right_gt refl left_in (omega int_laws) (omega int_laws) (λ p low high. (
              λ among. (omega int_laws, omega int_laws),
              λ among. (
                elim left_tight [ inl a ↦ omega arith | inr a ↦ omega arith ],
                elim right_tight [ inl b ↦ omega int_laws | inr b ↦ omega int_laws ],
              ),
            )))
    ]

-- The markers of a proposal on the header, from where it starts to where it is dragged, in whichever
-- direction: nothing is drawn exactly if all of it is outside of the view or at its edge; else the
-- marker lies in the view, has a width of at least 0, covers those positions of the view that are
-- between the two, and is marked as drawn to the left exactly if it is dragged to the left.
pub get_next_view_layout-Shows :
    (start position : ℤ)
    → (start <ℤ position
        → Shows (ltb_ℤ position start) start position (get_next_view_layout start position))
      × (position ≤ℤ start
          → Shows (ltb_ℤ position start) position start (get_next_view_layout start position))
unfolding get_next_view_layout
get_next_view_layout-Shows start position = (
  λ right.
      let is_less : ltb_ℤ start position ≡ true = ground arith in
      rw is_less (marker_of-Shows (ltb_ℤ position start) start position (omega arith)),
  λ left.
      let not_less : ltb_ℤ start position ≡ false = ground arith in
      rw not_less (marker_of-Shows (ltb_ℤ position start) position start left),
)
