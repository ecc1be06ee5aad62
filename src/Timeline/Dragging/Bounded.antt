-- ===== src/Timeline/Dragging/Bounded.antt =====
-- The position of the mouse within bounds.
use teletrace.Base.{◌≡◌, inl, inr, some, arith, Bool-cases}
use teletrace.Numbers.Int.{ℤ, pos, ◌-ℤ◌, ◌*ℤ◌, ◌≤ℤ◌, div_ℤ, ltb_ℤ}
use teletrace.Timeline.Dragging.{Bounds, get_position, one}

-- Between two limits in order, the position of the mouse is between them.
pub get_position-bounded :
    (client_x lo hi : ℤ) (b : Bounds)
    → b.min_value ≡ some lo
    → b.max_value ≡ some hi
    → lo ≤ℤ hi
    → (lo ≤ℤ (get_position client_x b).value) × ((get_position client_x b).value ≤ℤ hi)
unfolding get_position
get_position-bounded client_x lo hi b min_is max_is lo_le =
    let value : ℤ = div_ℤ ((client_x -ℤ b.client_x_left) *ℤ pos one) b.width in
    elim (Bool-cases (ltb_ℤ value lo)) [
      | inl below ↦ simp (min_is, max_is, below) (omega arith, lo_le)
      | inr above ↦ elim (Bool-cases (ltb_ℤ hi value)) [
        | inl far ↦ simp (min_is, max_is, above, far) (lo_le, omega arith)
        | inr near ↦ simp (min_is, max_is, above, near) (ground arith, ground arith)
      ]
    ]
