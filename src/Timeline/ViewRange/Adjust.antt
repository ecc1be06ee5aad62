-- ===== src/Timeline/ViewRange/Adjust.antt =====
-- The keys and the least range, in exact billionths. The source computes with doubles, whose range
-- may fall short of the least by an error of rounding.
use teletrace.Base.{◌≡◌, refl, Bool, true, false, arith, List, [], ◌∷◌, if◌then◌else◌, ◌&&◌}
use teletrace.Numbers.Int.{ℤ, pos, negsuc, ◌+ℤ◌, ◌-ℤ◌, ◌≤ℤ◌, div_ℤ, ltb_ℤ, int_laws, le_of_ltb_ℤ}
use teletrace.Timeline.Dragging.{one}
use teletrace.Timeline.ViewRange.{
  TimeRange, update_view_range_time, view_min_range, half_range, Shortcut, shortcut_config,
  adjust_view_range, shortcut_handler,
}

-- A range within the trace that is no narrower than the least.
pub record IsView (t : TimeRange) : Type 0 where
  pub starts : pos 0 ≤ℤ t.view_start
  pub is_wide : t.view_start +ℤ view_min_range ≤ℤ t.view_end
  pub ends : t.view_end ≤ℤ pos one

-- What lodash says of `clamp`: the result is within the bounds, and a number within them is its own.
pub record IsClamp (clamp : ℤ → ℤ → ℤ → ℤ) : Type 0 where
  pub at_least : (n lo hi : ℤ) → lo ≤ℤ hi → lo ≤ℤ clamp n lo hi
  pub at_most : (n lo hi : ℤ) → lo ≤ℤ hi → clamp n lo hi ≤ℤ hi
  pub same : (n lo hi : ℤ) → lo ≤ℤ n → n ≤ℤ hi → clamp n lo hi ≡ n

-- Half of a number that is not negative.
half_parts :
    (a : ℤ) → (h : pos 10000000 ≤ℤ a) → (pos 5000000 ≤ℤ div_ℤ a 2) × (pos 5000000 ≤ℤ a -ℤ div_ℤ a 2)
unfolding div_ℤ ◌-ℤ◌
half_parts (pos n) h = (ground arith, ground arith)
half_parts (negsuc n) h = absurd (omega arith)

updated-IsView :
    (start stop : ℤ)
    → pos 0 ≤ℤ start
    → start +ℤ view_min_range ≤ℤ stop
    → stop ≤ℤ pos one
    → IsView (update_view_range_time start stop)
unfolding update_view_range_time
updated-IsView start stop h k l = record { starts = h; is_wide = k; ends = l }

if-IsView :
    (b : Bool) (t u : TimeRange)
    → (b ≡ true → IsView t)
    → (b ≡ false → IsView u)
    → IsView (if b then t else u)
if-IsView true t u p q = p refl
if-IsView false t u p q = q refl

-- The range after some keys.
abbrev pub pressed : (clamp : ℤ → ℤ → ℤ → ℤ) → List Shortcut → TimeRange → TimeRange
pressed clamp [] t = t
pressed clamp (key ∷ keys) t = pressed clamp keys (shortcut_handler clamp key t)

module _ (clamp : ℤ → ℤ → ℤ → ℤ) (c : IsClamp clamp) where
  adjust_view_range-IsView :
      (start_change end_change : ℤ) (t : TimeRange)
      → IsView t
      → IsView (adjust_view_range clamp start_change end_change t)
  unfolding adjust_view_range
  adjust_view_range-IsView start_change end_change t v =
      let start : ℤ = clamp (t.view_start +ℤ start_change) (pos 0) (pos 990000000) in
      let stop : ℤ = clamp (t.view_end +ℤ end_change) (pos 10000000) (pos one) in
      let center : ℤ = t.view_start +ℤ div_ℤ (t.view_end -ℤ t.view_start) 2 in
      let start_low : pos 0 ≤ℤ start = c.at_least _ _ _ (omega arith) in
      let start_high : start ≤ℤ pos 990000000 = c.at_most _ _ _ (omega arith) in
      let stop_high : stop ≤ℤ pos one = c.at_most _ _ _ (omega arith) in
      let starts = v.starts in
      let ends = v.ends in
      let is_wide = v.is_wide in
      let (near, far) = half_parts (t.view_end -ℤ t.view_start) (omega int_laws) in
      let shifted =
        updated-IsView start (start +ℤ view_min_range) start_low (omega int_laws)
          (omega int_laws) in
      let centered =
        updated-IsView (center -ℤ half_range) (center +ℤ half_range) (omega int_laws)
          (omega int_laws) (omega int_laws) in
      if-IsView (ltb_ℤ (stop -ℤ start) view_min_range) _ _
        (λ narrow.
          if-IsView (ltb_ℤ start_change (pos 0) && ltb_ℤ end_change (pos 0)) _ _ (λ left. shifted)
            (λ other.
              if-IsView (ltb_ℤ (pos 0) start_change && ltb_ℤ (pos 0) end_change) _ _
                (λ right. shifted) (λ zoom. centered)))
        (λ wide.
          let wide_enough : view_min_range ≤ℤ stop -ℤ start =
            le_of_ltb_ℤ (stop -ℤ start) view_min_range wide in
          updated-IsView start stop start_low (omega int_laws) stop_high)

  pressed-IsView : (keys : List Shortcut) (t : TimeRange) → IsView t → IsView (pressed clamp keys t)
  unfolding shortcut_handler
  pressed-IsView [] t v = v
  pressed-IsView (key ∷ keys) t v =
      pressed-IsView keys (shortcut_handler clamp key t)
        (adjust_view_range-IsView (shortcut_config key).0 (shortcut_config key).1 t v)

  -- In exact billionths: from a range within the trace that is at least as wide as the least, whatever the changes of its
  -- two ends, and after whatever keys of the timeline (panning and zooming, slow and fast), the range
  -- is within the trace and at least as wide as the least, where `clamp` gives a number between its
  -- bounds, and a number between them as it is.
  adjust_view_range_lem :
      (t : TimeRange)
      → IsView t
      → ((start_change end_change : ℤ) → IsView (adjust_view_range clamp start_change end_change t))
        × ((keys : List Shortcut) → IsView (pressed clamp keys t))
  adjust_view_range_lem t v = (
    λ start_change end_change. adjust_view_range-IsView start_change end_change t v,
    λ keys. pressed-IsView keys t v,
  )
