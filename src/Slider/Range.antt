-- ===== src/Slider/Range.antt =====
-- The range that the statistics give, under every sequence of responses.
use teletrace.Base.{◌≡◌, refl, true, false, Option, some, List, [], ◌∷◌, if◌then◌else◌, arith}
use teletrace.Numbers.{Numbers}
use teletrace.Search.Statistics.{TagStatistics}
use teletrace.Slider.{
  SliderState, update_slider_state, initialize_slider_values, update_min_max, is_empty,
}

module _ {N : Type 0} (js : Numbers N) (undefined : N) where
  unfoldable pub run : List (Option (TagStatistics N)) → SliderState N → SliderState N
  unfolding update_slider_state
  run [] s = s
  run (r ∷ rs) s = run rs (update_slider_state js undefined r s)

  -- The bounds are set and neither is 0.
  pub record IsRanged (s : SliderState N) : Type 0 where
    pub shown : is_empty s.slider_values ≡ false
    pub low : N
    pub high : N
    pub min : s.absolute_min ≡ some low
    pub max : s.absolute_max ≡ some high
    pub min_truthy : js.is_truthy low ≡ true
    pub max_truthy : js.is_truthy high ≡ true

  -- Once the slider has a range, a response never moves its two values, and widens the range just
  -- enough: a bound that is not 0 becomes the response's where that lies outside, and else stays.
  update_slider_state_widens :
      (r : TagStatistics N) (s : SliderState N) (h : IsRanged s)
      → ((update_slider_state js undefined (some r) s).slider_values ≡ s.slider_values)
        × ((update_slider_state js undefined (some r) s).absolute_min
            ≡ some (if js.less r.min h.low then r.min else h.low))
        × ((update_slider_state js undefined (some r) s).absolute_max
            ≡ some (if js.less h.high r.max then r.max else h.high))
  unfolding update_slider_state initialize_slider_values update_min_max
  update_slider_state_widens r s h =
      rw (h.shown, h.min, h.max, h.min_truthy, h.max_truthy) (refl, ground arith, ground arith)

  stuck-step :
      (r : Option (TagStatistics N)) (s : SliderState N) (b : N)
      → is_empty s.slider_values ≡ false
      → s.absolute_max ≡ some b
      → js.is_truthy b ≡ false
      → ((update_slider_state js undefined r s).slider_values ≡ s.slider_values)
        × ((update_slider_state js undefined r s).absolute_max ≡ some b)
  unfolding update_slider_state initialize_slider_values update_min_max
  stuck-step r s b e h f = rw (e, h, f) (refl, refl)

  -- A maximum of 0 is never raised: once the slider has it, it keeps it and its two values through
  -- every sequence of responses, whatever maximum they report.
  run_stuck :
      (rs : List (Option (TagStatistics N))) (s : SliderState N) (b : N)
      → is_empty s.slider_values ≡ false
      → s.absolute_max ≡ some b
      → js.is_truthy b ≡ false
      → ((run rs s).slider_values ≡ s.slider_values) × ((run rs s).absolute_max ≡ some b)
  unfolding run
  run_stuck [] s b e h f = (refl, h)
  run_stuck (r ∷ rs) s b e h f =
      let (v, a) = stuck-step r s b e h f in
      let (w, c) = run_stuck rs (update_slider_state js undefined r s) b (rw v e) a f in
      (rw (w, v), c)
