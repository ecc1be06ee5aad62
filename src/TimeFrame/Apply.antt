-- ===== src/TimeFrame/Apply.antt =====
-- The dialog of an absolute time frame: what it accepts; and the button that opens it.
use teletrace.Base.{
  ℕ, ◌≡◌, ◌≤◌, ◌==◌, ◌↔◌, refl, inl, inr, true, false, if◌then◌else◌, leb, ltb, arith, Bool-cases,
}
use teletrace.Format.{ms_to_nano}
use teletrace.Store.State.{State, Zustand}
use teletrace.Store.Slices.Frames.{set_absolute_timeframe_lem}
use teletrace.TimeFrame.{
  Calendar, custom, SelectorState, DateTimeState, handle_cancel, handle_custom_click,
  handle_btn_clicked, calc_range, handle_apply,
}

module _ {N : Type 0} (calendar : Calendar) (z : Zustand N) where
  -- The dialog closes exactly if its range has begun and does not end before it starts, where a
  -- range that starts at 0 must have ended: the end of any other range may lie in the future. It
  -- marks the times as valid exactly then, and then alone sets the time frame, to exactly its range
  -- and with the live mode off.
  handle_apply_accepts :
      (c c1 c2 : ℕ) (d : DateTimeState) (s : State N)
      → (let range = (calc_range calendar c c1 d).0 in
          let r = handle_apply calendar z c c1 c2 (d, s) in
          ((r.1 ≡ true) ↔ (
            (range.start_range ≤ ms_to_nano c2)
            × (range.start_range ≤ range.end_range)
            × (range.start_range ≡ 0 → range.end_range ≤ ms_to_nano c2)))
          × (r.0.time_valid ≡ r.1)
          × (r.2 ≡ (
              if r.1
              then record s {
                live_spans_state = record {
                  is_on = false;
                  interval_in_millis = s.live_spans_state.interval_in_millis;
                };
                current_timeframe = record {
                  start_time_unix_nano_sec = range.start_range;
                  end_time_unix_nano_sec = range.end_range;
                  is_relative = false;
                };
              }
              else s)))
  unfolding handle_apply
  handle_apply_accepts c c1 c2 d s =
      let range = (calc_range calendar c c1 d).0 in
      let tested = if range.start_range == 0 then range.end_range else range.start_range in
      elim (Bool-cases (ltb (ms_to_nano c2) tested)) [
        | inl e ↦ rw (e, handle_apply) (ground arith, refl, refl)
        | inr e ↦ elim (Bool-cases (leb range.start_range range.end_range)) [
          | inl f ↦
              rw (e, handle_apply, f)
                (
                  ground arith,
                  refl,
                  set_absolute_timeframe_lem z range.start_range range.end_range s,
                )
          | inr f ↦ rw (e, handle_apply, f) (ground arith, refl, refl)
        ]
      ]

  -- Cancelling the dialog that the custom button opened restores the selected button, whichever it
  -- was, and neither changes the store.
  handle_cancel-handle_btn_clicked :
      (c c1 c2 : ℕ) (selector : SelectorState) (s : State N)
      → (let clicked = handle_btn_clicked calendar z c c1 c2 (custom "Custom") (selector, s) in
          (clicked.0.is_open ≡ true)
          × (clicked.0.is_selected ≡ custom "Custom")
          × ((handle_cancel clicked.0).is_selected ≡ selector.is_selected)
          × ((handle_cancel clicked.0).is_open ≡ false)
          × (clicked.1 ≡ s))
  unfolding handle_btn_clicked handle_custom_click handle_cancel
  handle_cancel-handle_btn_clicked c c1 c2 selector s = (refl, refl, refl, refl, refl)
