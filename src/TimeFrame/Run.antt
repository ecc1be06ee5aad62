-- ===== src/TimeFrame/Run.antt =====
-- The time frame and the live mode under every sequence of the page's events.
use teletrace.Base.{
  ℕ, ◌*◌, ◌≡◌, ◌≤◌, ◌==◌, ◌⊎◌, refl, inl, inr, Bool, true, false, String, str_eq, if◌then◌else◌,
  leb, ltb, arith, Bool-cases,
}
use teletrace.Format.{ms_to_nano, nano_to_ms, get_current_timestamp}
use teletrace.Store.State.{State, Zustand}
use teletrace.Store.Slices.{initial_state, set_relative_timeframe, set_absolute_timeframe}
use teletrace.Store.Slices.Frames.{
  set_is_on_lem, set_absolute_timeframe_lem, set_relative_timeframe_lem,
}
use teletrace.TimeFrame.{
  Calendar, TimeFrameType, relative, custom, SelectorState, DateTimeState, get_relative_start_time,
  handle_btn_clicked, calc_range, handle_apply, handle_refresh, is_disabled, handle_change,
  live_effect,
}

get_relative_start_time_le :
    (calendar : Calendar) (clock clock1 : ℕ) (offset : String)
    → clock ≤ clock1
    → get_relative_start_time calendar clock1 (ms_to_nano clock) offset ≤ ms_to_nano clock1
unfolding get_relative_start_time ms_to_nano nano_to_ms
get_relative_start_time_le calendar clock clock1 offset h =
    let datetime = if clock * 1000000 == 0 then clock1 else nano_to_ms (ms_to_nano clock) in
    let back : datetime ≤ clock1 = ground arith in
    let hour = calendar.hours_back_le 1 datetime in
    let day = calendar.days_back_le 1 datetime in
    let days = calendar.days_back_le 3 datetime in
    let week = calendar.days_back_le 7 datetime in ground arith

module _ {N : Type 0} where
  -- The frame at a time of the clock: it has begun, it does not end before it starts where it has
  -- an end, and the live mode is on only with a relative frame.
  pub record IsCoherent (now : ℕ) (s : State N) : Type 0 where
    pub begun : s.current_timeframe.start_time_unix_nano_sec ≤ ms_to_nano now
    pub ordered :
        (s.current_timeframe.end_time_unix_nano_sec ≡ 0)
        ⊎ (s.current_timeframe.start_time_unix_nano_sec
            ≤ s.current_timeframe.end_time_unix_nano_sec)
    pub live : s.live_spans_state.is_on ≡ true → s.current_timeframe.is_relative ≡ true

  if-IsCoherent :
      (now : ℕ) (b : Bool) {s t : State N}
      → IsCoherent now s
      → IsCoherent now t
      → IsCoherent now (if b then s else t)
  if-IsCoherent now true i j = i
  if-IsCoherent now false i j = j

module _ {N : Type 0} (calendar : Calendar) (z : Zustand N) where
  -- The events of the page, each with what it reads of the clock, which never goes back.
  pub data Reach (s : State N) (now : ℕ) : ℕ → State N → Type 0 where
    here : Reach s now now s
    clicked :
        {t : ℕ} {u : State N}
        → Reach s now t u
        → (c c1 c2 : ℕ) → t ≤ c
        → c ≤ c1
        → c1 ≤ c2
        → (value : TimeFrameType) (selector : SelectorState)
        → Reach s now c2 (handle_btn_clicked calendar z c c1 c2 value (selector, u)).1
    applied :
        {t : ℕ} {u : State N}
        → Reach s now t u
        → (c c1 c2 : ℕ) → t ≤ c
        → c ≤ c1
        → c1 ≤ c2
        → (dialog : DateTimeState) → Reach s now c2 (handle_apply calendar z c c1 c2 (dialog, u)).2
    refreshed :
        {t : ℕ} {u : State N}
        → Reach s now t u
        → (c : ℕ) → t ≤ c
        → Reach s now c (handle_refresh z c u)
    switched :
        {t : ℕ} {u : State N}
        → Reach s now t u
        → is_disabled u ≡ false
        → (checked : Bool) → Reach s now t (handle_change z checked u)
    live_shown :
        {t : ℕ} {u : State N}
        → Reach s now t u
        → (c : ℕ) → t ≤ c
        → Reach s now c (live_effect z c u)

  relative-IsCoherent :
      (c start : ℕ) (s : State N)
      → start ≤ ms_to_nano c
      → IsCoherent c (set_relative_timeframe z c start s)
  unfolding get_current_timestamp
  relative-IsCoherent c start s h = rw set_relative_timeframe_lem (record {
    begun = h;
    ordered = elim (Bool-cases s.live_spans_state.is_on) [
      | inl e ↦ rw e (inl refl)
      | inr e ↦ rw e (inr h)
    ];
    live = λ e. refl;
  })

  absolute-IsCoherent :
      (c start end : ℕ) (s : State N)
      → start ≤ ms_to_nano c
      → (end ≡ 0) ⊎ (start ≤ end)
      → IsCoherent c (set_absolute_timeframe z start end s)
  absolute-IsCoherent c start end s h o =
      rw set_absolute_timeframe_lem (record { begun = h; ordered = o; live = λ e. cc })

  later-IsCoherent : (t c : ℕ) (s : State N) → t ≤ c → IsCoherent t s → IsCoherent c s
  unfolding ms_to_nano
  later-IsCoherent t c s h i = record {
    begun = let b = i.begun in omega arith;
    ordered = i.ordered;
    live = i.live;
  }

  clicked-IsCoherent :
      (t c c1 c2 : ℕ) (s : State N) (value : TimeFrameType) (selector : SelectorState)
      → t ≤ c
      → c ≤ c1
      → c1 ≤ c2
      → IsCoherent t s
      → IsCoherent c2 (handle_btn_clicked calendar z c c1 c2 value (selector, s)).1
  unfolding handle_btn_clicked ms_to_nano
  clicked-IsCoherent t c c1 c2 s (custom label) selector h h1 h2 i =
      elim (Bool-cases (str_eq label "Custom")) [
        | inl e ↦ rw e (later-IsCoherent t c2 s (omega arith) i)
        | inr e ↦ rw e (later-IsCoherent t c2 s (omega arith) i)
      ]
  clicked-IsCoherent t c c1 c2 s (relative label offset relative_to) selector h h1 h2 i =
      elim (Bool-cases (str_eq label "Custom")) [
        | inl e ↦ rw e (later-IsCoherent t c2 s (omega arith) i)
        | inr e ↦
            let back = get_relative_start_time_le calendar c c1 offset h1 in
            rw e (
              relative-IsCoherent c2 (get_relative_start_time calendar c1 (ms_to_nano c) offset) s
                (omega arith))
      ]

  applied-IsCoherent :
      (t c c1 c2 : ℕ) (s : State N) (dialog : DateTimeState)
      → t ≤ c
      → c ≤ c1
      → c1 ≤ c2
      → IsCoherent t s
      → IsCoherent c2 (handle_apply calendar z c c1 c2 (dialog, s)).2
  unfolding handle_apply
  applied-IsCoherent t c c1 c2 s dialog h h1 h2 i =
      let range = (calc_range calendar c c1 dialog).0 in
      let start = range.start_range in
      let tested = if start == 0 then range.end_range else start in
      let kept = later-IsCoherent t c2 s (omega arith) i in
      elim (Bool-cases (ltb (ms_to_nano c2) tested)) [
        | inl e ↦ rw (e, handle_apply) kept
        | inr e ↦ elim (Bool-cases (leb start range.end_range)) [
          | inl f ↦
              rw (e, handle_apply, f)
                (absolute-IsCoherent c2 start range.end_range s (ground arith) (inr (ground arith)))
          | inr f ↦ rw (e, handle_apply, f) kept
        ]
      ]

  refreshed-IsCoherent :
      (t c : ℕ) (s : State N) → t ≤ c → IsCoherent t s → IsCoherent c (handle_refresh z c s)
  unfolding handle_refresh
  refreshed-IsCoherent t c s h i =
      let later = later-IsCoherent t c s h i in
      if-IsCoherent c s.current_timeframe.is_relative (relative-IsCoherent c _ s later.begun)
        (absolute-IsCoherent c _ _ s later.begun later.ordered)

  switched-IsCoherent :
      (t : ℕ) (s : State N) (checked : Bool)
      → is_disabled s ≡ false
      → IsCoherent t s
      → IsCoherent t (handle_change z checked s)
  unfolding handle_change is_disabled
  switched-IsCoherent t s checked h i =
      rw set_is_on_lem (record { begun = i.begun; ordered = i.ordered; live = λ e. ground arith })

  live_shown-IsCoherent :
      (t c : ℕ) (s : State N) → t ≤ c → IsCoherent t s → IsCoherent c (live_effect z c s)
  unfolding live_effect
  live_shown-IsCoherent t c s h i =
      let later = later-IsCoherent t c s h i in
      if-IsCoherent c s.live_spans_state.is_on (relative-IsCoherent c _ s later.begun) later

  initial-IsCoherent : (c d : ℕ) → c ≤ d → IsCoherent {N = N} d (initial_state c d)
  unfolding initial_state get_current_timestamp ms_to_nano
  initial-IsCoherent c d h = record {
    begun = omega arith;
    ordered = inr (omega arith);
    live = λ e. cc;
  }

  -- In every state that the page reaches from the initial one by any sequence of clicks on the time
  -- frame buttons, applied dialogs, refreshes and live switches, on a clock that does not go back,
  -- the time frame has begun, does not end before it starts (an end of 0 is no end), and the live
  -- mode is on only with a relative frame, where going back in the calendar gives no later time.
  pub Reach-IsCoherent :
      (c d : ℕ)
      → c ≤ d
      → {now : ℕ} {s : State N} → Reach (initial_state c d) d now s
      → IsCoherent now s
  Reach-IsCoherent c d h here = initial-IsCoherent c d h
  Reach-IsCoherent c d h (clicked {t} {u} r a b e h1 h2 h3 value selector) =
      clicked-IsCoherent t a b e u value selector h1 h2 h3 (Reach-IsCoherent c d h r)
  Reach-IsCoherent c d h (applied {t} {u} r a b e h1 h2 h3 dialog) =
      applied-IsCoherent t a b e u dialog h1 h2 h3 (Reach-IsCoherent c d h r)
  Reach-IsCoherent c d h (refreshed {t} {u} r a h1) =
      refreshed-IsCoherent t a u h1 (Reach-IsCoherent c d h r)
  Reach-IsCoherent c d h (switched {t} {u} r h1 checked) =
      switched-IsCoherent t u checked h1 (Reach-IsCoherent c d h r)
  Reach-IsCoherent c d h (live_shown {t} {u} r a h1) =
      live_shown-IsCoherent t a u h1 (Reach-IsCoherent c d h r)
