-- ===== src/Timeline/Tween/Frames.antt =====
-- A tween comes to its end.
use teletrace.Base.{
  ℕ, ◌+◌, ◌-◌, ◌≡◌, ◌≤◌, ◌<◌, ◌⊎◌, refl, sym, ap, ◌∙◌, inl, inr, Bool, true, false, ◌||◌, List, [],
  ◌∷◌, ◌++◌, if◌then◌else◌, leb, arith, Bool-cases,
}
use mathlib.Core.List.{append-nil}
use teletrace.Timeline.Tween.{
  Tween, Current, Call, updated, completed, create, cancel, get_current, frame_callback,
}

module _ {V : Type 0} (ease : ℕ → V → V → ℕ → V) where
  -- The window calls the tween at some times, and does so only while a timer or a frame waits.
  unfoldable pub run : List ℕ → Tween V → List (Call V) × Tween V
  unfolding frame_callback
  run [] s = ([], s)
  run (now ∷ times) s =
      let (calls, t) = frame_callback ease now s in
      let (more, u) = run times t in
      let rest = run times s in if s.timeout_id || s.request_id then (calls ++ more, u) else rest

-- Nothing waits and nothing will be called.
abbrev pub IsOver : {V : Type 0} → Tween V → Type 0
IsOver s =
    (s.timeout_id ≡ false)
    × (s.request_id ≡ false)
    × (s.callback_complete ≡ false)
    × (s.callback_update ≡ false)

-- The values of the calls of `onComplete`.
abbrev pub completions : {V : Type 0} → List (Call V) → List V
completions [] = []
completions (updated c ∷ cs) = completions cs
completions (completed c ∷ cs) = c.value ∷ completions cs

-- Some time is after the start, and at or after the end.
abbrev pub Reaches : {V : Type 0} → List ℕ → Tween V → Type 0
Reaches [] s = ⊥
Reaches (now ∷ times) s =
    ((s.start_time < now) × (s.start_time + s.duration ≤ now)) ⊎ Reaches times s

module _ {V : Type 0} (ease : ℕ → V → V → ℕ → V) where
  run-idle :
      (now : ℕ) (times : List ℕ) (s : Tween V)
      → (s.timeout_id || s.request_id) ≡ false
      → run ease (now ∷ times) s ≡ run ease times s
  unfolding run
  run-idle now times s e = rw e refl

  run-frame :
      (now : ℕ) (times : List ℕ) (s : Tween V)
      → (s.timeout_id || s.request_id) ≡ true
      → run ease (now ∷ times) s ≡ (
        (frame_callback ease now s).0 ++ (run ease times (frame_callback ease now s).1).0,
        (run ease times (frame_callback ease now s).1).1,
      )
  unfolding run
  run-frame now times s e = rw e refl

  run-IsOver :
      (times : List ℕ) (s : Tween V)
      → (s.timeout_id || s.request_id) ≡ false
      → run ease times s ≡ ([], s)
  run-IsOver [] s o = unfold run in refl
  run-IsOver (now ∷ times) s o = run-idle now times s o ∙ run-IsOver times s o

  -- The value at the end is the one that was asked for.
  get_current-done :
      (now : ℕ) (s : Tween V)
      → (get_current ease now s).is_done ≡ true
      → get_current ease now s ≡ record { is_done = true; value = s.to }
  unfolding get_current
  get_current-done now s e = elim (Bool-cases (leb now s.start_time)) [
    | inl early ↦ absurd (cc (rw early at e))
    | inr begun ↦ elim (Bool-cases (leb s.duration (now - s.start_time))) [
      | inl late ↦ rw (begun, late) refl
      | inr mid ↦ absurd (cc (rw (begun, mid) at e))
    ]
  ]

  get_current-late :
      (now : ℕ) (s : Tween V)
      → s.start_time < now
      → s.start_time + s.duration ≤ now
      → (get_current ease now s).is_done ≡ true
  unfolding get_current
  get_current-late now s p q =
      let begun : leb now s.start_time ≡ false = ground arith in
      let late : leb s.duration (now - s.start_time) ≡ true = ground arith in rw (begun, late) refl

  over : Tween V → Tween V
  over s = record s {
    timeout_id = false;
    request_id = false;
    callback_complete = false;
    callback_update = false;
  }

  next : Tween V → Tween V
  next s = record s { timeout_id = false; request_id = true }

  updates : Tween V → Current V → List (Call V)
  updates s c = if s.callback_update then updated c ∷ [] else []

  completions-updates :
      (s : Tween V) (c : Current V) (cs : List (Call V))
      → completions (updates s c ++ cs) ≡ completions cs
  unfolding updates
  completions-updates s c cs = elim (Bool-cases s.callback_update) [
    | inl e ↦ rw e refl
    | inr e ↦ rw e refl
  ]

  frame-done :
      (now : ℕ) (s : Tween V)
      → s.callback_complete ≡ true
      → (get_current ease now s).is_done ≡ true
      → frame_callback ease now s
        ≡ (updates s (get_current ease now s) ++ completed (get_current ease now s) ∷ [], over s)
  unfolding frame_callback over updates
  frame-done now s c e = simp (e, c) refl

  frame-next :
      (now : ℕ) (s : Tween V)
      → (get_current ease now s).is_done ≡ false
      → frame_callback ease now s ≡ (updates s (get_current ease now s), next s)
  unfolding frame_callback next updates
  frame-next now s e = simp e refl

  next-Reaches : (times : List ℕ) (s : Tween V) → Reaches times s → Reaches times (next s)
  unfolding next
  next-Reaches [] s r = r
  next-Reaches (now ∷ times) s (inl p) = inl p
  next-Reaches (now ∷ times) s (inr r) = inr (next-Reaches times s r)

  -- What a run gives after a frame whose calls and tween are known.
  run-after :
      (now : ℕ) (times : List ℕ) (s t : Tween V) (calls : List (Call V))
      → (s.timeout_id || s.request_id) ≡ true
      → frame_callback ease now s ≡ (calls, t)
      → run ease (now ∷ times) s ≡ (calls ++ (run ease times t).0, (run ease times t).1)
  run-after now times s t calls w e =
      run-frame now times s w ∙ ap (λ r. (r.0 ++ (run ease times r.1).0, (run ease times r.1).1)) e

  run-completes :
      (times : List ℕ) (s : Tween V)
      → (s.timeout_id || s.request_id) ≡ true
      → s.callback_complete ≡ true
      → Reaches times s
      → (completions (run ease times s).0 ≡ s.to ∷ []) × IsOver (run ease times s).1
  run-completes [] s w c r = absurd r
  run-completes (now ∷ times) s w c r = elim (Bool-cases (get_current ease now s).is_done) [
    | inl e ↦
        let current = get_current ease now s in
        let same : run ease (now ∷ times) s
            ≡ ((updates s current ++ completed current ∷ []) ++ [], over s) =
          run-after now times s (over s) _ w (frame-done now s c e)
          ∙ ap (λ q. ((updates s current ++ completed current ∷ []) ++ q.0, q.1))
              (run-IsOver times (over s) (unfold over in refl)) in
        rw
          (
            same,
            append-nil (updates s current ++ completed current ∷ []),
            completions-updates s current (completed current ∷ []),
            get_current-done now s e,
          )
          (refl, unfold over in (refl, refl, refl, refl))
    | inr e ↦
        let current = get_current ease now s in
        let later : Reaches times s = elim r [
          | inl (p, q) ↦ absurd (cc (sym (get_current-late now s p q) ∙ e))
          | inr later ↦ later
        ] in
        let (one, over) =
          run-completes times (next s) (unfold next in refl) (unfold next in c)
            (next-Reaches times s later) in
        rw
          (
            run-after now times s (next s) _ w (frame-next now s e),
            completions-updates s current (run ease times (next s)).0,
          )
          (one ∙ (unfold next in refl), over)
  ]

-- A tween with an `onComplete` comes to its end: whatever the easing and whether it has a delay, once
-- the window calls it after its start and at or after its end, `onComplete` has been called exactly
-- once, with the value aimed at, and no timer, frame or callback is left, whatever calls come before
-- and after. A cancelled tween calls nothing any more.
pub create-completes :
    {V : Type 0} (ease : ℕ → V → V → ℕ → V) (now duration delay : ℕ) (from to : V)
    (on_update : Bool) (times : List ℕ)
    → Reaches times (create now duration delay from to on_update true)
    → (completions (run ease times (create now duration delay from to on_update true)).0 ≡ to ∷ [])
      × IsOver (run ease times (create now duration delay from to on_update true)).1
      × ((s : Tween V) → run ease times (cancel s) ≡ ([], cancel s))
unfolding create
create-completes ease now duration delay from to on_update times r =
    let (one, over) =
      run-completes ease times (create now duration delay from to on_update true) (ground arith)
        refl r in
    (one, over, λ s. run-IsOver ease times (cancel s) (unfold cancel in refl))
