-- ===== src/Timeline/ListView/Schedule/Pending.antt =====
-- However often the page is scrolled, one frame at most is to come.
use teletrace.Base.{
  ℕ, zero, suc, ◌≡◌, refl, ◌∙◌, Bool, true, false, Option, none, some, List, [], ◌∷◌, if◌then◌else◌,
  arith,
}
use teletrace.Timeline.ListView.{Props, needs_update, calc_view_indexes}
use teletrace.Timeline.ListView.Schedule.{
  Screen, Scroller, create_list, did_mount, will_unmount, init_wrapper, on_scroll, calc_at,
  calc_indexes, position_list, frame_of_pending, frame, scroll,
}

pub data Event : Type 0 where
  mounts framed : Screen → Event
  unmounts scrolled : Event
  wraps : (has_element : Bool) → Screen → Event

-- A frame is to come exactly if the flag is set, and then a single one.
abbrev pub IsPending : Scroller → Type 0
IsPending s = s.frames ≡ (if s.is_scrolled_or_resized then 1 else 0)

if-holds : {A : Type 0} (P : A → Type 0) (b : Bool) (x y : A) → P x → P y → P (if b then x else y)
if-holds P true x y p q = p
if-holds P false x y p q = q

module _ (fuel : ℕ) (height_getter : ℕ → ℕ) (window_scroller : Bool) (props : Props) where
  abbrev pub happens : Event → Scroller → Scroller
  happens (mounts screen) s = did_mount window_scroller screen s
  happens (framed screen) s = frame fuel height_getter window_scroller props screen s
  happens unmounts s = will_unmount s
  happens scrolled s = scroll fuel height_getter window_scroller props s
  happens (wraps has_element screen) s = init_wrapper window_scroller has_element screen s

  abbrev pub run_list : List Event → Scroller → Scroller
  run_list [] s = s
  run_list (e ∷ es) s = run_list es (happens e s)

  -- Computing the indexes leaves the flag and the frames.
  abbrev IsKept : Scroller → Option Scroller → Type 0
  IsKept s none = Unit
  IsKept s (some t) = (t.frames ≡ s.frames) × (t.is_scrolled_or_resized ≡ s.is_scrolled_or_resized)

  calc_at-IsKept :
      (height top : ℕ) (s : Scroller)
      → IsKept s (calc_at fuel height_getter window_scroller props height top s)
  unfolding calc_at
  calc_at-IsKept height top s =
      elim (calc_view_indexes fuel top height height_getter s.view s.y_positions)
        as (λ r. IsKept s (elim r [
          | none ↦ none
          | some (view, y_positions) ↦ some (record s {
            view = view;
            y_positions = y_positions;
            view_height = some height;
            scroll_top = some top;
          })
        ])) [ none ↦ tt | some (view, y_positions) ↦ (refl, refl) ]

  calc_indexes-IsKept :
      (screen : Screen) (s : Scroller)
      → IsKept s (calc_indexes fuel height_getter window_scroller props screen s)
  unfolding calc_indexes
  calc_indexes-IsKept screen s =
      if-holds (IsKept s) window_scroller _ _ (calc_at-IsKept _ _ s)
        (if-holds (IsKept s) s.has_wrapper _ _ (calc_at-IsKept _ _ s) (refl, refl))

  position_list-frames :
      (screen : Screen) (s : Scroller)
      → let t = (position_list fuel height_getter window_scroller props screen s).0 in
        (t.frames ≡ s.frames) × (t.is_scrolled_or_resized ≡ false)
  unfolding position_list
  position_list-frames screen s =
      let ready : Scroller = record s { is_scrolled_or_resized = false } in
      let kept = calc_indexes-IsKept screen ready in
      if-holds {A = Scroller × Bool}
        (λ r. (r.0.frames ≡ s.frames) × (r.0.is_scrolled_or_resized ≡ false)) s.has_wrapper _ _
        (elim (calc_indexes fuel height_getter window_scroller props screen ready)
            as (λ o.
              IsKept ready o
              → let r : Scroller × Bool = elim o [
                | none ↦ (ready, false)
                | some t ↦ (t, needs_update props t.view)
              ] in
                (r.0.frames ≡ s.frames) × (r.0.is_scrolled_or_resized ≡ false)) [
                  | none ↦ λ k. (refl, refl)
                  | some t ↦ λ k. k
                ]
          kept)
        (refl, refl)

  frame-IsPending :
      (n : ℕ) (screen : Screen) (s : Scroller)
      → s.frames ≡ n
      → IsPending s
      → IsPending (frame_of_pending fuel height_getter window_scroller props n screen s)
  unfolding frame_of_pending
  frame-IsPending zero screen s e h = h
  frame-IsPending (suc later) screen s e h =
      let (frames, flag) = position_list-frames screen (record s { frames = later }) in
      let last : later ≡ 0 = ground arith in rw flag (frames ∙ last)

  scroll-IsPending :
      (s : Scroller)
      → IsPending s
      → IsPending (scroll fuel height_getter window_scroller props s)
        × (s.listens_scroll ≡ true → (scroll fuel height_getter window_scroller props s).frames ≡ 1)
  unfolding scroll on_scroll
  scroll-IsPending s h = (ground arith, λ listens. ground arith)

  happens-IsPending : (e : Event) (s : Scroller) → IsPending s → IsPending (happens e s)
  unfolding did_mount will_unmount init_wrapper frame
  happens-IsPending (mounts screen) s h = if-holds IsPending window_scroller _ _ h h
  happens-IsPending (framed screen) s h = frame-IsPending s.frames screen s refl h
  happens-IsPending unmounts s h = h
  happens-IsPending scrolled s h = (scroll-IsPending s h).0
  happens-IsPending (wraps has_element screen) s h = h

  run_list-IsPending : (es : List Event) (s : Scroller) → IsPending s → IsPending (run_list es s)
  run_list-IsPending [] s h = h
  run_list-IsPending (e ∷ es) s h = run_list-IsPending es (happens e s) (happens-IsPending e s h)

  -- Whatever happens to the list (mounting, its elements, scrolling, frames of the window, unmounting)
  -- and in whatever order, a frame is to come exactly if the list has noted that it was scrolled, and
  -- then a single one; and if the list listens, one is to come after the next scrolling.
  pub run_list-scheduled :
      (es : List Event)
      → let s = run_list es create_list in
        IsPending s
        × (s.listens_scroll ≡ true → (scroll fuel height_getter window_scroller props s).frames ≡ 1)
  unfolding create_list
  run_list-scheduled es =
      let pending = run_list-IsPending es create_list refl in
      (pending, (scroll-IsPending (run_list es create_list) pending).1)
