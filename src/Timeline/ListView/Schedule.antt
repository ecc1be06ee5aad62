-- ===== src/Timeline/ListView/Schedule.antt =====
-- TraceTimelineViewer/VirtualizedTraceView/ListView/index.js: when the list looks at the scroll
-- position. The wrapper's own `onScroll`, of a list with windowScroller false, is not modelled: the
-- timeline's list scrolls with the window. A frame that is asked of the window comes later; `frames` counts those that are to come.
pub mod Pending
use teletrace.Base.{
  ℕ, zero, suc, ◌+◌, ◌-◌, ◌==◌, Bool, true, false, not, ◌||◌, Option, none, some, List, [], ◌∷◌,
  if◌then◌else◌,
}
use teletrace.Timeline.Positions.{Positions, create}
use teletrace.Timeline.ListView.{Props, View, needs_update, calc_view_indexes}

-- What the browser says of the element that scrolls, of the wrapper's top, and of the window.
pub record Screen : Type 0 where
  pub client_height : ℕ
  pub scroll_top : ℕ
  pub wrapper_top : ℕ
  pub inner_height : ℕ
  pub scroll_y : ℕ

-- The list; a height, a position or an offset of -1 is none. The listener of the window is there from
-- `addEventListener` to `removeEventListener`.
pub record Scroller : Type 0 where
  pub view : View
  pub y_positions : Positions
  pub view_height : Option ℕ
  pub scroll_top : Option ℕ
  pub is_scrolled_or_resized : Bool
  pub html_top_offset : Option ℕ
  pub window_scroll_listener_added : Bool
  pub listens_scroll : Bool
  pub has_wrapper : Bool
  pub frames : ℕ

unfoldable pub create_list : Scroller
create_list = record {
  view = record { start_index = 0; end_index = 0; drawn = none };
  y_positions = create 200;
  view_height = none;
  scroll_top = none;
  is_scrolled_or_resized = false;
  html_top_offset = none;
  window_scroll_listener_added = false;
  listens_scroll = false;
  has_wrapper = false;
  frames = 0;
}

-- `componentDidMount` and `componentWillUnmount`.
unfoldable pub did_mount : (window_scroller : Bool) → Screen → Scroller → Scroller
did_mount window_scroller screen s =
    if window_scroller
    then record s {
      html_top_offset =
          if s.has_wrapper
          then some (screen.wrapper_top + screen.scroll_top)
          else s.html_top_offset;
      window_scroll_listener_added = true;
      listens_scroll = true;
    }
    else s

unfoldable pub will_unmount : Scroller → Scroller
will_unmount s = record s {
  listens_scroll = if s.window_scroll_listener_added then false else s.listens_scroll;
}

-- `_initWrapper`, with the element or without.
unfoldable pub init_wrapper : (window_scroller has_element : Bool) → Screen → Scroller → Scroller
init_wrapper window_scroller has_element screen s = record s {
  has_wrapper = has_element;
  view_height =
      if window_scroller || not has_element then s.view_height else some screen.client_height;
}

-- `_onScroll`.
unfoldable pub on_scroll : Scroller → Scroller
on_scroll s =
    if s.is_scrolled_or_resized
    then s
    else record s { is_scrolled_or_resized = true; frames = s.frames + 1 }

abbrev pub is_same : Option ℕ → ℕ → Bool
is_same none n = false
is_same (some m) n = n == m

-- `_isViewChanged`.
unfoldable pub is_view_changed : Screen → Scroller → Bool
is_view_changed screen s =
    if s.has_wrapper
    then not (is_same s.view_height screen.client_height)
      || not (is_same s.scroll_top screen.scroll_top)
    else false

-- The height of the window less the offset of the list in it.
abbrev pub below_top : Option ℕ → ℕ → ℕ
below_top none height = height + 1
below_top (some offset) height = height - offset

module _ (fuel : ℕ) (height_getter : ℕ → ℕ) (window_scroller : Bool) (props : Props) where
  -- `_calcViewIndexes` from a height and a position; none is an Error of `findFloorIndex`.
  unfoldable pub calc_at : (view_height scroll_top : ℕ) → Scroller → Option Scroller
  unfolding calc_view_indexes
  calc_at view_height scroll_top s =
      elim (calc_view_indexes fuel scroll_top view_height height_getter s.view s.y_positions) [
        | none ↦ none
        | some (view, y_positions) ↦ some (record s {
          view = view;
          y_positions = y_positions;
          view_height = some view_height;
          scroll_top = some scroll_top;
        })
      ]

  -- `_calcViewIndexes`. (The list is at the top of the window or above its lower edge.)
  unfoldable pub calc_indexes : Screen → Scroller → Option Scroller
  unfolding calc_at
  calc_indexes screen s =
      if window_scroller
      then calc_at (below_top s.html_top_offset screen.inner_height) screen.scroll_y s
      else if s.has_wrapper
      then calc_at screen.client_height screen.scroll_top s
      else some
          (record s { view_height = none; view = record s.view { start_index = 0; end_index = 0 } })

  -- `_positionList`: the list, and whether it is drawn again. After an Error it is as it was, but for
  -- the flag.
  unfoldable pub position_list : Screen → Scroller → Scroller × Bool
  unfolding calc_indexes
  position_list screen s =
      let ready = record s { is_scrolled_or_resized = false } in
      if s.has_wrapper
      then (elim (calc_indexes screen ready) [
        | none ↦ (ready, false)
        | some t ↦ (t, needs_update props t.view)
      ])
      else (ready, false)

  -- What happens to the list: a frame comes only if one is to come, and scrolling is heard of only
  -- with a listener.
  unfoldable pub frame_of_pending : (frames : ℕ) → Screen → Scroller → Scroller
  unfolding position_list
  frame_of_pending zero screen s = s
  frame_of_pending (suc later) screen s = (position_list screen (record s { frames = later })).0

  unfoldable pub frame : Screen → Scroller → Scroller
  frame screen s = frame_of_pending s.frames screen s

  unfoldable pub scroll : Scroller → Scroller
  unfolding on_scroll
  scroll s = if s.listens_scroll then on_scroll s else s
