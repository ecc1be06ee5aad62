-- ===== src/Timeline/ListView.antt =====
-- TraceTimelineViewer/VirtualizedTraceView/ListView/index.js: which rows of the list are drawn.
pub mod Window
pub mod Pixels
pub mod Measure
pub mod Schedule
mod Tests
use teletrace.Timeline.Positions.{Positions, find_floor_index}
use teletrace.Base.{
  ℕ, ◌+◌, ◌-◌, Bool, true, false, ◌||◌, Option, none, some, if◌then◌else◌, ltb, leb,
}

-- The properties that the window depends on.
pub record Props : Type 0 where
  pub data_length : ℕ
  pub initial_draw : ℕ
  pub view_buffer : ℕ
  pub view_buffer_min : ℕ

-- Some rows, the last one included.
pub record DrawnRange : Type 0 where
  pub first : ℕ
  pub last : ℕ

-- The indexes in view, and those drawn: none before anything is drawn.
pub record View : Type 0 where
  pub start_index : ℕ
  pub end_index : ℕ
  pub drawn : Option DrawnRange

-- `maxStart` and `minEnd`: the rows that have to be drawn at least. (Their data has a row.)
unfoldable pub needed : Props → View → DrawnRange
needed p v = record {
  first = if ltb v.start_index p.view_buffer_min then 0 else v.start_index - p.view_buffer_min;
  last =
      if ltb p.view_buffer_min (p.data_length - v.end_index)
      then v.end_index + p.view_buffer_min
      else p.data_length - 1;
}

-- The test of `_positionList` and of `render`, that more has to be drawn.
unfoldable pub needs_update : Props → View → Bool
unfolding needed
needs_update p v = elim v.drawn [
  | none ↦ true
  | some d ↦ ltb (needed p v).first d.first || ltb d.last (needed p v).last
]

-- The rows that `render` draws, with the wrapper element there or not.
unfoldable pub window : (has_wrapper : Bool) → Props → View → DrawnRange
unfolding needs_update
window has_wrapper p v =
    let fresh : DrawnRange = record {
      first = if ltb v.start_index p.view_buffer then 0 else v.start_index - p.view_buffer;
      last =
          if leb p.data_length (v.end_index + p.view_buffer)
          then p.data_length - 1
          else v.end_index + p.view_buffer;
    } in
    if has_wrapper
    then (elim v.drawn [
      | none ↦ fresh
      | some d ↦
          (if needs_update p v then fresh else record {
            first = d.first;
            last = if ltb (p.data_length - 1) d.last then p.data_length - 1 else d.last;
          })
    ])
    else record {
      first = 0;
      last = (if ltb p.initial_draw p.data_length then p.initial_draw else p.data_length) - 1;
    }

-- `render`: what is drawn after it.
unfoldable pub render : (has_wrapper : Bool) → Props → View → View
unfolding window
render has_wrapper p v = record v { drawn = some (window has_wrapper p v) }

-- `_calcViewIndexes` at a scroll position, with fuel for `findFloorIndex`; none is its Error.
unfoldable pub calc_view_indexes :
    (fuel : ℕ)
    → (scroll_top view_height : ℕ) → (ℕ → ℕ)
    → View
    → Positions
    → Option (View × Positions)
unfolding find_floor_index
calc_view_indexes fuel scroll_top view_height height_getter v s =
    elim (find_floor_index fuel scroll_top height_getter s) [
      | none ↦ none
      | some (first, t) ↦ (elim (find_floor_index fuel (scroll_top + view_height) height_getter t) [
        | none ↦ none
        | some (last, u) ↦ some (record v { start_index = first; end_index = last }, u)
      ])
    ]
