-- ===== src/Timeline/ListView/Measure.antt =====
-- TraceTimelineViewer/VirtualizedTraceView/ListView/index.js: the heights of the drawn rows, which are
-- measured after each update. As in Positions, an index that may be -1 has one added to it.
pub mod Scan
pub mod Remeasured
use teletrace.Base.{
  ℕ, zero, suc, ◌+◌, ◌==◌, String, Bool, true, false, Option, none, some, List, [], ◌∷◌,
  if◌then◌else◌, Map, map_get, map_set,
}
use teletrace.Timeline.Positions.{Positions, calc_heights}

-- A node of the item holder: its "data-item-key" (none if it is missing or empty), and the height of
-- what is measured of it.
pub record Node : Type 0 where
  pub item_key : Option String
  pub observed : ℕ

-- What the list keeps of the heights.
pub record Heights : Type 0 where
  pub known_heights : Map ℕ
  pub y_positions : Positions

-- `_getHeight`. (A height is no NaN.)
unfoldable pub get_height :
    (get_key_from_index : ℕ → String) → (item_height_getter : ℕ → String → ℕ) → Map ℕ → ℕ → ℕ
get_height get_key_from_index item_height_getter known_heights i =
    elim (map_get (get_key_from_index i) known_heights) [
      | none ↦ item_height_getter i (get_key_from_index i)
      | some known ↦ known
    ]

-- What the loop of `_scanItemHeights` has found: `isDirty` says that there is a low key.
pub record Scanning : Type 0 where
  pub known_heights : Map ℕ
  pub low_dirty_key : Option String
  pub high_dirty_key : Option String

abbrev pub is_known : Option ℕ → ℕ → Bool
is_known none observed = false
is_known (some known) observed = observed == known

abbrev pub or_key : Option String → String → Option String
or_key none key = some key
or_key (some low) key = some low

-- A round of the loop for a node with a key.
unfoldable pub scan_key : String → ℕ → Scanning → Scanning
unfolding map_get map_set
scan_key key observed s = if is_known (map_get key s.known_heights) observed then s else record {
  known_heights = map_set key observed s.known_heights;
  low_dirty_key = or_key s.low_dirty_key key;
  high_dirty_key = some key;
}

abbrev pub scan_node : Node → Scanning → Scanning
scan_node node s = elim node.item_key [ none ↦ s | some key ↦ scan_key key node.observed s ]

unfoldable pub scan_nodes : List Node → Scanning → Scanning
scan_nodes [] s = s
scan_nodes (node ∷ nodes) s = scan_nodes nodes (scan_node node s)

-- The end of `_scanItemHeights`: the list's heights, and whether it is drawn again. (Without dirty
-- keys no height has changed.)
unfoldable pub remeasure :
    (get_key_from_index : ℕ → String)
    → (get_index_from_key : String → ℕ) → (item_height_getter : ℕ → String → ℕ) → Positions
    → Scanning
    → Heights × Bool
unfolding get_height calc_heights
remeasure get_key_from_index get_index_from_key item_height_getter y_positions s =
    let h = get_height get_key_from_index item_height_getter s.known_heights in
    elim s.low_dirty_key [
      | none ↦ (record { known_heights = s.known_heights; y_positions = y_positions }, false)
      | some low ↦ (elim s.high_dirty_key [
        | none ↦ (record { known_heights = s.known_heights; y_positions = y_positions }, false)
        | some high ↦ (
          record {
            known_heights = s.known_heights;
            y_positions =
                calc_heights (get_index_from_key high) h (some (get_index_from_key low))
                  y_positions;
          },
          true,
        )
      ])
    ]

-- `_scanItemHeights`, with an item holder (`nodes`) or none.
unfoldable pub scan_item_heights :
    (get_key_from_index : ℕ → String)
    → (get_index_from_key : String → ℕ) → (item_height_getter : ℕ → String → ℕ) → Option (List Node)
    → Heights
    → Heights × Bool
unfolding scan_nodes remeasure
scan_item_heights get_key_from_index get_index_from_key item_height_getter none l = (l, false)
scan_item_heights get_key_from_index get_index_from_key item_height_getter (some nodes) l =
    remeasure get_key_from_index get_index_from_key item_height_getter l.y_positions (
      scan_nodes nodes
        (record { known_heights = l.known_heights; low_dirty_key = none; high_dirty_key = none }))
