-- ===== src/Timeline/Colors.antt =====
-- utils/color-generator.js: the colours of keys, given out in turn.
pub mod Turns
use teletrace.Base.{
  ℕ, zero, suc, ◌+◌, ◌%◌, ◌==◌, String, Bool, true, false, Option, none, some, List, [], ◌∷◌,
  length, if◌then◌else◌, map_get, map_set,
}

-- `COLORS_HEX`.
abbrev pub colors_hex : List String
colors_hex = "#548CFF" ∷ "#A3E4DB" ∷ "#6E3CBC" ∷ "#4ABB8C" ∷ "#A2D2FF" ∷ []

-- The state of a `ColorGenerator`; the number of its colours is a parameter of the operations.
pub record ColorGenerator : Type 0 where
  pub cache : List (String × ℕ)
  pub current_idx : ℕ

-- A new generator, and what `clear` leaves.
abbrev pub cleared : ColorGenerator
cleared = record { cache = []; current_idx = 0 }

-- `_getColorIndex`, with the state after it.
unfoldable pub get_color_index : (colors : ℕ) → String → ColorGenerator → ℕ × ColorGenerator
get_color_index colors key s = elim (map_get key s.cache) [
  | none ↦ (
    s.current_idx,
    record {
      cache = map_set key s.current_idx s.cache;
      current_idx = (s.current_idx + 1) % colors;
    },
  )
  | some i ↦ (i, s)
]

abbrev pub color_at : List String → ℕ → Option String
color_at [] i = none
color_at (c ∷ cs) zero = some c
color_at (c ∷ cs) (suc i) = color_at cs i

-- `getColorByKey`; none is `undefined`.
unfoldable pub get_color_by_key :
    (colors : List String) → String → ColorGenerator → Option String × ColorGenerator
unfolding get_color_index
get_color_by_key colors key s =
    let (i, t) = get_color_index (length colors) key s in (color_at colors i, t)
