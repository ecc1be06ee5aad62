-- ===== src/Timeline/Positions.antt =====
-- TraceTimelineViewer/VirtualizedTraceView/ListView/Positions.js: the heights and the y-positions
-- of the rows, computed as far as they are needed. Heights are whole pixels. The source's `lastI`
-- is -1 or an index: `known` is `lastI + 1`, and every other index that may be -1 stands here with
-- one added to it too.
pub mod Sums
pub mod Confirm
pub mod Floor
pub mod Top
use teletrace.Base.{
  ℕ, zero, suc, ◌+◌, ◌-◌, ◌/◌, ◌≡◌, ◌==◌, Bool, true, false, not, ◌&&◌, ◌||◌, Option, none, some,
  if◌then◌else◌, ltb, leb,
}

-- An array with holes: `at` is none for `undefined`. (A sum with a hole, NaN in the source, is a
-- hole here.)
pub record Sparse : Type 0 where
  pub length : ℕ
  pub at : ℕ → Option ℕ

abbrev pub empty : Sparse
empty = record { length = 0; at = λ i. none }

abbrev pub write : Sparse → ℕ → Option ℕ → Sparse
write a i v = record {
  length = if ltb i a.length then a.length else suc i;
  at = λ j. if j == i then v else a.at j;
}

-- `a.length = n`.
abbrev pub set_length : Sparse → ℕ → Sparse
set_length a n = record { length = n; at = λ j. if ltb j n then a.at j else none }

abbrev pub plus : Option ℕ → ℕ → Option ℕ
plus none h = none
plus (some y) h = some (y + h)

pub record Positions : Type 0 where
  pub buffer_len : ℕ
  pub data_len : Option ℕ
  pub heights : Sparse
  pub known : ℕ
  pub ys : Sparse

unfoldable pub create : ℕ → Positions
create buffer_len = record {
  buffer_len = buffer_len;
  data_len = none;
  heights = empty;
  known = 0;
  ys = empty;
}

abbrev pub same_length : Option ℕ → ℕ → Bool
same_length none n = false
same_length (some m) n = m == n

unfoldable pub profile_data : ℕ → Positions → Positions
profile_data data_length s = if same_length s.data_len data_length then s else record s {
  data_len = some data_length;
  ys = set_length s.ys data_length;
  heights = set_length s.heights data_length;
  known = if ltb data_length s.known then data_length else s.known;
}

-- The rounds of the loop in `calcHeights` that are left, from the index `i`.
unfoldable pub calc_loop : ℕ → ℕ → (ℕ → ℕ) → Positions → Positions
calc_loop zero i height_getter s = s
calc_loop (suc rounds) i height_getter s = calc_loop rounds (suc i) height_getter (record s {
  heights = write s.heights i (some (height_getter i));
  ys = write s.ys (suc i) (plus (s.ys.at i) (height_getter i));
})

-- `calcHeights(end - 1, heightGetter, forced - 1)`.
unfoldable pub calc_heights : (end : ℕ) → (ℕ → ℕ) → (forced : Option ℕ) → Positions → Positions
unfolding calc_loop
calc_heights end height_getter forced s =
    let known : ℕ = elim forced [ none ↦ s.known | some f ↦ f ] in
    let started = record s { known = known } in
    let wanted = end + s.buffer_len in
    if leb wanted known
    then started
    else let new_end = if ltb s.heights.length wanted then s.heights.length else wanted in
      let ready = if known == 0 then record started { ys = write s.ys 0 (some 0) } else started in
      record (calc_loop (new_end - (known - 1)) (known - 1) height_getter ready) { known = new_end }

-- `this.ys[this.lastI]`.
abbrev pub last_y : Positions → Option ℕ
last_y s = if s.known == 0 then none else s.ys.at (s.known - 1)

abbrev pub is_short : ℕ → Option ℕ → Bool
is_short y_value none = true
is_short y_value (some y) = ltb y y_value

abbrev pub has_more : Positions → Bool
has_more s = elim s.data_len [ none ↦ false | some n ↦ ltb s.known n ]

-- The loop of `calcYs` on fuel, none where it runs out.
unfoldable pub calc_ys : ℕ → ℕ → (ℕ → ℕ) → Positions → Option Positions
unfolding calc_heights
calc_ys zero y_value height_getter s = none
calc_ys (suc fuel) y_value height_getter s =
    let next = calc_ys fuel y_value height_getter (calc_heights s.known height_getter none s) in
    if is_short y_value (last_y s) && has_more s then next else some s

-- The shifts of the known y-positions after a row, in `confirmHeight`: those at `i + 1 … lastI`,
-- and the one behind them where there is one. `old` and `new` are the row's heights.
abbrev pub shift_y : (old new : ℕ) → Option ℕ → Option ℕ
shift_y old new none = none
shift_y old new (some y) = some (y + new - old)

unfoldable pub confirm_height : ℕ → (ℕ → ℕ) → Positions → Positions
unfolding calc_heights
confirm_height i height_getter s =
    if leb s.known i then calc_heights (suc i) height_getter none s else (elim (s.heights.at i) [
      | none ↦ s
      | some old ↦
          (if height_getter i == old then s else record s {
            heights = write s.heights i (some (height_getter i));
            ys = record {
              length = s.ys.length;
              at = λ j.
                  if ltb i j && leb j s.known
                  then shift_y old (height_getter i) (s.ys.at j)
                  else s.ys.at j;
            };
          })
    ])

-- What a comparison with an entry says; it is false with a hole.
abbrev pub below : ℕ → Option ℕ → Bool
below y none = false
below y (some z) = ltb y z

abbrev pub above : ℕ → Option ℕ → Bool
above y none = false
above y (some z) = ltb z y

abbrev pub at_most : ℕ → Option ℕ → Bool
at_most y none = false
at_most y (some z) = leb y z

abbrev pub at_least : ℕ → Option ℕ → Bool
at_least y none = false
at_least y (some z) = leb z y

-- The bisection of `findFloorIndex`; none is its Error, and that the fuel ran out.
unfoldable pub bisect : ℕ → ℕ → (ℕ → Option ℕ) → (imin imax : ℕ) → Option ℕ
bisect zero y_value ys imin imax = none
bisect (suc fuel) y_value ys imin imax =
    let i = imin + (imax - imin) / 2 in
    let upper = bisect fuel y_value ys i imax in
    let lower = bisect fuel y_value ys imin i in
    if ltb imin imax
    then (if above y_value (ys i)
        then (if at_most y_value (ys (suc i)) then some i else upper)
        else if below y_value (ys i)
        then (if at_least y_value (ys (i - 1)) then some (i - 1) else lower)
        else some i)
    else none

-- What `findFloorIndex` does after `calcYs`.
unfoldable pub floor_index : ℕ → Positions → Option ℕ
unfolding bisect
floor_index y_value s =
    if ltb s.ys.length 2 || below y_value (s.ys.at 1)
    then some 0
    else if above y_value (last_y s)
    then some (s.known - 1)
    else bisect (suc s.known) y_value s.ys.at 0 (s.known - 1)

unfoldable pub find_floor_index : (fuel : ℕ) → ℕ → (ℕ → ℕ) → Positions → Option (ℕ × Positions)
unfolding calc_ys floor_index
find_floor_index fuel y_value height_getter s = elim (calc_ys fuel y_value height_getter s) [
  | none ↦ none
  | some t ↦ elim (floor_index y_value t) [ none ↦ none | some i ↦ some (i, t) ]
]

-- The height and the y of a row.
unfoldable pub get_row_position : ℕ → (ℕ → ℕ) → Positions → (Option ℕ × Option ℕ) × Positions
unfolding confirm_height
get_row_position index height_getter s =
    let t = confirm_height index height_getter s in ((t.heights.at index, t.ys.at index), t)
