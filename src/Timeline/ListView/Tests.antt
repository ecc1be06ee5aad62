-- ===== src/Timeline/ListView/Tests.antt =====
-- A list of two rows, whose second is measured to be higher than it was taken to be.
use teletrace.Base.{
  ℕ, zero, suc, ◌≡◌, ◌<◌, refl, String, true, some, List, [], ◌∷◌, arith, str_eq, if◌then◌else◌,
  ◌*◌, map_get,
}
use teletrace.Timeline.Positions.Sums.{IsSummed, prefix}
use teletrace.Timeline.ListView.{Props}
use teletrace.Timeline.ListView.Measure.{Node, Heights, get_height, scan_item_heights}
use teletrace.Timeline.ListView.Measure.Scan.{ended, row}
use teletrace.Timeline.ListView.Measure.Remeasured.{IsMeasured, scan_item_heights-IsMeasured}
use teletrace.Timeline.ListView.Schedule.{Screen, create_list, scroll}
use teletrace.Timeline.ListView.Schedule.Pending.{
  Event, mounts, scrolled, wraps, IsPending, run_list, run_list-scheduled,
}

abbrev key_of : ℕ → String
key_of zero = "a--bar"
key_of (suc i) = "b--bar"

abbrev index_of : String → ℕ
index_of key = if str_eq key "a--bar" then 1 else if str_eq key "b--bar" then 2 else 0

abbrev bar : ℕ → String → ℕ
bar i key = 30

indexed : (i : ℕ) → i < 2 → index_of (key_of i) ≡ suc i
indexed zero p = refl
indexed (suc zero) p = refl
indexed (suc (suc i)) p = absurd (omega arith)

abbrev heights : Heights
heights = record {
  known_heights = ("a--bar", 30) ∷ [];
  y_positions = record {
    buffer_len = 200;
    data_len = some 2;
    heights = record { length = 2; at = λ i. some 30 };
    known = 2;
    ys = record { length = 2; at = λ i. some (i * 30) };
  };
}

abbrev nodes : List Node
nodes =
    record { item_key = some "a--bar"; observed = 30 }
    ∷ record { item_key = some "b--bar"; observed = 50 }
    ∷ []

heights-IsSummed : IsSummed (get_height key_of bar heights.known_heights) 2 heights.y_positions
unfolding get_height prefix map_get
heights-IsSummed = record {
  profiled = refl;
  sized = refl;
  within = omega arith;
  written = omega arith;
  heights = λ i p. height_at i p;
  ys = λ i p. y_at i p;
}
  where
    height_at : (i : ℕ) → i < 2 → some 30 ≡ some (get_height key_of bar heights.known_heights i)
    height_at zero p = refl
    height_at (suc zero) p = refl
    height_at (suc (suc i)) p = absurd (omega arith)

    y_at :
        (i : ℕ)
        → i < 2
        → some (i * 30) ≡ some (prefix (get_height key_of bar heights.known_heights) i)
    y_at zero p = refl
    y_at (suc zero) p = refl
    y_at (suc (suc i)) p = absurd (omega arith)

scan_item_heights-IsMeasured_example :
    IsMeasured key_of index_of bar 2 nodes heights
      (scan_item_heights key_of index_of bar (some nodes) heights)
scan_item_heights-IsMeasured_example =
    scan_item_heights-IsMeasured key_of index_of bar 2 nodes heights indexed
      (row {i = 0} (omega arith) (omega arith) (row {i = 1} (omega arith) (omega arith) ended))
      heights-IsSummed (omega arith)

abbrev screen : Screen
screen = record {
  client_height = 600;
  scroll_top = 0;
  wrapper_top = 80;
  inner_height = 600;
  scroll_y = 0;
}

abbrev props : Props
props = record { data_length = 2; initial_draw = 100; view_buffer = 3000; view_buffer_min = 2000 }

-- The wrapper is there, the list is mounted, and the page is scrolled twice before a frame comes.
abbrev events : List Event
events = wraps true screen ∷ mounts screen ∷ scrolled ∷ scrolled ∷ []

run_list-scheduled_example :
    IsPending (run_list 3 (λ i. 30) true props events create_list)
    × ((run_list 3 (λ i. 30) true props events create_list).listens_scroll ≡ true
        → (scroll 3
            (λ i. 30)
            true
            props
            (run_list 3 (λ i. 30) true props events create_list)).frames
          ≡ 1)
run_list-scheduled_example = run_list-scheduled 3 (λ i. 30) true props events
