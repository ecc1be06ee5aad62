-- ===== src/Timeline/Resizer/Tests.antt =====
-- A grip that is dragged beyond its limits.
use teletrace.Base.{◌≡◌, refl, some, [], ◌∷◌, arith}
use teletrace.Numbers.Int.{ℤ, pos, ◌≤ℤ◌}
use teletrace.Timeline.Dragging.{Rect, create, get_position}
use teletrace.Timeline.Resizer.{Resizer, create_resizer, get_resizer_bounds}
use teletrace.Timeline.Resizer.Change.{run_resizer, grip, IsAtRest, run_resizer-grip}

abbrev root : Rect
root = record { left = pos 0; width = 1000 }

create_resizer-IsAtRest : IsAtRest create_resizer
unfolding create_resizer create
create_resizer-IsAtRest = record {
  is_free = refl;
  unbound = refl;
  unplaced = refl;
  starts = refl;
  moves = refl;
  ends = refl;
}

run_resizer-grip_example :
    (value : ℤ) × (r' : Resizer) × (run_resizer root
        (pos 200000000)
        (pos 850000000)
        (grip (pos 250) (pos 400 ∷ []) (pos 990))
        create_resizer
      ≡ some (value ∷ [], r'))
    × (value
        ≡ (get_position (pos 990) (get_resizer_bounds root (pos 200000000) (pos 850000000))).value)
    × (pos 200000000 ≤ℤ value)
    × (value ≤ℤ pos 850000000)
    × IsAtRest r'
run_resizer-grip_example =
    run_resizer-grip root (pos 200000000) (pos 850000000) (pos 250) (pos 990) (pos 400 ∷ [])
      create_resizer (omega arith) create_resizer-IsAtRest
