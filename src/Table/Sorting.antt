-- ===== src/Table/Sorting.antt =====
-- The sort orders of the store and the table component's state of them.
use teletrace.Base.{◌≡◌, refl, ap₂, Bool, true, false, not, List, [], ◌∷◌, map}
use teletrace.Search.Types.{Sort}
use teletrace.Store.State.{State, Zustand}
use teletrace.Store.Slices.{set_sort}
use teletrace.Table.{ColumnSort, sorting_state, update_sorting_state}

not-not : (b : Bool) → not (not b) ≡ b
not-not true = refl
not-not false = refl

to_columns_back :
    (cs : List ColumnSort)
    → map
        (λ (o : Sort). record { id = o.field; desc = not o.ascending })
        (map (λ c. record { field = c.id; ascending = not c.desc }) cs)
      ≡ cs
to_columns_back [] = refl
to_columns_back (c ∷ cs) =
    ap₂ (λ d ds. record c { desc = d } ∷ ds) (not-not c.desc) (to_columns_back cs)

to_sorts_back :
    (os : List Sort)
    → map
        (λ (c : ColumnSort). record { field = c.id; ascending = not c.desc })
        (map (λ o. record { id = o.field; desc = not o.ascending }) os)
      ≡ os
to_sorts_back [] = refl
to_sorts_back (o ∷ os) =
    ap₂ (λ a rest. record o { ascending = a } ∷ rest) (not-not o.ascending) (to_sorts_back os)

module _ {N : Type 0} (z : Zustand N) where
  -- After the table component updates its sorting, it reads back exactly the sorting that it made,
  -- and the update that changes nothing leaves the whole store as it was.
  sorting_state-update_sorting_state :
      (updater : List ColumnSort → List ColumnSort) (s : State N)
      → (sorting_state (update_sorting_state z updater s) ≡ updater (sorting_state s))
        × (update_sorting_state z (λ cs. cs) s ≡ s)
  unfolding update_sorting_state sorting_state set_sort
  sorting_state-update_sorting_state updater s = (
    rw z.set_lem (to_columns_back (updater (sorting_state s))),
    rw (z.set_lem, to_sorts_back s.sort) refl,
  )
