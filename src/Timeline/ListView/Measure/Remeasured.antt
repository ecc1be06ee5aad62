-- ===== src/Timeline/ListView/Measure/Remeasured.antt =====
-- The y-positions after the rows have been measured are the sums of the heights as they are known.
use teletrace.Base.{
  ℕ, suc, ◌<◌, ◌≡◌, refl, sym, ap, subst, String, Bool, true, false, none, some, List, Map, map_get,
  arith,
}
use teletrace.Timeline.Positions.{Positions, calc_heights}
use teletrace.Timeline.Positions.Sums.{IsSummed, calc_heights-forced}
use teletrace.Timeline.ListView.Measure.{
  Node, Heights, Scanning, get_height, scan_nodes, remeasure, scan_item_heights,
}
use teletrace.Timeline.ListView.Measure.Scan.{AreRows, AreKnown, clean, dirty, scan_nodes-IsScanned}

module _ (key_of : ℕ → String) (index_of : String → ℕ) (item_height : ℕ → String → ℕ) where
  -- A known height of a row that is the same leaves its height the same.
  get_height-same :
      (m m' : Map ℕ) (j : ℕ)
      → map_get (key_of j) m' ≡ map_get (key_of j) m
      → get_height key_of item_height m' j ≡ get_height key_of item_height m j
  unfolding get_height
  get_height-same m m' j e = rw (e, get_height) refl

  remeasure-clean :
      (p : Positions) (s : Scanning)
      → s.low_dirty_key ≡ none
      → remeasure key_of index_of item_height p s
        ≡ (record { known_heights = s.known_heights; y_positions = p }, false)
  unfolding remeasure
  remeasure-clean p s e = rw e refl

  remeasure-dirty :
      (p : Positions) (s : Scanning) (low high : String)
      → s.low_dirty_key ≡ some low
      → s.high_dirty_key ≡ some high
      → remeasure key_of index_of item_height p s ≡ (
        record {
          known_heights = s.known_heights;
          y_positions =
              calc_heights
                (index_of high)
                (get_height key_of item_height s.known_heights)
                (some (index_of low))
                p;
        },
        true,
      )
  unfolding remeasure
  remeasure-dirty p s low high e f = simp (e, f, remeasure) refl

  -- What the measuring of drawn rows leads to.
  pub record IsMeasured (n : ℕ) (nodes : List Node) (l : Heights) (r : Heights × Bool)
      : Type 0 where
    pub summed : IsSummed (get_height key_of item_height r.0.known_heights) n r.0.y_positions
    pub known : AreKnown r.0.known_heights nodes
    pub quiet : r.1 ≡ false → r.0 ≡ l

  -- The nodes are those of rows in their order (some may have no key), whose positions are known and
  -- whose keys and indexes belong together, the positions have a buffer, and the y-positions are the sums of the heights as they
  -- are known: after the measuring every node's observed height is known, the y-positions are the sums
  -- of the heights as they are known then, and if the list is not drawn again, nothing has changed.
  pub scan_item_heights-IsMeasured :
      (n : ℕ) (nodes : List Node) (l : Heights)
      → ((i : ℕ) → i < n → index_of (key_of i) ≡ suc i)
      → AreRows key_of l.y_positions.known 0 nodes
      → IsSummed (get_height key_of item_height l.known_heights) n l.y_positions
      → 0 < l.y_positions.buffer_len
      → IsMeasured n nodes l (scan_item_heights key_of index_of item_height (some nodes) l)
  unfolding scan_item_heights
  scan_item_heights-IsMeasured n nodes l indexed rows summed buffered =
      let within = summed.within in
      let distinct : (i j : ℕ)
          → i < l.y_positions.known
          → j < l.y_positions.known
          → key_of i ≡ key_of j
          → i ≡ j =
        λ i j p q e.
          let index_i = indexed i (omega arith) in
          let index_j = indexed j (omega arith) in let same = ap index_of e in omega arith in
      let s : Scanning = record {
        known_heights = l.known_heights;
        low_dirty_key = none;
        high_dirty_key = none;
      } in
      let (scanned, known) =
        scan_nodes-IsScanned key_of l.y_positions.known distinct 0 nodes s rows in
      elim scanned [
        | clean e ↦
            let known' : AreKnown l.known_heights nodes =
              subst (λ u. AreKnown u.known_heights nodes) e known in
            subst
              (λ u. IsMeasured n nodes l (remeasure key_of index_of item_height l.y_positions u))
              (sym e)
              (rw (remeasure-clean l.y_positions s refl)
                (record { summed = summed; known = known'; quiet = λ f. refl }))
        | dirty a b q r m same low high ↦
            let index_a = indexed a (omega arith) in
            let index_b = indexed b (omega arith) in
            rw
              (
                remeasure-dirty l.y_positions (scan_nodes nodes s) (key_of a) (key_of b) low high,
                index_a,
                index_b,
              )
              (record {
                summed =
                    calc_heights-forced _ n (get_height key_of item_height l.known_heights) (suc b)
                      a l.y_positions summed (λ j p. get_height-same l.known_heights _ j (same j p))
                      (omega arith) (omega arith) buffered;
                known = known;
                quiet = λ f. absurd (cc f);
              })
      ]
