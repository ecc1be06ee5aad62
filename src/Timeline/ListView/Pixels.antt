-- ===== src/Timeline/ListView/Pixels.antt =====
-- From the scroll position to the rows that are drawn.
use teletrace.Base.{
  ℕ, suc, ◌+◌, ◌-◌, ◌≡◌, ◌≢◌, ◌≤◌, ◌<◌, ◌⊎◌, refl, sym, subst, inl, inr, true, some, arith,
  Bool-cases, leb,
}
use teletrace.Timeline.Positions.{Positions, find_floor_index}
use teletrace.Timeline.Positions.Sums.{prefix, IsSummed}
use teletrace.Timeline.Positions.Floor.{IsFloor, find_floor_index_lem, prefix-le}
use teletrace.Timeline.Positions.Top.{find_floor_index-top}
use teletrace.Timeline.ListView.{Props, DrawnRange, View, needed, window, calc_view_indexes}
use teletrace.Timeline.ListView.Window.{Covers, window-Covers}

-- The top of the list, where its first row has a height and more than one row is known or none; or a
-- position below it.
abbrev pub IsScrolled : (ℕ → ℕ) → ℕ → Positions → Type 0
IsScrolled h scroll_top s = (0 < scroll_top) ⊎ ((scroll_top ≡ 0) × (0 < h 0) × (s.known ≢ 1))

module _ (h : ℕ → ℕ) (n : ℕ) where
  prefix_mono : (i j : ℕ) → i ≤ j → prefix h i ≤ prefix h j
  prefix_mono i j p =
      let o : (j - i) + i ≡ j = omega arith in
      subst (λ k. prefix h i ≤ prefix h k) o (prefix-le h i (j - i))

  -- The row at a position is not behind the row at a later one.
  floors-le : (y z r q : ℕ) → IsFloor h n y r → IsFloor h n z q → y < z → r ≤ q
  floors-le y z r q (rn, low, high) (qn, low', high') lt = elim (Bool-cases (leb r q)) [
    | inl e ↦ ground arith
    | inr e ↦
        let behind : suc q ≤ r = ground arith in
        elim high' [
          | inl inside ↦ absurd (omega (arith, prefix_mono (suc q) r behind))
          | inr end ↦ absurd (omega arith)
        ]
  ]

  first-IsFloor :
      (fuel y : ℕ) (s : Positions)
      → IsSummed h n s
      → 1 ≤ s.buffer_len
      → 1 ≤ n
      → n < fuel
      → IsScrolled h y s
      → (r : ℕ) × (t : Positions) × (find_floor_index fuel y h s ≡ some (r, t))
        × IsFloor h n y r
        × IsSummed h n t
        × (t.buffer_len ≡ s.buffer_len)
  first-IsFloor fuel y s kept b p f (inl below) = find_floor_index_lem h n fuel y s kept b p below f
  first-IsFloor fuel y s kept b p f (inr (top, pos, q)) =
      let (t, e, kept', same) = find_floor_index-top h n fuel s kept b p (omega arith) q pos in
      (
        0,
        t,
        subst (λ k. find_floor_index fuel k h s ≡ some (0, t)) (sym top) e,
        (p, unfold prefix in omega arith, inl (omega arith)),
        kept',
        same,
      )

  calc_view_indexes-by :
      (fuel y height : ℕ) (v : View) (s t u : Positions) (r q : ℕ)
      → find_floor_index fuel y h s ≡ some (r, t)
      → find_floor_index fuel (y + height) h t ≡ some (q, u)
      → calc_view_indexes fuel y height h v s
        ≡ some (record v { start_index = r; end_index = q }, u)
  unfolding calc_view_indexes
  calc_view_indexes-by fuel y height v s t u r q e e' = rw (e, calc_view_indexes, e') refl

  -- What is drawn covers the pixels between two positions.
  abbrev pub CoversPixels : (first last y z : ℕ) → Type 0
  CoversPixels first last y z =
      (last < n) × (prefix h first ≤ y) × ((z ≤ prefix h (suc last)) ⊎ (suc last ≡ n))

  Covers-pixels :
      (p : Props) (v : View) (y z : ℕ) (r : DrawnRange)
      → p.data_length ≡ n
      → Covers p v (needed p v) r
      → IsFloor h n y v.start_index
      → IsFloor h n z v.end_index
      → CoversPixels r.first r.last y z
  Covers-pixels p v y z r e (a, b, c, first, last) (rn, low, high) (qn, low', high') = (
    omega arith,
    omega (arith, prefix_mono r.first v.start_index first),
    elim high' [
      | inl inside ↦ inl (omega (arith, prefix_mono (suc v.end_index) (suc r.last) (omega arith)))
      | inr end ↦ inr (omega arith)
    ],
  )

-- From a scroll position, with rows whose heights do not change, `_calcViewIndexes` finds the rows in
-- view without an Error, and `render` then draws rows of the data that cover every pixel of the view,
-- from the scroll position on, up to its height or the end of the rows. At the very top of the list the
-- first row has to have a height, and the known rows must not be just one.
pub calc_view_indexes-window :
    (h : ℕ → ℕ) (n fuel scroll_top view_height : ℕ) (p : Props) (v : View) (s : Positions)
    → IsSummed h n s
    → 1 ≤ s.buffer_len
    → 1 ≤ n
    → n < fuel
    → IsScrolled h scroll_top s
    → 0 < view_height
    → p.data_length ≡ n
    → p.view_buffer_min ≤ p.view_buffer
    → (w : View) × (u : Positions) × (calc_view_indexes fuel scroll_top view_height h v s
        ≡ some (w, u))
      × IsSummed h n u
      × CoversPixels h n
          (window true p w).first
          (window true p w).last
          scroll_top
          (scroll_top + view_height)
calc_view_indexes-window h n fuel y height p v s kept b q f scrolled high e buffers =
    let (r, t, found, floor, kept', same) = first-IsFloor h n fuel y s kept b q f scrolled in
    let (k, u, found', floor', kept'', same') =
      find_floor_index_lem h n fuel (y + height) t kept' (omega (arith, same)) q (omega arith) f in
    let w : View = record v { start_index = r; end_index = k } in
    let ordered = floors-le h n y (y + height) r k floor floor' (omega arith) in
    (
      w,
      u,
      calc_view_indexes-by h n fuel y height v s t u r k found found',
      kept'',
      Covers-pixels h n p w y (y + height) (window true p w) e
          (window-Covers p w ordered (omega (arith, floor'.0, e)) buffers) floor floor',
    )
