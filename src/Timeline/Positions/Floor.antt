-- ===== src/Timeline/Positions/Floor.antt =====
-- `findFloorIndex` ends and finds the row that holds a y-position.
use teletrace.Base.{
  ℕ, zero, suc, ◌+◌, ◌-◌, ◌/◌, ◌≡◌, ◌≤◌, ◌<◌, ◌==◌, ◌⊎◌, refl, ◌∙◌, subst, ◌≢◌, inl, inr, true,
  false, none, some, ltb, leb, ◌&&◌, ◌||◌, arith, Bool-cases, Option,
}
use teletrace.Timeline.Positions.{
  Positions, calc_heights, calc_ys, last_y, is_short, has_more, bisect, floor_index,
  find_floor_index, above, below,
}
use teletrace.Timeline.Positions.Sums.{prefix, IsSummed, calc_heights-IsSummed, new_end}

pub prefix-le : (h : ℕ → ℕ) (i k : ℕ) → prefix h i ≤ prefix h (k + i)
unfolding prefix
prefix-le h i zero = let o : 0 + i ≡ i = omega arith in rw o (omega arith)
prefix-le h i (suc k) =
    let o : suc k + i ≡ suc (k + i) = omega arith in rw o (omega (arith, prefix-le h i k))

prefix-next : (h : ℕ → ℕ) (i : ℕ) → prefix h i ≤ prefix h (suc i)
unfolding prefix
prefix-next h i = omega arith

-- The row `r` is the one that `y` lies in, or the last one and `y` is not above it.
abbrev pub IsFloor : (h : ℕ → ℕ) (n y r : ℕ) → Type 0
IsFloor h n y r = (r < n) × (prefix h r ≤ y) × ((y ≤ prefix h (suc r)) ⊎ (suc r ≡ n))

-- The state after `calcYs`: it is known up to the target, or to the end.
abbrev IsFar : (y n : ℕ) → Positions → Type 0
IsFar y n t = (is_short y (last_y t) ≡ false) ⊎ (t.known ≡ n)

module _ (h : ℕ → ℕ) (n : ℕ) where
  IsFar-stop :
      (y : ℕ) (s : Positions)
      → IsSummed h n s
      → (is_short y (last_y s) && has_more s) ≡ false
      → IsFar y n s
  IsFar-stop y s r done = elim (Bool-cases (is_short y (last_y s))) [
    | inl short ↦
        let more : has_more s ≡ false = rw short at done in
        let more' : ltb s.known n ≡ false = rw r.profiled at more in
        let within = r.within in inr (ground arith)
    | inr far ↦ inl far
  ]

  calc_ys_lem :
      (fuel y : ℕ) (s : Positions)
      → IsSummed h n s
      → 1 ≤ s.buffer_len
      → n < fuel + s.known
      → (t : Positions) × (calc_ys fuel y h s ≡ some t)
        × IsSummed h n t
        × IsFar y n t
        × (t.buffer_len ≡ s.buffer_len)
  unfolding calc_ys
  calc_ys_lem zero y s r b f = let w = r.within in absurd (omega arith)
  calc_ys_lem (suc fuel) y s r b f = elim (Bool-cases (is_short y (last_y s) && has_more s)) [
    | inl more ↦
        let open_end : s.known < n = let p = r.profiled in ground arith in
        let (kept, end, buffer, written) =
          calc_heights-IsSummed h n h s.known s r (λ j l. refl) (omega arith) in
        let sized = r.sized in
        let grown : s.known < new_end s.known s = unfold new_end in ground arith in
        let (t, e, kept', far, same) =
          calc_ys_lem fuel y (calc_heights s.known h none s) kept (omega (arith, buffer))
            (omega (arith, end, grown)) in
        (t, rw more e, kept', far, same ∙ buffer)
    | inr done ↦ (s, rw done refl, r, IsFar-stop y s r done, refl)
  ]

  bisect_lem :
      (fuel y imin imax : ℕ) (ys : ℕ → Option ℕ)
      → ((i : ℕ) → i ≤ imax → ys i ≡ some (prefix h i))
      → imin < imax
      → imax < n
      → prefix h imin < y
      → y ≤ prefix h imax
      → imax < fuel + imin
      → (r : ℕ) × (bisect fuel y ys imin imax ≡ some r) × IsFloor h n y r
  unfolding bisect
  bisect_lem zero y imin imax ys at p q lo hi f = absurd (omega arith)
  bisect_lem (suc fuel) y imin imax ys at p q lo hi f =
      let i = imin + (imax - imin) / 2 in
      let inside : (imin ≤ i) × (i < imax) × (suc imin < imax → imin < i) =
        (omega arith, omega arith, λ w. omega arith) in
      let less : ltb imin imax ≡ true = ground arith in
      let here = at i (omega arith) in
      elim (Bool-cases (ltb (prefix h i) y)) [
        | inl over ↦ elim (Bool-cases (leb y (prefix h (suc i)))) [
          | inl stop ↦ (
            i,
            rw (less, here, over, at (suc i) (omega arith), stop) refl,
            (omega arith, ground arith, inl (ground arith)),
          )
          | inr on ↦
              let apart : suc i ≢ imax =
                (λ e. let top : y ≤ prefix h (suc i) = rw e hi in ground arith) in
              let further : imin < i = omega arith in
              let (r, e, floor) =
                bisect_lem fuel y i imax ys at (omega arith) q (ground arith) hi (omega arith) in
              (r, rw (less, here, over, at (suc i) (omega arith), on) e, floor)
        ]
        | inr not_over ↦ elim (Bool-cases (ltb y (prefix h i))) [
          | inl under ↦
              let apart : imin ≢ i = (λ e.
                let low : prefix h i < y = subst (λ k. prefix h k < y) e lo in ground arith) in
              let prior : suc (i - 1) ≡ i = omega arith in
              let before = at (i - 1) (omega arith) in
              elim (Bool-cases (leb (prefix h (i - 1)) y)) [
                | inl stop ↦ (
                  i - 1,
                  rw (less, here, not_over, under, before, stop) refl,
                  (omega arith, ground arith, inl (rw prior (ground arith))),
                )
                | inr on ↦
                    let (r, e, floor) =
                      bisect_lem fuel y imin i ys (λ j l. at j (omega arith)) (omega arith)
                        (omega arith) lo (ground arith) (omega arith) in
                    (r, rw (less, here, not_over, under, before, on) e, floor)
              ]
          | inr equal ↦
              let same : y ≡ prefix h i = ground arith in
              (
                i,
                rw (less, here, not_over, equal) refl,
                (omega arith, omega arith, inl (omega (arith, prefix-next h i))),
              )
        ]
      ]

  pub last_y-IsSummed :
      (t : Positions) → IsSummed h n t → 1 ≤ t.known → last_y t ≡ some (prefix h (t.known - 1))
  last_y-IsSummed t r p =
      let known : (t.known == 0) ≡ false = ground arith in
      rw known (r.ys (t.known - 1) (omega arith))

  known-IsFar : (y : ℕ) (t : Positions) → IsSummed h n t → IsFar y n t → 1 ≤ n → 1 ≤ t.known
  known-IsFar y t r far p = elim (Bool-cases (t.known == 0)) [
    | inl z ↦ elim far [ inl e ↦ cc (rw z at e) | inr e ↦ ground arith ]
    | inr z ↦ ground arith
  ]

  -- A position below the last known row is met at the end of the rows only.
  end-IsFar :
      (y : ℕ) (t : Positions)
      → IsSummed h n t
      → IsFar y n t
      → 1 ≤ n
      → prefix h (t.known - 1) < y
      → t.known ≡ n
  end-IsFar y t r far p q =
      let known = known-IsFar y t r far p in
      elim far [
        | inl e ↦
            let e' : is_short y (some (prefix h (t.known - 1))) ≡ false =
              subst (λ last. is_short y last ≡ false) (last_y-IsSummed t r known) e in
            ground arith
        | inr e ↦ e
      ]

  -- After `calcYs`, the floor of a position.
  floor_index_lem :
      (y : ℕ) (t : Positions)
      → IsSummed h n t
      → IsFar y n t
      → 1 ≤ n
      → 0 < y
      → (r : ℕ) × (floor_index y t ≡ some r) × IsFloor h n y r
  unfolding floor_index
  floor_index_lem y t kept far p q =
      let known = known-IsFar y t kept far p in
      let last : last_y t ≡ some (prefix h (t.known - 1)) = last_y-IsSummed t kept known in
      elim (Bool-cases (t.known == 1)) [
        | inl one ↦
            let k : t.known ≡ 1 = ground arith in
            let none_before : prefix h (t.known - 1) ≡ 0 = rw k (unfold prefix in refl) in
            let short : t.known ≡ n = end-IsFar y t kept far p (omega arith) in
            let floor : floor_index y t ≡ some 0 =
              elim (Bool-cases (ltb t.ys.length 2 || below y (t.ys.at 1))) [
                | inl e ↦ rw e refl
                | inr e ↦
                    let over : above y (last_y t) ≡ true = rw last (ground arith) in
                    rw (e, over, k) refl
              ] in
            (0, floor, (omega arith, unfold prefix in omega arith, inr (omega arith)))
        | inr more ↦
            let second = kept.ys 1 (ground arith) in
            let written = kept.written in
            let long : ltb t.ys.length 2 ≡ false = ground arith in
            elim (Bool-cases (ltb y (prefix h 1))) [
              | inl first ↦ (
                0,
                rw (long, second, first) refl,
                (omega arith, unfold prefix in omega arith, inl (ground arith)),
              )
              | inr later ↦ elim (Bool-cases (ltb (prefix h (t.known - 1)) y)) [
                | inl over ↦
                    let e : t.known ≡ n = end-IsFar y t kept far p (ground arith) in
                    let over' : above y (last_y t) ≡ true = rw last over in
                    (
                      t.known - 1,
                      rw (long, second, later, over') refl,
                      (omega arith, ground arith, inr (omega arith)),
                    )
                | inr under ↦
                    let under' : above y (last_y t) ≡ false = rw last under in
                    let within = kept.within in
                    let (r, e, floor) =
                      bisect_lem (suc t.known) y 0 (t.known - 1) t.ys.at
                        (λ i l. kept.ys i (omega arith)) (ground arith) (omega arith)
                        (unfold prefix in q) (ground arith) (omega arith) in
                    (r, rw (long, second, later, under') e, floor)
              ]
            ]
      ]

pub find_floor_index-by :
    (fuel y : ℕ) (h : ℕ → ℕ) (s t : Positions) (r : ℕ)
    → calc_ys fuel y h s ≡ some t
    → floor_index y t ≡ some r
    → find_floor_index fuel y h s ≡ some (r, t)
unfolding find_floor_index
find_floor_index-by fuel y h s t r ran found = rw (ran, find_floor_index, found) refl

-- For a position below the top of the list and for rows whose heights do not change, `findFloorIndex`
-- ends without its error, on fuel of one more round than there are rows: it gives a row that the
-- position lies in, or the last row for a position behind it. The positions stay the sums of the
-- heights, and the buffer stays. It has to be one row at least, for otherwise `calcYs` would not go on.
pub find_floor_index_lem :
    (h : ℕ → ℕ) (n fuel y : ℕ) (s : Positions)
    → IsSummed h n s
    → 1 ≤ s.buffer_len
    → 1 ≤ n
    → 0 < y
    → n < fuel
    → (r : ℕ) × (t : Positions) × (find_floor_index fuel y h s ≡ some (r, t))
      × IsFloor h n y r
      × IsSummed h n t
      × (t.buffer_len ≡ s.buffer_len)
find_floor_index_lem h n fuel y s kept b p q f =
    let (t, ran, kept', far, same) = calc_ys_lem h n fuel y s kept b (omega arith) in
    let (r, found, floor) = floor_index_lem h n y t kept' far p q in
    (r, t, find_floor_index-by fuel y h s t r ran found, floor, kept', same)
