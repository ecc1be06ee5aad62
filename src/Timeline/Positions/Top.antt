-- ===== src/Timeline/Positions/Top.antt =====
-- `findFloorIndex` at the top of the list, which the rows' positions begin with.
use teletrace.Base.{
  ℕ, zero, suc, ◌≡◌, ◌≤◌, ◌<◌, ◌==◌, refl, sym, ◌∙◌, subst, ◌≢◌, inl, inr, Bool, true, false, none,
  some, ltb, ◌||◌, arith, Bool-cases,
}
use teletrace.Timeline.Positions.{
  Positions, calc_heights, calc_ys, last_y, is_short, has_more, floor_index, find_floor_index,
  below,
}
use teletrace.Timeline.Positions.Sums.{prefix, IsSummed, calc_heights-IsSummed, new_end}
use teletrace.Timeline.Positions.Floor.{last_y-IsSummed, find_floor_index-by}

or-true : (a b : Bool) → b ≡ true → (a || b) ≡ true
or-true a b e = ground arith

-- At the top of the list: `calcYs` stops if something is known, and otherwise reads the first rows.
module _ (h : ℕ → ℕ) (n : ℕ) where
  calc_ys-known :
      (fuel : ℕ) (s : Positions) → IsSummed h n s → 1 ≤ s.known → calc_ys (suc fuel) 0 h s ≡ some s
  unfolding calc_ys
  calc_ys-known fuel s r k =
      let far : is_short 0 (last_y s) ≡ false =
        subst (λ last. is_short 0 last ≡ false) (sym (last_y-IsSummed h n s r k)) (ground arith) in
      rw far refl

  second-written :
      (k : ℕ) (s : Positions)
      → IsSummed h n s
      → s.known ≡ k
      → 1 ≤ k
      → s.ys.at k ≡ some (prefix h k)
      → s.ys.at 1 ≡ some (prefix h 1)
  second-written k s r e p w = elim (Bool-cases (k == 1)) [
    | inl one ↦ let same : k ≡ 1 = ground arith in subst (λ j. s.ys.at j ≡ some (prefix h j)) same w
    | inr more ↦ r.ys 1 (ground arith)
  ]

  calc_ys-grows :
      (fuel : ℕ) (s : Positions)
      → IsSummed h n s
      → s.known ≡ 0
      → 1 ≤ n
      → calc_ys (suc fuel) 0 h s ≡ calc_ys fuel 0 h (calc_heights s.known h none s)
  unfolding calc_ys
  calc_ys-grows fuel s r z p =
      let short : is_short 0 (last_y s) ≡ true =
        let k : (s.known == 0) ≡ true = ground arith in rw k refl in
      let more : has_more s ≡ true =
        let e : has_more s ≡ ltb s.known n = rw r.profiled refl in e ∙ ground arith in
      rw (short, more) refl

  calc_ys-start :
      (fuel : ℕ) (s : Positions)
      → IsSummed h n s
      → 1 ≤ s.buffer_len
      → 1 ≤ n
      → s.known ≢ 1
      → (t : Positions) × (calc_ys (suc (suc fuel)) 0 h s ≡ some t)
        × IsSummed h n t
        × (t.buffer_len ≡ s.buffer_len)
        × (t.ys.at 1 ≡ some (prefix h 1))
  calc_ys-start fuel s r b p q = elim (Bool-cases (s.known == 0)) [
    | inl z ↦
        let none_known : s.known ≡ 0 = ground arith in
        let (kept, end, buffer, written) =
          calc_heights-IsSummed h n h s.known s r (λ j l. refl) (omega arith) in
        let sized = r.sized in
        let some_known : 1 ≤ new_end s.known s = unfold new_end in ground arith in
        let t = calc_heights s.known h none s in
        (
          t,
          calc_ys-grows (suc fuel) s r none_known p
              ∙ calc_ys-known fuel t kept (omega (arith, end)),
          kept,
          buffer,
          second-written (new_end s.known s) t kept end some_known written,
        )
    | inr k ↦ (s, calc_ys-known (suc fuel) s r (ground arith), r, refl, r.ys 1 (ground arith))
  ]

floor_index-first :
    (h : ℕ → ℕ) (t : Positions) → t.ys.at 1 ≡ some (prefix h 1) → 0 < h 0 → floor_index 0 t ≡ some 0
unfolding floor_index
floor_index-first h t second pos =
    let first : below 0 (t.ys.at 1) ≡ true =
      subst (λ v. below 0 v ≡ true) (sym second) (unfold prefix in ground arith) in
    rw (or-true (ltb t.ys.length 2) (below 0 (t.ys.at 1)) first) refl

-- The top of the list lies in the first row, if that has a height, unless only one row is known.
pub find_floor_index-top :
    (h : ℕ → ℕ) (n fuel : ℕ) (s : Positions)
    → IsSummed h n s
    → 1 ≤ s.buffer_len
    → 1 ≤ n
    → 2 ≤ fuel
    → s.known ≢ 1
    → 0 < h 0
    → (t : Positions) × (find_floor_index fuel 0 h s ≡ some (0, t))
      × IsSummed h n t
      × (t.buffer_len ≡ s.buffer_len)
find_floor_index-top h n zero s r b p f q pos = absurd (omega arith)
find_floor_index-top h n (suc zero) s r b p f q pos = absurd (omega arith)
find_floor_index-top h n (suc (suc fuel)) s r b p f q pos =
    let (t, ran, kept, buffer, second) = calc_ys-start h n fuel s r b p q in
    (
      t,
      find_floor_index-by (suc (suc fuel)) 0 h s t 0 ran (floor_index-first h t second pos),
      kept,
      buffer,
    )
