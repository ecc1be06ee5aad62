-- ===== src/Timeline/Positions/Sums.antt =====
-- The y-positions are the sums of the heights before them, whatever is computed in which order.
use teletrace.Base.{
  ℕ, zero, suc, ◌+◌, ◌-◌, ◌≡◌, ◌≤◌, ◌<◌, ◌==◌, refl, sym, ap, subst, ◌∙◌, inl, inr, false, none,
  some, if◌then◌else◌, ltb, leb, arith, Bool-cases,
}
use teletrace.Timeline.Positions.{Positions, write, calc_loop, calc_heights}

-- The sum of the heights of the first rows.
unfoldable pub prefix : (ℕ → ℕ) → ℕ → ℕ
prefix g zero = 0
prefix g (suc i) = prefix g i + g i

-- The rows before `known` have the heights `g`, and the y-positions that go with them.
pub record IsSummed (g : ℕ → ℕ) (n : ℕ) (s : Positions) : Type 0 where
  pub profiled : s.data_len ≡ some n
  pub sized : s.heights.length ≡ n
  pub within : s.known ≤ n
  pub written : s.known ≤ s.ys.length
  pub heights : (i : ℕ) → i < s.known → s.heights.at i ≡ some (g i)
  pub ys : (i : ℕ) → i < s.known → s.ys.at i ≡ some (prefix g i)

-- The state of the loop of `calcHeights` before the round `i`.
pub record IsReached (h : ℕ → ℕ) (n i : ℕ) (s : Positions) : Type 0 where
  pub profiled : s.data_len ≡ some n
  pub sized : s.heights.length ≡ n
  pub written : i < s.ys.length
  pub heights : (j : ℕ) → j < i → s.heights.at j ≡ some (h j)
  pub ys : (j : ℕ) → j ≤ i → s.ys.at j ≡ some (prefix h j)

pub prefix-agree : (g h : ℕ → ℕ) (k : ℕ) → ((i : ℕ) → i < k → h i ≡ g i) → prefix h k ≡ prefix g k
unfolding prefix
prefix-agree g h zero e = refl
prefix-agree g h (suc k) e =
    let last = e k (omega arith) in
    let rest = prefix-agree g h k (λ i p. e i (omega arith)) in omega arith

-- The row that `calcHeights` goes up to.
unfoldable pub new_end : (end : ℕ) → Positions → ℕ
new_end end s =
    if ltb s.heights.length (end + s.buffer_len) then s.heights.length else end + s.buffer_len

-- `calcHeights` asks the getter for the last known row and those behind it only.
calc_loop-agree :
    (h h' : ℕ → ℕ) (rounds i : ℕ) (s : Positions)
    → ((j : ℕ) → i ≤ j → h j ≡ h' j)
    → calc_loop rounds i h s ≡ calc_loop rounds i h' s
unfolding calc_loop
calc_loop-agree h h' zero i s e = refl
calc_loop-agree h h' (suc rounds) i s e =
    rw (e i (omega arith)) (calc_loop-agree h h' rounds (suc i) _ (λ j p. e j (omega arith)))

pub calc_heights-agree :
    (h h' : ℕ → ℕ) (end : ℕ) (s : Positions)
    → ((j : ℕ) → s.known - 1 ≤ j → h j ≡ h' j)
    → calc_heights end h none s ≡ calc_heights end h' none s
unfolding calc_heights new_end
calc_heights-agree h h' end s e = elim (Bool-cases (leb (end + s.buffer_len) s.known)) [
  | inl q ↦ rw q refl
  | inr q ↦ rw q (
      ap (λ (t : Positions). record t { known = new_end end s })
        (calc_loop-agree h h' (new_end end s - (s.known - 1)) (s.known - 1) _ e))
]

module _ (h : ℕ → ℕ) (n : ℕ) where
  round-IsReached :
      (i : ℕ) (s : Positions)
      → i < n
      → IsReached h n i s
      → IsReached h n (suc i) (calc_loop 1 i h s)
  unfolding calc_loop prefix
  round-IsReached i s p r = record {
    profiled = r.profiled;
    sized = let e = r.sized in ground arith;
    written = let e = r.written in ground arith;
    heights = λ j q. let e = r.heights j in ground arith;
    ys = λ j q. let e = r.ys j in let last = r.ys i (omega arith) in ground arith;
  }

  calc_loop-IsReached :
      (rounds i : ℕ) (s : Positions)
      → rounds + i ≤ n
      → IsReached h n i s
      → IsReached h n (rounds + i) (calc_loop rounds i h s)
  unfolding calc_loop
  calc_loop-IsReached zero i s p r = let o : 0 + i ≡ i = omega arith in rw o r
  calc_loop-IsReached (suc rounds) i s p r =
      let step : suc rounds + i ≡ rounds + suc i = omega arith in
      subst (λ k. IsReached h n k (calc_loop (suc rounds) i h s)) (sym step)
        (calc_loop-IsReached rounds (suc i) _ (omega arith) (round-IsReached i s (omega arith) r))

  -- What the loop of `calcHeights` starts from, and what it leaves.
  ready : Positions → Positions
  ready s =
      if s.known == 0
      then record s { known = s.known; ys = write s.ys 0 (some 0) }
      else record s { known = s.known }

  ready-buffer_len : (s : Positions) → (ready s).buffer_len ≡ s.buffer_len
  unfolding ready
  ready-buffer_len s = elim (Bool-cases (s.known == 0)) [ inl z ↦ rw z refl | inr z ↦ rw z refl ]

  ready-IsReached :
      (g : ℕ → ℕ) (s : Positions)
      → IsSummed g n s
      → ((i : ℕ) → i < s.known - 1 → h i ≡ g i)
      → IsReached h n (s.known - 1) (ready s)
  unfolding prefix ready
  ready-IsReached g s r e = elim (Bool-cases (s.known == 0)) [
    | inl z ↦ rw z (record {
      profiled = r.profiled;
      sized = r.sized;
      written = ground arith;
      heights = λ j q. let k : s.known ≡ 0 = ground arith in absurd (omega arith);
      ys = λ j q. let k : s.known ≡ 0 = ground arith in let o : j ≡ 0 = omega arith in rw o refl;
    })
    | inr z ↦ rw z (record {
      profiled = r.profiled;
      sized = r.sized;
      written = let w = r.written in ground arith;
      heights = λ j q. r.heights j (omega arith) ∙ ap some (sym (e j (omega arith)));
      ys = λ j q.
          r.ys j (ground arith) ∙ ap some (sym (prefix-agree g h j (λ i l. e i (ground arith))));
    })
  ]

  calc_heights-far :
      (end : ℕ) (s : Positions)
      → s.known < end + s.buffer_len
      → calc_heights end h none s
        ≡ record (calc_loop (new_end end s - (s.known - 1)) (s.known - 1) h (ready s)) {
          known = new_end end s;
        }
  unfolding calc_heights new_end ready
  calc_heights-far end s p =
      let near : leb (end + s.buffer_len) s.known ≡ false = ground arith in rw near refl

  calc_loop-buffer_len :
      (rounds i : ℕ) (s : Positions) → (calc_loop rounds i h s).buffer_len ≡ s.buffer_len
  unfolding calc_loop
  calc_loop-buffer_len zero i s = refl
  calc_loop-buffer_len (suc rounds) i s = calc_loop-buffer_len rounds (suc i) _

  -- `calcHeights` towards a row that is not known yet.
  pub calc_heights-IsSummed :
      (g : ℕ → ℕ) (end : ℕ) (s : Positions)
      → IsSummed g n s
      → ((j : ℕ) → j < s.known - 1 → h j ≡ g j)
      → s.known < end + s.buffer_len
      → IsSummed h n (calc_heights end h none s)
        × ((calc_heights end h none s).known ≡ new_end end s)
        × ((calc_heights end h none s).buffer_len ≡ s.buffer_len)
        × ((calc_heights end h none s).ys.at (new_end end s) ≡ some (prefix h (new_end end s)))
  calc_heights-IsSummed g end s r e p =
      let sized = r.sized in
      let within = r.within in
      let up : s.known - 1 ≤ new_end end s = unfold new_end in ground arith in
      let top : new_end end s ≤ n = unfold new_end in ground arith in
      let rounds : (new_end end s - (s.known - 1)) + (s.known - 1) ≡ new_end end s =
        omega (arith, up) in
      let reached : IsReached h n (new_end end s)
          (calc_loop (new_end end s - (s.known - 1)) (s.known - 1) h (ready s)) =
        subst
          (λ k.
            IsReached h n k (calc_loop (new_end end s - (s.known - 1)) (s.known - 1) h (ready s)))
          rounds
          (calc_loop-IsReached (new_end end s - (s.known - 1)) (s.known - 1) (ready s)
            (omega (arith, top)) (ready-IsReached g s r e)) in
      rw (calc_heights-far end s p) (
        record {
          profiled = reached.profiled;
          sized = reached.sized;
          within = top;
          written = let w = reached.written in omega arith;
          heights = reached.heights;
          ys = λ j l. reached.ys j (omega arith);
        },
        refl,
        calc_loop-buffer_len (new_end end s - (s.known - 1)) (s.known - 1) (ready s)
            ∙ ready-buffer_len s,
        reached.ys (new_end end s) (omega arith),
      )

  -- `calcHeights` from a known row on, whose height may be another: the rows before it keep theirs.
  pub calc_heights-forced :
      (g : ℕ → ℕ) (end i : ℕ) (s : Positions)
      → IsSummed g n s
      → ((j : ℕ) → j < i → h j ≡ g j)
      → i < s.known
      → i < end
      → 0 < s.buffer_len
      → IsSummed h n (calc_heights end h (some (suc i)) s)
  unfolding calc_heights
  calc_heights-forced g end i s r e known_i i_end buffered =
      let t : Positions = record s { known = suc i } in
      let within = r.within in
      let written = r.written in
      let u : IsSummed g n t = record {
        profiled = r.profiled;
        sized = r.sized;
        within = omega arith;
        written = omega arith;
        heights = λ j p. r.heights j (omega arith);
        ys = λ j p. r.ys j (omega arith);
      } in
      (calc_heights-IsSummed g end t u (λ j p. e j (omega arith)) (omega arith)).0
