-- ===== src/Timeline/Positions/Confirm.antt =====
-- Asking for a row: its height is confirmed, and the rows behind it move with it.
use teletrace.Base.{
  ℕ, zero, suc, ◌+◌, ◌≡◌, ◌<◌, ◌==◌, refl, ap, subst, inl, inr, true, false, none, some,
  if◌then◌else◌, ltb, leb, ◌&&◌, arith, Bool-cases,
}
use teletrace.Timeline.Positions.{
  Positions, write, shift_y, create, same_length, get_row_position, profile_data, calc_heights,
  confirm_height,
}
use teletrace.Timeline.Positions.Sums.{
  prefix, IsSummed, new_end, calc_heights-agree, calc_heights-IsSummed,
}

-- The heights after `confirmHeight` of a row: the getter's where it asks for them. That is the row
-- alone if it is known, and otherwise the last known row and those behind it.
abbrev pub confirmed : (g h : ℕ → ℕ) (known i : ℕ) → ℕ → ℕ
confirmed g h known i j = if (if leb known i then leb known (suc j) else j == i) then h j else g j

prefix-confirmed :
    (g h : ℕ → ℕ) (known i k : ℕ)
    → i < known
    → prefix (confirmed g h known i) k + (if ltb i k then g i else 0)
      ≡ prefix g k + (if ltb i k then h i else 0)
unfolding prefix
prefix-confirmed g h known i zero p = ground arith
prefix-confirmed g h known i (suc k) p =
    let rest = prefix-confirmed g h known i k p in
    elim (Bool-cases (k == i)) [
      | inl e ↦
          let same : k ≡ i = ground arith in
          let here : confirmed g h known i k ≡ h i = rw same (ground arith) in
          let there : g k ≡ g i = ap g same in ground arith
      | inr e ↦ let here : confirmed g h known i k ≡ g k = ground arith in ground arith
    ]

-- `confirmHeight` of a known row whose height changed.
changed : (new : ℕ) (old : ℕ) (i : ℕ) → Positions → Positions
changed new old i s = record s {
  heights = write s.heights i (some new);
  ys = record {
    length = s.ys.length;
    at = λ j. if ltb i j && leb j s.known then shift_y old new (s.ys.at j) else s.ys.at j;
  };
}

module _ (g h : ℕ → ℕ) (n : ℕ) where
  confirm_height-known :
      (i : ℕ) (s : Positions)
      → IsSummed g n s
      → i < s.known
      → confirm_height i h s ≡ (if h i == g i then s else changed (h i) (g i) i s)
  unfolding confirm_height changed
  confirm_height-known i s r p =
      let near : leb s.known i ≡ false = ground arith in rw (near, r.heights i p) refl

  changed-IsSummed :
      (i : ℕ) (s : Positions)
      → IsSummed g n s
      → i < s.known
      → IsSummed (confirmed g h s.known i) n (changed (h i) (g i) i s)
  unfolding changed
  changed-IsSummed i s r p = record {
    profiled = r.profiled;
    sized = let e = r.sized in let w = r.within in ground arith;
    within = r.within;
    written = r.written;
    heights = λ j q.
        let e = r.heights j q in
        let same : (j == i ≡ true) → h j ≡ h i = (λ t. ap h (ground arith)) in ground arith;
    ys = λ j q. let e = r.ys j q in let moved = prefix-confirmed g h s.known i j p in ground arith;
  }

  kept-IsSummed :
      (i : ℕ) (s : Positions)
      → IsSummed g n s
      → i < s.known
      → h i ≡ g i
      → IsSummed (confirmed g h s.known i) n s
  kept-IsSummed i s r p same = record {
    profiled = r.profiled;
    sized = r.sized;
    within = r.within;
    written = r.written;
    heights = λ j q.
        let e = r.heights j q in
        let here : (j == i ≡ true) → h j ≡ g j = (λ t. let o : j ≡ i = ground arith in rw o same) in
        ground arith;
    ys = λ j q. let e = r.ys j q in let moved = prefix-confirmed g h s.known i j p in ground arith;
  }

  -- `confirmHeight` keeps the sums, with the heights that it asks for, and the row is known after
  -- it.
  pub confirm_height-IsSummed :
      (i : ℕ) (s : Positions)
      → IsSummed g n s
      → i < n
      → IsSummed (confirmed g h s.known i) n (confirm_height i h s)
        × i < (confirm_height i h s).known
  confirm_height-IsSummed i s r p = elim (Bool-cases (leb s.known i)) [
    | inl far ↦
        let new : confirm_height i h s ≡ calc_heights (suc i) (confirmed g h s.known i) none s =
          unfold confirm_height in
          rw far (calc_heights-agree h (confirmed g h s.known i) (suc i) s (λ j l. ground arith)) in
        let (kept, end, buffer, written) =
          calc_heights-IsSummed (confirmed g h s.known i) n g (suc i) s r (λ j l. ground arith)
            (ground arith) in
        let sized = r.sized in rw new (kept, rw end (unfold new_end in ground arith))
    | inr near ↦
        let q : i < s.known = ground arith in
        rw (confirm_height-known i s r q) (elim (Bool-cases (h i == g i)) [
          | inl same ↦ rw same (kept-IsSummed i s r q (ground arith), q)
          | inr other ↦ rw other (changed-IsSummed i s r q, unfold changed in q)
        ])
  ]

profile_data-IsSummed :
    (g : ℕ → ℕ) (n m : ℕ) (s : Positions) → IsSummed g n s → IsSummed g m (profile_data m s)
unfolding profile_data
profile_data-IsSummed g n m s r = elim (Bool-cases (same_length s.data_len m)) [
  | inl same ↦
      let e : n ≡ m =
        let here : same_length (some n) m ≡ true = rw r.profiled at same in ground arith in
      rw same (subst (λ k. IsSummed g k s) e r)
  | inr other ↦ rw other (record {
    profiled = refl;
    sized = refl;
    within = let w = r.within in ground arith;
    written = let w = r.written in ground arith;
    heights = λ j q. let e = r.heights j (ground arith) in ground arith;
    ys = λ j q. let e = r.ys j (ground arith) in ground arith;
  })
]

profile_data-create-IsSummed :
    (g : ℕ → ℕ) (buffer_len n : ℕ) → IsSummed g n (profile_data n (create buffer_len))
unfolding profile_data create
profile_data-create-IsSummed g buffer_len n =
    let start : (profile_data n (create buffer_len)).known ≡ 0 = ground arith in
    record {
      profiled = refl;
      sized = refl;
      within = omega arith;
      written = omega arith;
      heights = λ j q. absurd (omega arith);
      ys = λ j q. absurd (omega arith);
    }

-- The invariant of the rows' positions. It holds at the start once the data is profiled; it is kept
-- when the data grows or shrinks; and asking for a row of the data gives the height that the getter
-- says and, as y, the sum of the heights before it. Those are the heights as they were last asked for:
-- a known row is asked for alone, and its new height replaces the old one and moves the rows behind
-- it; for a row that is not known yet, the last known row and all behind it are asked for anew, and
-- the rows before that one keep the heights that they had.
pub get_row_position-IsSummed :
    (g : ℕ → ℕ)
    → ((buffer_len n : ℕ) → IsSummed g n (profile_data n (create buffer_len)))
      × ((n m : ℕ) (s : Positions) → IsSummed g n s → IsSummed g m (profile_data m s))
      × ((h : ℕ → ℕ) (n i : ℕ) (s : Positions)
          → IsSummed g n s
          → i < n
          → ((get_row_position i h s).0 ≡ (some (h i), some (prefix (confirmed g h s.known i) i)))
            × IsSummed (confirmed g h s.known i) n (get_row_position i h s).1)
unfolding profile_data create get_row_position
get_row_position-IsSummed g = (
  λ buffer_len n. profile_data-create-IsSummed g buffer_len n,
  profile_data-IsSummed g,
  λ h n i s r p.
      let (kept, k) = confirm_height-IsSummed g h n i s r p in
      (
        rw (kept.heights i k, kept.ys i k)
            (ap (λ x. (some x, some (prefix (confirmed g h s.known i) i))) (ground arith)),
        kept,
      ),
)
