-- ===== src/Timeline/Scroll/Hidden.antt =====
-- The walk over the parents of a span ends, and what is shown among more collapsed spans is shown among
-- fewer.
use teletrace.Base.{
  ℕ, zero, suc, ◌≤◌, ◌<◌, ◌≡◌, refl, sym, ap, ◌∙◌, subst, inl, inr, String, Bool, true, false, none,
  some, List, [], ◌∷◌, Map, map_get, arith, Bool-cases, Option-cases, some_inj,
}
use teletrace.Texts.{has, add}
use teletrace.Timeline.Scroll.{Reference, ScrollSpan, Checked, check_refs, hidden_loop}

-- All references go to spans of a rank below `k`.
abbrev pub Below : (rank : String → ℕ) (k : ℕ) → List Reference → Type 0
Below rank k [] = Unit
Below rank k (ref ∷ refs) = (rank ref.span_id < k) × Below rank k refs

-- The references of each span of the map go to spans of a lower rank: no span is its own ancestor.
pub record IsRanked (rank : String → ℕ) (spans_map : Map ScrollSpan) : Type 0 where
  pub lower :
      (id : String) (span : ScrollSpan)
      → map_get id spans_map ≡ some span
      → Below rank (rank id) span.references

Below-mono :
    (rank : String → ℕ) (j k : ℕ) (refs : List Reference)
    → j ≤ k
    → Below rank j refs
    → Below rank k refs
Below-mono rank j k [] p b = tt
Below-mono rank j k (ref ∷ refs) p b = (omega (arith, b.0), Below-mono rank j k refs p b.1)

-- A round over a reference.
abbrev followed : Bool → String → List String → Checked
followed is_hidden id parent_ids = record {
  is_hidden = is_hidden;
  parent_id = some id;
  parent_ids = add parent_ids id;
}

module _ (set : List String) (ref : Reference) (refs : List Reference) (c : Checked) where
  check_refs-unlinked :
      ref.parent_span_id ≡ none → check_refs set (ref ∷ refs) c ≡ check_refs set refs c
  unfolding check_refs
  check_refs-unlinked e = simp e refl

  check_refs-hit :
      {p : String}
      → ref.parent_span_id ≡ some p
      → has set ref.span_id ≡ true
      → check_refs set (ref ∷ refs) c ≡ followed true ref.span_id c.parent_ids
  unfolding check_refs
  check_refs-hit e f = simp (e, f) refl

  check_refs-miss :
      {p : String}
      → ref.parent_span_id ≡ some p
      → has set ref.span_id ≡ false
      → check_refs set (ref ∷ refs) c
        ≡ check_refs set refs (followed false ref.span_id c.parent_ids)
  unfolding check_refs
  check_refs-miss e f = simp (e, f) refl

-- The parent that a round finds is one of the references.
check_refs-parent :
    (rank : String → ℕ) (set : List String) (k : ℕ) (refs : List Reference) (c : Checked)
    (id : String)
    → Below rank k refs
    → ((q : String) → c.parent_id ≡ some q → rank q < k)
    → (check_refs set refs c).parent_id ≡ some id
    → rank id < k
unfolding check_refs
check_refs-parent rank set k [] c id b h e = h id e
check_refs-parent rank set k (ref ∷ refs) c id b h e =
    let own : (q : String) → some ref.span_id ≡ some q → rank q < k =
      λ q f. subst (λ x. rank x < k) (some_inj f) b.0 in
    elim (Option-cases ref.parent_span_id) [
      | inl f ↦
          check_refs-parent rank set k refs c id b.1 h
            (rw (check_refs-unlinked set ref refs c f) at e)
      | inr (p, f) ↦ elim (Bool-cases (has set ref.span_id)) [
        | inl hit ↦ own id (rw (check_refs-hit set ref refs c f hit) at e)
        | inr miss ↦
            check_refs-parent rank set k refs _ id b.1 own
              (rw (check_refs-miss set ref refs c f miss) at e)
      ]
    ]

-- With fewer collapsed spans a round that finds none of them is the same.
check_refs-fewer :
    (fewer more : List String) (refs : List Reference) (c : Checked)
    → ((s : String) → has fewer s ≡ true → has more s ≡ true)
    → (check_refs more refs c).is_hidden ≡ false
    → check_refs fewer refs c ≡ check_refs more refs c
unfolding check_refs
check_refs-fewer fewer more [] c sub h = refl
check_refs-fewer fewer more (ref ∷ refs) c sub h = elim (Option-cases ref.parent_span_id) [
  | inl f ↦
      check_refs-unlinked fewer ref refs c f
      ∙ check_refs-fewer fewer more refs c sub (rw (check_refs-unlinked more ref refs c f) at h)
      ∙ sym (check_refs-unlinked more ref refs c f)
  | inr (p, f) ↦ elim (Bool-cases (has more ref.span_id)) [
    | inl hit ↦ absurd (cc (rw (check_refs-hit more ref refs c f hit) at h))
    | inr miss ↦
        let fewer_miss : has fewer ref.span_id ≡ false = elim (Bool-cases (has fewer ref.span_id)) [
          | inl has_it ↦ absurd (cc (sub ref.span_id has_it, miss))
          | inr hasnt ↦ hasnt
        ] in
        check_refs-miss fewer ref refs c f fewer_miss
        ∙ check_refs-fewer fewer more refs _ sub (rw (check_refs-miss more ref refs c f miss) at h)
        ∙ sym (check_refs-miss more ref refs c f miss)
  ]
]

abbrev round : List String → List Reference → List String → Checked
round set refs parent_ids =
    check_refs set refs (record { is_hidden = false; parent_id = none; parent_ids = parent_ids })

module _ (spans_map : Map ScrollSpan) where
  -- The cases of a round of the loop.
  module _ (fuel : ℕ) (set : List String) (refs : List Reference) (ids : List String) where
    hidden_loop-hit :
        (round set refs ids).is_hidden ≡ true
        → hidden_loop (suc fuel) set spans_map refs ids
          ≡ some (true, (round set refs ids).parent_ids)
    unfolding hidden_loop
    hidden_loop-hit h = simp (h, hidden_loop) refl

    hidden_loop-top :
        (round set refs ids).is_hidden ≡ false
        → (round set refs ids).parent_id ≡ none
        → hidden_loop (suc fuel) set spans_map refs ids
          ≡ some (false, (round set refs ids).parent_ids)
    unfolding hidden_loop
    hidden_loop-top h e = simp (h, e, hidden_loop) refl

    hidden_loop-missing :
        {p : String}
        → (round set refs ids).is_hidden ≡ false
        → (round set refs ids).parent_id ≡ some p
        → map_get p spans_map ≡ none
        → hidden_loop (suc fuel) set spans_map refs ids
          ≡ some (false, (round set refs ids).parent_ids)
    unfolding hidden_loop
    hidden_loop-missing h e m = simp (h, e, m, hidden_loop) refl

    hidden_loop-parent :
        {p : String} {parent : ScrollSpan}
        → (round set refs ids).is_hidden ≡ false
        → (round set refs ids).parent_id ≡ some p
        → map_get p spans_map ≡ some parent
        → hidden_loop (suc fuel) set spans_map refs ids
          ≡ hidden_loop fuel set spans_map parent.references (round set refs ids).parent_ids
    unfolding hidden_loop
    hidden_loop-parent h e m = simp (h, e, m, hidden_loop) refl

  -- With ranks below the fuel, the walk over the parents ends.
  pub hidden_loop-total :
      (rank : String → ℕ) (fuel k : ℕ) (set : List String) (refs : List Reference)
      (ids : List String)
      → IsRanked rank spans_map
      → Below rank k refs
      → k < fuel
      → (is_hidden : Bool) × (out : List String) × (hidden_loop fuel set spans_map refs ids
          ≡ some (is_hidden, out))
  hidden_loop-total rank zero k set refs ids ranked b l = absurd (omega arith)
  hidden_loop-total rank (suc fuel) k set refs ids ranked b l =
      elim (Bool-cases (round set refs ids).is_hidden) [
        | inl hit ↦ (true, _, hidden_loop-hit fuel set refs ids hit)
        | inr clear_round ↦ elim (Option-cases (round set refs ids).parent_id) [
          | inl e ↦ (false, _, hidden_loop-top fuel set refs ids clear_round e)
          | inr (p, e) ↦
              let lower : rank p < k =
                check_refs-parent rank set k refs _ p b (λ q f. absurd (cc f)) e in
              elim (Option-cases (map_get p spans_map)) [
                | inl m ↦ (false, _, hidden_loop-missing fuel set refs ids clear_round e m)
                | inr (parent, m) ↦
                    let (hidden, out, r) =
                      hidden_loop-total rank fuel (rank p) set parent.references
                        (round set refs ids).parent_ids ranked (ranked.lower p parent m)
                        (omega arith) in
                    (hidden, out, hidden_loop-parent fuel set refs ids clear_round e m ∙ r)
              ]
        ]
      ]

  -- A span that is shown among more collapsed spans is shown among fewer.
  pub hidden_loop-fewer :
      (fewer more : List String) (fuel : ℕ) (refs : List Reference) (ids out : List String)
      → ((s : String) → has fewer s ≡ true → has more s ≡ true)
      → hidden_loop fuel more spans_map refs ids ≡ some (false, out)
      → hidden_loop fuel fewer spans_map refs ids ≡ some (false, out)
  unfolding hidden_loop
  hidden_loop-fewer fewer more zero refs ids out sub e = e
  hidden_loop-fewer fewer more (suc fuel) refs ids out sub e =
      elim (Bool-cases (round more refs ids).is_hidden) [
        | inl hit ↦ absurd (cc (e, hidden_loop-hit fuel more refs ids hit))
        | inr shown ↦
            let same = check_refs-fewer fewer more refs _ sub shown in
            let shown_too : (round fewer refs ids).is_hidden ≡ false =
              ap (λ c. c.is_hidden) same ∙ shown in
            let same_ids = ap (λ c. c.parent_ids) same in
            let same_parent = ap (λ c. c.parent_id) same in
            elim (Option-cases (round more refs ids).parent_id) [
              | inl top ↦
                  hidden_loop-top fuel fewer refs ids shown_too (same_parent ∙ top)
                  ∙ ap (λ x. some (false, x)) same_ids
                  ∙ sym (hidden_loop-top fuel more refs ids shown top)
                  ∙ e
              | inr (p, q) ↦ elim (Option-cases (map_get p spans_map)) [
                | inl m ↦
                    hidden_loop-missing fuel fewer refs ids shown_too (same_parent ∙ q) m
                    ∙ ap (λ x. some (false, x)) same_ids
                    ∙ sym (hidden_loop-missing fuel more refs ids shown q m)
                    ∙ e
                | inr (parent, m) ↦
                    hidden_loop-parent fuel fewer refs ids shown_too (same_parent ∙ q) m
                    ∙ ap (hidden_loop fuel fewer spans_map parent.references) same_ids
                    ∙ hidden_loop-fewer fewer more fuel parent.references
                        (round more refs ids).parent_ids out sub
                        (sym (hidden_loop-parent fuel more refs ids shown q m) ∙ e)
              ]
            ]
      ]
