-- ===== src/Timeline/Scroll/Next.antt =====
-- The loop over the spans ends, and leaves a span that is shown or a larger set of collapsed spans.
use teletrace.Base.{
  ℕ, zero, suc, ◌+◌, ◌-◌, ◌≤◌, ◌<◌, ◌≡◌, ◌==◌, refl, ap, ◌∙◌, subst, inl, inr, String, Bool, true,
  false, Option, none, some, List, [], ◌∷◌, if◌then◌else◌, length, arith, Bool-cases, some_inj,
}
use teletrace.Texts.{has, has-add}
use teletrace.Timeline.Scroll.{
  ScrollSpan, Scrolling, is_span_hidden, add_first, span_at, step_on, boundary_of, is_out_of_view,
  passes, finds, look, next_loop,
}
use teletrace.Timeline.Scroll.Hidden.{Below, IsRanked, hidden_loop-total, hidden_loop-fewer}

abbrev pub Sub : List String → List String → Type 0
Sub a b = (s : String) → has a s ≡ true → has b s ≡ true

pub add_first-Sub : (ids set : List String) → Sub set (add_first ids set)
add_first-Sub [] set s h = h
add_first-Sub (id ∷ ids) set s h = has-add set id s ∙ rw h refl

pub span_at-total :
    (spans : List ScrollSpan) (i : ℕ)
    → 1 ≤ i
    → i ≤ length spans
    → (span : ScrollSpan) × (span_at spans i ≡ some span)
span_at-total [] i p q = absurd (ground arith)
span_at-total (span ∷ spans) zero p q = absurd (omega arith)
span_at-total (span ∷ spans) (suc zero) p q = (span, refl)
span_at-total (span ∷ spans) (suc (suc i)) p q =
    span_at-total spans (suc i) (omega arith) (ground arith)

-- An index of a span, and one where the loop may be.
abbrev pub IsIndex : Scrolling → ℕ → Type 0
IsIndex w i = (1 ≤ i) × (i ≤ length w.spans)

abbrev pub IsOnPath : Scrolling → ℕ → Type 0
IsOnPath w i =
    (w.is_up ≡ true → i ≤ length w.spans) × (w.is_up ≡ false → (1 ≤ i) × (i ≤ length w.spans + 1))

abbrev pub distance : Scrolling → ℕ → ℕ
distance w i = if w.is_up then i else length w.spans + 1 - i

on_path-IsIndex :
    (w : Scrolling) (i : ℕ) → IsOnPath w i → (i == boundary_of w) ≡ false → IsIndex w i
on_path-IsIndex w i p e = elim (Bool-cases w.is_up) [
  | inl up ↦ let le = p.0 up in (ground (arith, up), le)
  | inr down ↦ let (ge, le) = p.1 down in (ge, ground (arith, down))
]

step_on-IsOnPath : (w : Scrolling) (i : ℕ) → IsIndex w i → IsOnPath w (step_on w.is_up i)
step_on-IsOnPath w i p = (
  λ up. simp up (omega (arith, p.0, p.1)),
  λ down. simp down (omega (arith, p.0, p.1), omega (arith, p.0, p.1)),
)

distance-step_on :
    (w : Scrolling) (i rounds : ℕ)
    → IsIndex w i
    → distance w i < suc rounds
    → distance w (step_on w.is_up i) < rounds
distance-step_on w i rounds p l = elim (Bool-cases w.is_up) [
  | inl up ↦ ground (arith, up, p.0, p.1)
  | inr down ↦ ground (arith, down, p.0, p.1)
]

module _ (fuel : ℕ) (w : Scrolling) where
  -- The span at an index is not hidden by a set of collapsed spans.
  pub record IsShown (set : List String) (i : ℕ) : Type 0 where
    pub indexed : IsIndex w i
    pub span : ScrollSpan
    pub at : span_at w.spans i ≡ some span
    pub parent_ids : List String
    pub shown : is_span_hidden fuel span set w.spans_map ≡ some (false, parent_ids)

  -- The walks over the parents end, and the first span has no parent.
  pub record IsWalkable : Type 0 where
    pub rank : String → ℕ
    pub ranked : IsRanked rank w.spans_map
    pub low :
        (i : ℕ) (span : ScrollSpan)
        → span_at w.spans i ≡ some span
        → (k : ℕ) × (Below rank k span.references) × (k < fuel)
    pub first : (span : ScrollSpan) → span_at w.spans 1 ≡ some span → span.references ≡ []

  pub is_span_hidden-total :
      (set : List String) (i : ℕ) (span : ScrollSpan)
      → IsWalkable
      → span_at w.spans i ≡ some span
      → (is_hidden : Bool) × (ids : List String) × (is_span_hidden fuel span set w.spans_map
          ≡ some (is_hidden, ids))
  unfolding is_span_hidden
  is_span_hidden-total set i span k e =
      let (n, below, less) = k.low i span e in
      hidden_loop-total w.spans_map k.rank fuel n set span.references [] k.ranked below less

  pub IsShown-fewer :
      (fewer more : List String) (i : ℕ) → Sub fewer more → IsShown more i → IsShown fewer i
  unfolding is_span_hidden
  IsShown-fewer fewer more i sub s = record {
    indexed = s.indexed;
    span = s.span;
    at = s.at;
    parent_ids = s.parent_ids;
    shown =
        hidden_loop-fewer w.spans_map fewer more fuel s.span.references [] s.parent_ids sub s.shown;
  }

  -- What a look at a span gives.
  data Looked (set : List String) (span : ScrollSpan) : Type 0 where
    passed :
        (more : List String)
        → look fuel w set span ≡ some (passes more)
        → Sub set more
        → Looked set span
    found :
        (ids : List String)
        → look fuel w set span ≡ some finds
        → is_span_hidden fuel span set w.spans_map ≡ some (false, ids)
        → Looked set span

  look-Looked :
      (set : List String) (i : ℕ) (span : ScrollSpan)
      → IsWalkable
      → span_at w.spans i ≡ some span
      → Looked set span
  unfolding look
  look-Looked set i span k e = elim (Bool-cases (is_out_of_view w span)) [
    | inl out ↦ passed set (rw (out, look) refl) (λ s h. h)
    | inr inside ↦
        let (is_hidden, ids, h) = is_span_hidden-total set i span k e in
        elim (Bool-cases is_hidden) [
          | inl hit ↦
              passed (add_first ids set) (simp (inside, h, hit, look) refl) (add_first-Sub ids set)
          | inr miss ↦
              found ids (simp (inside, h, miss, look) refl) (h ∙ ap (λ b. some (b, ids)) miss)
        ]
  ]

  -- What the loop over the spans leaves.
  pub record IsLeft (set : List String) (left : Option ℕ × List String) : Type 0 where
    pub sub : Sub set left.1
    pub shown : (j : ℕ) → left.0 ≡ some j → IsShown left.1 j

  pub next_loop-IsLeft :
      (rounds i : ℕ) (set : List String)
      → IsWalkable
      → IsOnPath w i
      → distance w i < rounds
      → (left : Option ℕ × List String) × (next_loop rounds fuel w i set ≡ some left)
        × IsLeft set left
  unfolding next_loop
  next_loop-IsLeft zero i set k p l = absurd (omega arith)
  next_loop-IsLeft (suc rounds) i set k p l = elim (Bool-cases (i == boundary_of w)) [
    | inl ended ↦ (
      (none, set),
      simp (ended, next_loop) refl,
      record { sub = λ s h. h; shown = λ j e. absurd (cc e) },
    )
    | inr going ↦
        let index : IsIndex w i = on_path-IsIndex w i p going in
        let (span, e) = span_at-total w.spans i index.0 index.1 in
        elim (look-Looked set i span k e) [
          | passed more seen sub ↦
              let (left, q, is_left) =
                next_loop-IsLeft rounds (step_on w.is_up i) more k (step_on-IsOnPath w i index)
                  (distance-step_on w i rounds index l) in
              (
                left,
                simp (going, e, seen, next_loop) q,
                record { sub = λ s h. is_left.sub s (sub s h); shown = is_left.shown },
              )
          | found ids seen h ↦ (
            (some i, set),
            simp (going, e, seen, next_loop) refl,
            record {
              sub = λ s h. h;
              shown = λ j f.
                  subst (IsShown set) (some_inj f)
                    (record { indexed = index; span = span; at = e; parent_ids = ids; shown = h });
            },
          )
        ]
  ]
