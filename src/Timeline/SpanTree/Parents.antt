-- ===== src/Timeline/SpanTree/Parents.antt =====
-- The spans of a trace and their parents.
use teletrace.Base.{
  ◌≡◌, refl, ap, ◌∙◌, inl, inr, Bool, true, false, not, ◌||◌, String, Option, none, some, List, [],
  ◌∷◌, map, All, filter, arith, str_eq, eq_iff, Bool-cases, if◌then◌else◌, leb, map_get,
}
use teletrace.Texts.{has}
use teletrace.Timeline.Transform.{TransformedSpan, Scan}
use teletrace.Timeline.SpanTree.{has_id, is_child_of, is_top, insert_span, sort_children}

module _ {A : Type 0} where
  pub All-filter :
      (P : A → Type 0) (p : A → Bool) (xs : List A)
      → All P xs
      → All (λ a. P a × (p a ≡ true)) (filter p xs)
  All-filter P p [] h = tt
  All-filter P p (x ∷ xs) (h, hs) = elim (Bool-cases (p x)) [
    | inl e ↦ rw e ((h, e), All-filter P p xs hs)
    | inr e ↦ rw e (All-filter P p xs hs)
  ]

insert_span-All :
    (P : TransformedSpan → Type 0) (s : TransformedSpan) (ts : List TransformedSpan)
    → P s
    → All P ts
    → All P (insert_span s ts)
unfolding insert_span
insert_span-All P s [] p ps = (p, tt)
insert_span-All P s (t ∷ ts) p (q, qs) = elim (Bool-cases (leb s.start_time t.start_time)) [
  | inl e ↦ rw e (p, (q, qs))
  | inr e ↦ rw e (q, insert_span-All P s ts p qs)
]

pub sort_children-All :
    (P : TransformedSpan → Type 0) (ss : List TransformedSpan) → All P ss → All P (sort_children ss)
unfolding sort_children
sort_children-All P [] h = tt
sort_children-All P (s ∷ ss) (h, hs) =
    insert_span-All P s (sort_children ss) h (sort_children-All P ss hs)

module _ (scan : Scan) where
  abbrev pub spans : List TransformedSpan
  spans = scan.spans

  unfoldable pub ids : List String
  ids = map (λ a. a.span_id) spans

  abbrev known_parent : Option String → Option String
  known_parent none = none
  known_parent (some p) = if has_id spans p then some p else none

  -- The parent of an id, if it is an id of a span.
  abbrev parent_among : Option TransformedSpan → Option String
  parent_among none = none
  parent_among (some a) = known_parent a.parent_span_id

  pub parent_id : String → Option String
  parent_id id = parent_among (map_get id scan.span_map)

  -- A span of the trace.
  abbrev pub IsOurs : TransformedSpan → Type 0
  IsOurs a =
      (map_get a.span_id scan.span_map ≡ some a)
      × (has_id spans a.span_id ≡ true)
      × (str_eq a.span_id "__root__" ≡ false)

  pub parent_id-child :
      (c : TransformedSpan) (id : String)
      → IsOurs c
      → has_id spans id ≡ true
      → is_child_of id c ≡ true
      → parent_id c.span_id ≡ some id
  unfolding parent_id
  parent_id-child c id (found, own, r) h e = ap parent_among found ∙ go c.parent_span_id e
    where
      go :
          (p : Option String)
          → (elim p [ none ↦ false | some parent ↦ str_eq parent id ]) ≡ true
          → known_parent p ≡ some id
      go none e = absurd (cc e)
      go (some p) e = let same : p ≡ id = (eq_iff p id).0 e in rw (same, h) refl

  pub parent_id-top :
      (c : TransformedSpan) → IsOurs c → is_top spans c ≡ true → parent_id c.span_id ≡ none
  unfolding parent_id
  parent_id-top c (found, own, r) e = ap parent_among found ∙ go c.parent_span_id e
    where
      go :
          (p : Option String)
          → (elim p [ none ↦ true | some parent ↦ not (has_id spans parent) ]) ≡ true
          → known_parent p ≡ none
      go none e = refl
      go (some p) e = let absent : has_id spans p ≡ false = ground arith in rw absent refl

  pub has-ids :
      (ss : List TransformedSpan) (id : String) → has (map (λ a. a.span_id) ss) id ≡ has_id ss id
  unfolding has
  has-ids [] id = refl
  has-ids (s ∷ ss) id = ap (λ b. str_eq s.span_id id || b) (has-ids ss id)
