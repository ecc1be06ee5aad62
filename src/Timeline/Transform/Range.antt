-- ===== src/Timeline/Transform/Range.antt =====
-- The range of the trace, and the ids of its spans.
use teletrace.Base.{
  ℕ, ◌+◌, ◌≡◌, ◌≤◌, refl, sym, ap, ◌∙◌, String, true, false, none, some, List, [], ◌∷◌, ◌++◌, arith,
  All, All-append, All-map_pred, length, length-append, map_get, map_set, map_get-set, str_eq,
  eq_iff, Bool, ◌==◌, ◌||◌, any,
}
use mathlib.Core.List.{append_assoc, append-nil}
use teletrace.Timeline.Transform.{TransformedSpan, Scan, scan_start, scan_span, scan_spans}

-- A span lies in a range.
abbrev pub IsWithin : (from to : ℕ) → TransformedSpan → Type 0
IsWithin from to span = (from ≤ span.start_time) × (span.start_time + span.duration ≤ to)

abbrev pub IsInRange : Scan → Type 0
IsInRange s = All (IsWithin s.trace_start_time s.trace_end_time) s.spans

abbrev starts_at : ℕ → TransformedSpan → Bool
starts_at time span = span.start_time == time

abbrev ends_at : ℕ → TransformedSpan → Bool
ends_at time span = span.start_time + span.duration == time

-- The ends of the range are those of spans, or those that it began with.
pub record IsAttained (s : Scan) : Type 0 where
  pub start :
      (s.trace_start_time == scan_start.trace_start_time
        || any (starts_at s.trace_start_time) s.spans)
      ≡ true
  pub end : (s.trace_end_time == 0 || any (ends_at s.trace_end_time) s.spans) ≡ true

any-append :
    (p : TransformedSpan → Bool) (xs ys : List TransformedSpan)
    → any p (xs ++ ys) ≡ (any p xs || any p ys)
any-append p [] ys = refl
any-append p (x ∷ xs) ys = ground (arith, any-append p xs ys)

module _ (show : ℕ → String) where
  scan_span-IsAttained :
      (span : TransformedSpan) (s : Scan) → IsAttained s → IsAttained (scan_span show span s)
  unfolding scan_span
  scan_span-IsAttained span s h =
      let start = h.start in
      let end = h.end in
      record {
        start = rw (any-append (starts_at _) s.spans _) (ground arith);
        end = rw (any-append (ends_at _) s.spans _) (ground arith);
      }

  scan_spans-IsAttained :
      (spans : List TransformedSpan) (s : Scan)
      → IsAttained s
      → IsAttained (scan_spans show spans s)
  unfolding scan_spans
  scan_spans-IsAttained [] s h = h
  scan_spans-IsAttained (span ∷ spans) s h =
      scan_spans-IsAttained spans (scan_span show span s) (scan_span-IsAttained span s h)

  scan_span-IsInRange :
      (span : TransformedSpan) (s : Scan) → IsInRange s → IsInRange (scan_span show span s)
  unfolding scan_span
  scan_span-IsInRange span s h =
      All-append _ s.spans _
        (All-map_pred (IsWithin s.trace_start_time s.trace_end_time) _
          (λ a w. (ground arith, ground arith)) s.spans h)
        ((ground arith, ground arith), tt)

  scan_spans-IsInRange :
      (spans : List TransformedSpan) (s : Scan) → IsInRange s → IsInRange (scan_spans show spans s)
  unfolding scan_spans
  scan_spans-IsInRange [] s h = h
  scan_spans-IsInRange (span ∷ spans) s h =
      scan_spans-IsInRange spans (scan_span show span s) (scan_span-IsInRange span s h)

  length-scan_spans :
      (spans : List TransformedSpan) (s : Scan)
      → length (scan_spans show spans s).spans ≡ length s.spans + length spans
  unfolding scan_spans scan_span
  length-scan_spans [] s = omega arith
  length-scan_spans (span ∷ spans) s =
      omega (arith, length-scan_spans spans (scan_span show span s), length-append s.spans (_ ∷ []))

eq_flip : (a b : String) → str_eq a b ≡ false → str_eq b a ≡ false
eq_flip a b e = ground (arith, eq_iff a b, eq_iff b a)

same : (a : String) → str_eq a a ≡ true
same a = (eq_iff a a).1 refl

pub All-both :
    {A : Type 0} (P Q R : A → Type 0)
    → ((a : A) → P a → Q a → R a)
    → (xs : List A) → All P xs
    → All Q xs
    → All R xs
All-both P Q R f [] p q = tt
All-both P Q R f (x ∷ xs) p q = (f x p.0 q.0, All-both P Q R f xs p.1 q.1)

-- No id stands twice.
abbrev pub HasDistinctIds : List TransformedSpan → Type 0
HasDistinctIds [] = Unit
HasDistinctIds (span ∷ spans) =
    All (λ s. str_eq span.span_id s.span_id ≡ false) spans × HasDistinctIds spans

-- An id that has not come yet.
abbrev IsNew : Scan → TransformedSpan → Type 0
IsNew s span = map_get span.span_id s.span_id_counts ≡ none

all-IsNew : (spans : List TransformedSpan) → All (IsNew scan_start) spans
unfolding map_get
all-IsNew [] = tt
all-IsNew (span ∷ spans) = (refl, all-IsNew spans)

module _ (show : ℕ → String) where
  scan_span-new :
      (span : TransformedSpan) (s : Scan)
      → IsNew s span
      → ((scan_span show span s).spans ≡ s.spans ++ span ∷ [])
        × ((scan_span show span s).span_map ≡ map_set span.span_id span s.span_map)
        × ((scan_span show span s).span_id_counts ≡ map_set span.span_id 1 s.span_id_counts)
  unfolding scan_span
  scan_span-new span s e = simp e (refl, refl, refl)

  -- Spans with new ids are taken as they are, and the map keeps what stood at other ids.
  scan_spans-new :
      (spans : List TransformedSpan) (s : Scan)
      → HasDistinctIds spans
      → All (IsNew s) spans
      → ((scan_spans show spans s).spans ≡ s.spans ++ spans)
        × ((id : String)
            → All (λ a. str_eq a.span_id id ≡ false) spans
            → map_get id (scan_spans show spans s).span_map ≡ map_get id s.span_map)
        × All (λ a. map_get a.span_id (scan_spans show spans s).span_map ≡ some a) spans
  unfolding scan_spans
  scan_spans-new [] s d n = (sym (append-nil s.spans), λ id a. refl, tt)
  scan_spans-new (span ∷ spans) s (d, ds) (n, ns) =
      let (listed, mapped, counted) = scan_span-new span s n in
      let fresh : All (IsNew (scan_span show span s)) spans =
        All-both (λ a. str_eq span.span_id a.span_id ≡ false) (IsNew s)
          (IsNew (scan_span show span s))
          (λ a other new.
            rw counted (map_get-set a.span_id span.span_id 1 s.span_id_counts ∙ rw other new))
          spans d ns in
      let (rest, others, found) = scan_spans-new spans (scan_span show span s) ds fresh in
      (
        rest ∙ ap (λ l. l ++ spans) listed ∙ append_assoc s.spans (span ∷ []) spans,
        λ id (a, later).
            others id later
            ∙ ap (map_get id) mapped
            ∙ map_get-set id span.span_id span s.span_map
            ∙ rw a refl,
        (
          others span.span_id
                (All-map_pred _ _ (λ a other. eq_flip span.span_id a.span_id other) spans d)
              ∙ ap (map_get span.span_id) mapped
              ∙ map_get-set span.span_id span.span_id span s.span_map
              ∙ rw (same span.span_id) refl,
          found,
        ),
      )

-- The first loop of `transformTraceData`, over the spans of a response. All of them lie in the range
-- that it computes; the range's start is that of one of them, or the greatest safe integer, and its
-- end is that of one of them, or 0, where the loop begins. The loop keeps their number. If the spans
-- have different ids, they keep them, and each is found by its id.
pub scan_spans_lem :
    (show : ℕ → String) (spans : List TransformedSpan)
    → IsInRange (scan_spans show spans scan_start)
      × IsAttained (scan_spans show spans scan_start)
      × (length (scan_spans show spans scan_start).spans ≡ length spans)
      × (HasDistinctIds spans
          → ((scan_spans show spans scan_start).spans ≡ spans)
            × All
                (λ a. map_get a.span_id (scan_spans show spans scan_start).span_map ≡ some a)
                spans)
scan_spans_lem show spans = (
  scan_spans-IsInRange show spans scan_start tt,
  scan_spans-IsAttained show spans scan_start (record { start = refl; end = refl }),
  length-scan_spans show spans scan_start ∙ (omega arith),
  λ d.
      let (listed, others, found) = scan_spans-new show spans scan_start d (all-IsNew spans) in
      (listed, found),
)
