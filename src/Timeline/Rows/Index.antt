-- ===== src/Timeline/Rows/Index.antt =====
-- Between the rows and the spans: the indices.
use teletrace.Base.{
  ℕ, zero, suc, ◌+◌, ◌≡◌, ◌≤◌, ◌==◌, refl, ap, subst, inl, inr, String, Bool, true, false, Option,
  none, some, List, [], ◌∷◌, ◌++◌, arith, Bool-cases, some_inj,
}
use teletrace.Texts.{has}
use teletrace.Timeline.Rows.{
  TraceSpan, RowState, push_rows, is_hidden, row_loop, generate_row_states,
  map_span_index_to_row_index, map_row_index_to_span_index,
}

-- The row at an index, and the span at one.
abbrev pub get_elem? : {A : Type 0} → List A → ℕ → Option A
get_elem? [] i = none
get_elem? (x ∷ xs) zero = some x
get_elem? (x ∷ xs) (suc i) = get_elem? xs i

abbrev pub bar_row : TraceSpan → ℕ → RowState
bar_row span i = record { is_detail = false; span = span; span_index = i }

abbrev pub detail_row : TraceSpan → ℕ → RowState
detail_row span i = record { is_detail = true; span = span; span_index = i }

-- The rows are in the order of the spans, and each has its span at its index.
pub data AreRows (spans : List TraceSpan) : (i : ℕ) → List RowState → Type 0 where
  done : {i : ℕ} → AreRows spans i []
  skip : {i : ℕ} {rows : List RowState} → AreRows spans (suc i) rows → AreRows spans i rows
  bar :
      {i : ℕ} {span : TraceSpan} {rows : List RowState}
      → get_elem? spans i ≡ some span
      → AreRows spans (suc i) rows
      → AreRows spans i (bar_row span i ∷ rows)
  with_details :
      {i : ℕ} {span : TraceSpan} {rows : List RowState}
      → get_elem? spans i ≡ some span
      → AreRows spans (suc i) rows
      → AreRows spans i (bar_row span i ∷ detail_row span i ∷ rows)

module _ (spans : List TraceSpan) where
  -- The spans from the index `i` on.
  IsSuffix : ℕ → List TraceSpan → Type 0
  IsSuffix i rest = (j : ℕ) → get_elem? spans (i + j) ≡ get_elem? rest j

  IsSuffix-head :
      (i : ℕ) (span : TraceSpan) (rest : List TraceSpan)
      → IsSuffix i (span ∷ rest)
      → get_elem? spans i ≡ some span
  unfolding IsSuffix
  IsSuffix-head i span rest h =
      let o : i + 0 ≡ i = omega arith in subst (λ k. get_elem? spans k ≡ some span) o (h 0)

  IsSuffix-tail :
      (i : ℕ) (span : TraceSpan) (rest : List TraceSpan)
      → IsSuffix i (span ∷ rest)
      → IsSuffix (suc i) rest
  unfolding IsSuffix
  IsSuffix-tail i span rest h j = let o : suc i + j ≡ i + suc j = omega arith in rw o (h (suc j))

  push_rows-AreRows :
      (details : List String) (span : TraceSpan) (i : ℕ) (rows : List RowState)
      → get_elem? spans i ≡ some span
      → AreRows spans (suc i) rows
      → AreRows spans i (push_rows details span i ++ rows)
  unfolding push_rows
  push_rows-AreRows details span i rows e r = elim (Bool-cases (has details span.span_id)) [
    | inl shown ↦ rw shown (with_details e r)
    | inr closed ↦ rw closed (bar e r)
  ]

  row_loop-AreRows :
      (hidden details : List String) (rest : List TraceSpan) (i : ℕ) (c : Option ℕ)
      → IsSuffix i rest
      → AreRows spans i (row_loop hidden details rest i c)
  unfolding row_loop
  row_loop-AreRows hidden details [] i c h = done
  row_loop-AreRows hidden details (span ∷ rest) i c h =
      let tail = IsSuffix-tail i span rest h in
      let at = IsSuffix-head i span rest h in
      elim (Bool-cases (is_hidden c span.depth)) [
        | inl e ↦ rw e (skip (row_loop-AreRows hidden details rest (suc i) c tail))
        | inr e ↦ rw e (
            push_rows-AreRows details span i _ at (elim (Bool-cases (has hidden span.span_id)) [
              | inl q ↦
                  rw q (row_loop-AreRows hidden details rest (suc i) (some (span.depth + 1)) tail)
              | inr q ↦ rw q (row_loop-AreRows hidden details rest (suc i) none tail)
            ]))
      ]

-- What the rows promise of the row at `r`: its index is that of its span, and a bar's index leads
-- back to the bar.
abbrev pub IsAt : List TraceSpan → List RowState → (r i : ℕ) → RowState → Type 0
IsAt spans rows r i row =
    (i ≤ row.span_index)
    × (get_elem? spans row.span_index ≡ some row.span)
    × (map_row_index_to_span_index rows r ≡ some row.span_index)
    × (row.is_detail ≡ false → map_span_index_to_row_index rows row.span_index ≡ some r)

module _ (spans : List TraceSpan) (i : ℕ) (span : TraceSpan) (rows : List RowState) where
  IsAt-first :
      get_elem? spans i ≡ some span → IsAt spans (bar_row span i ∷ rows) 0 i (bar_row span i)
  unfolding map_span_index_to_row_index map_row_index_to_span_index
  IsAt-first at =
      let same : (i == i) ≡ true = ground arith in (omega arith, at, refl, λ bar. rw same refl)

  IsAt-later :
      (is_detail : Bool) (r : ℕ) (row : RowState)
      → IsAt spans rows r (suc i) row
      → IsAt spans
          (record { is_detail = is_detail; span = span; span_index = i } ∷ rows)
          (suc r)
          i
          row
  unfolding map_span_index_to_row_index map_row_index_to_span_index
  IsAt-later is_detail r row (low, at, there, back) =
      let other : (i == row.span_index) ≡ false = ground arith in
      (omega arith, at, there, λ bar. rw (other, back bar) refl)

  -- The row of the details stands behind the bar of its span.
  IsAt-details :
      get_elem? spans i ≡ some span
      → IsAt spans (bar_row span i ∷ detail_row span i ∷ rows) 1 i (detail_row span i)
  unfolding map_row_index_to_span_index
  IsAt-details at = (omega arith, at, refl, λ bar. cc bar)

  IsAt-after :
      (r : ℕ) (row : RowState)
      → IsAt spans rows r (suc i) row
      → IsAt spans (bar_row span i ∷ detail_row span i ∷ rows) (suc (suc r)) i row
  unfolding map_span_index_to_row_index map_row_index_to_span_index
  IsAt-after r row (low, at, there, back) =
      let other : (i == row.span_index) ≡ false = ground arith in
      (omega arith, at, there, λ bar. rw (other, back bar) refl)

AreRows-IsAt :
    (spans : List TraceSpan) {i : ℕ} {rows : List RowState} (r : ℕ) (row : RowState)
    → AreRows spans i rows
    → get_elem? rows r ≡ some row
    → IsAt spans rows r i row
AreRows-IsAt spans r row done e = absurd (cc e)
AreRows-IsAt spans r row (skip rs) e =
    let (low, at, there, back) = AreRows-IsAt spans r row rs e in (omega arith, at, there, back)
AreRows-IsAt spans zero row (bar {i} {span} {rows} at rs) e =
    subst (λ w. IsAt spans (bar_row span i ∷ rows) 0 i w) (some_inj e)
      (IsAt-first spans i span rows at)
AreRows-IsAt spans (suc r) row (bar {i} {span} {rows} at rs) e =
    IsAt-later spans i span rows false r row (AreRows-IsAt spans r row rs e)
AreRows-IsAt spans zero row (with_details {i} {span} {rows} at rs) e =
    subst (λ w. IsAt spans (bar_row span i ∷ detail_row span i ∷ rows) 0 i w) (some_inj e)
      (IsAt-first spans i span (detail_row span i ∷ rows) at)
AreRows-IsAt spans (suc zero) row (with_details {i} {span} {rows} at rs) e =
    subst (λ w. IsAt spans (bar_row span i ∷ detail_row span i ∷ rows) 1 i w) (some_inj e)
      (IsAt-details spans i span rows at)
AreRows-IsAt spans (suc (suc r)) row (with_details {i} {span} {rows} at rs) e =
    IsAt-after spans i span rows r row (AreRows-IsAt spans r row rs e)

-- A row of the list has the span that stands at its index among the spans, whatever is collapsed.
-- `mapRowIndexToSpanIndex` gives that index, and `mapSpanIndexToRowIndex` leads from it back to the
-- row if it is the bar of the span.
pub generate_row_states-IsAt :
    (spans : List TraceSpan) (hidden details : List String) (r : ℕ) (row : RowState)
    → get_elem? (generate_row_states (some spans) hidden details) r ≡ some row
    → IsAt spans (generate_row_states (some spans) hidden details) r 0 row
unfolding generate_row_states IsSuffix
generate_row_states-IsAt spans hidden details r row e =
    AreRows-IsAt spans r row
      (row_loop-AreRows spans hidden details spans 0 none (λ j. ap (get_elem? spans) (omega arith)))
      e
