-- ===== src/Details/Rows.antt =====
-- The rows are the spans in the order of their start, and at most the chosen one is expanded.
use mathlib.Core.List.Perm
use mathlib.Core.List.{Perm}
use teletrace.Base.{
  ℕ, ◌≤◌, ◌≡◌, refl, ap, sym, subst, if◌then◌else◌, inl, inr, Bool, true, false, Option, List, [],
  ◌∷◌, map, String, str_eq, arith, All, All-map_pred, Bool-cases, leb,
}
use teletrace.Trace.Span.{InternalSpan}
use teletrace.Details.{
  insert_by_start, sort_spans_by_start_time, DetailsRow, is_expanded, details_rows, handle_change,
}

changed :
    (id : String) (expanded : Bool) (s : String)
    → is_expanded (handle_change id expanded) s ≡ (if expanded then str_eq id s else false)
unfolding handle_change
changed id true s = refl
changed id false s = refl

module _ {N : Type 0} where
  abbrev start_of : InternalSpan N → ℕ
  start_of s = s.span.start_time_unix_nano

  -- The starts do not decrease.
  abbrev IsByStart : List (InternalSpan N) → Type 0
  IsByStart [] = Unit
  IsByStart (s ∷ ss) = All (λ t. start_of s ≤ start_of t) ss × IsByStart ss

  insert_by_start-perm :
      (s : InternalSpan N) (ss : List (InternalSpan N)) → Perm (insert_by_start s ss) (s ∷ ss)
  unfolding insert_by_start
  insert_by_start-perm s [] = Perm.refl _
  insert_by_start-perm s (t ∷ ts) = elim (Bool-cases (leb (start_of s) (start_of t))) [
    | inl e ↦ rw e (Perm.refl _)
    | inr e ↦ rw e (Perm.trans (Perm.cons t (insert_by_start-perm s ts)) (Perm.swap s t ts))
  ]

  sort-perm : (ss : List (InternalSpan N)) → Perm (sort_spans_by_start_time ss) ss
  unfolding sort_spans_by_start_time
  sort-perm [] = Perm.refl _
  sort-perm (s ∷ ss) =
      Perm.trans (insert_by_start-perm s (sort_spans_by_start_time ss)) (Perm.cons s (sort-perm ss))

  insert_by_start-All :
      (n : ℕ) (s : InternalSpan N) (ss : List (InternalSpan N))
      → n ≤ start_of s
      → All (λ t. n ≤ start_of t) ss
      → All (λ t. n ≤ start_of t) (insert_by_start s ss)
  unfolding insert_by_start
  insert_by_start-All n s [] h a = (h, tt)
  insert_by_start-All n s (t ∷ ts) h a = elim (Bool-cases (leb (start_of s) (start_of t))) [
    | inl e ↦ rw e (h, a)
    | inr e ↦ rw e (a.0, insert_by_start-All n s ts h a.1)
  ]

  insert_by_start-IsByStart :
      (s : InternalSpan N) (ss : List (InternalSpan N))
      → IsByStart ss
      → IsByStart (insert_by_start s ss)
  unfolding insert_by_start
  insert_by_start-IsByStart s [] d = (tt, tt)
  insert_by_start-IsByStart s (t ∷ ts) d = elim (Bool-cases (leb (start_of s) (start_of t))) [
    | inl e ↦
        let le : start_of s ≤ start_of t = ground arith in
        rw e ((le, All-map_pred _ _ (λ u (h : start_of t ≤ start_of u). omega arith) ts d.0), d)
    | inr e ↦
        let le : start_of t ≤ start_of s = ground arith in
        rw e (insert_by_start-All (start_of t) s ts le d.0, insert_by_start-IsByStart s ts d.1)
  ]

  sort-IsByStart : (ss : List (InternalSpan N)) → IsByStart (sort_spans_by_start_time ss)
  unfolding sort_spans_by_start_time
  sort-IsByStart [] = tt
  sort-IsByStart (s ∷ ss) =
      insert_by_start-IsByStart s (sort_spans_by_start_time ss) (sort-IsByStart ss)

  -- After a change of a row, the row of a span is expanded exactly if the change expanded a row of its
  -- id.
  abbrev IsChanged : String → Bool → DetailsRow N → Type 0
  IsChanged id expanded row =
      row.expanded ≡ (if expanded then str_eq id row.row_span.span.span_id else false)

  row_of : Option String → InternalSpan N → DetailsRow N
  row_of selected s = record { row_span = s; expanded = is_expanded selected s.span.span_id }

  spans_of-rows :
      (selected : Option String) (ss : List (InternalSpan N))
      → map (λ r. r.row_span) (map (row_of selected) ss) ≡ ss
  unfolding row_of
  spans_of-rows selected [] = refl
  spans_of-rows selected (s ∷ ss) = ap (λ rest. s ∷ rest) (spans_of-rows selected ss)

  rows-IsChanged :
      (id : String) (expanded : Bool) (ss : List (InternalSpan N))
      → All (IsChanged id expanded) (map (row_of (handle_change id expanded)) ss)
  unfolding row_of
  rows-IsChanged id expanded [] = tt
  rows-IsChanged id expanded (s ∷ ss) =
      (changed id expanded s.span.span_id, rows-IsChanged id expanded ss)

  -- The rows of the details are the node's spans, each once, in the order of their start; and after a
  -- row is expanded or collapsed, the rows that are expanded are those with its id, or none.
  details_rows_lem :
      (spans : List (InternalSpan N)) (id : String) (expanded : Bool)
      → let rows = details_rows (handle_change id expanded) spans in
        Perm (map (λ r. r.row_span) rows) spans
        × IsByStart (map (λ r. r.row_span) rows)
        × All (IsChanged id expanded) rows
  unfolding details_rows row_of
  details_rows_lem spans id expanded =
      let sorted = sort_spans_by_start_time spans in
      let same = spans_of-rows (handle_change id expanded) sorted in
      (
        subst (λ l. Perm l spans) (sym same) (sort-perm spans),
        subst IsByStart (sym same) (sort-IsByStart spans),
        rows-IsChanged id expanded sorted,
      )
