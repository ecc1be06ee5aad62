-- ===== src/Table/Rows.antt =====
-- The rows of the table after each answer, and which of them are marked as new.
use teletrace.Base.{
  ◌≡◌, refl, ap, ap₂, ◌∙◌, inl, inr, Bool, true, false, not, ◌||◌, ◌&&◌, List, [], ◌∷◌, map, filter,
  any, String, str_eq, arith, eq_iff, ℕ, All, All-map_pred, Bool-cases,
}
use teletrace.Texts as Texts
use teletrace.Trace.Span.{InternalSpan}
use teletrace.Table.{TableSpan, calc_new_spans, to_row, update_table_spans}

abbrev pub is_empty : List TableSpan → Bool
is_empty [] = true
is_empty (r ∷ rs) = false

module _ {N : Type 0} where
  abbrev ids : List (InternalSpan N) → List String
  ids = map (λ s. s.span.span_id)

  -- A row of the span's id was shown.
  abbrev pub was_shown : List TableSpan → InternalSpan N → Bool
  was_shown rows s = any (λ r. str_eq r.span_id s.span.span_id) rows

  has-filter :
      (p : String → Bool) (spans : List (InternalSpan N)) (t : String)
      → Texts.has (ids (filter (λ s. not (p s.span.span_id)) spans)) t
        ≡ (Texts.has (ids spans) t && not (p t))
  unfolding Texts.has
  has-filter p [] t = refl
  has-filter p (s ∷ spans) t = elim (Bool-cases (str_eq s.span.span_id t)) [
    | inl e ↦
        let same = ap p ((eq_iff s.span.span_id t).0 e) in ground (arith, has-filter p spans t)
    | inr e ↦ ground (arith, has-filter p spans t)
  ]

  has-ids :
      (rows : List TableSpan) (s : InternalSpan N)
      → Texts.has (map (λ r. r.span_id) rows) s.span.span_id ≡ was_shown rows s
  unfolding Texts.has
  has-ids [] s = refl
  has-ids (r ∷ rows) s = ap (λ b. str_eq r.span_id s.span.span_id || b) (has-ids rows s)

  members :
      (spans : List (InternalSpan N)) → All (λ s. Texts.has (ids spans) s.span.span_id ≡ true) spans
  unfolding Texts.has
  members [] = tt
  members (s ∷ spans) = (
    ground (arith, eq_iff s.span.span_id s.span.span_id),
    All-map_pred _ _ (λ t (h : Texts.has (ids spans) t.span.span_id ≡ true). ground arith) spans
        (members spans),
  )

  -- The ids that are new are those that no row had, where rows were shown and live mode is on.
  new-lem :
      (rows : List TableSpan) (spans : List (InternalSpan N)) (on : Bool) (s : InternalSpan N)
      → Texts.has (ids spans) s.span.span_id ≡ true
      → Texts.has (calc_new_spans rows spans on) s.span.span_id
        ≡ (on && not (is_empty rows) && not (was_shown rows s))
  unfolding calc_new_spans
  new-lem [] spans on s h = rw Texts.has-of_values (unfold Texts.has in ground arith)
  new-lem (r ∷ rows) spans false s h = rw Texts.has-of_values (unfold Texts.has in refl)
  new-lem (r ∷ rows) spans true s h =
      let shown = Texts.of_values (map (λ r. r.span_id) (r ∷ rows)) in
      Texts.has-of_values (ids (filter (λ s. not (Texts.has shown s.span.span_id)) spans))
        s.span.span_id
      ∙ has-filter (Texts.has shown) spans s.span.span_id
      ∙ ap₂ (λ a b. a && not b) h
          (Texts.has-of_values (map (λ r. r.span_id) (r ∷ rows)) s.span.span_id
            ∙ has-ids (r ∷ rows) s)

map-All : {A B : Type 0} (f g : A → B) (xs : List A) → All (λ x. f x ≡ g x) xs → map f xs ≡ map g xs
map-All f g [] a = refl
map-All f g (x ∷ xs) a = ap₂ (◌∷◌) a.0 (map-All f g xs a.1)

module _ {N : Type 0} (format_date : ℕ → String) where
  -- The rows after an answer are those of its spans in order, one for each. A row is marked as new
  -- exactly if live mode is on, some row was shown before, and none of those had the span's id.
  pub update_table_spans_lem :
      (spans : List (InternalSpan N)) (on : Bool) (rows : List TableSpan)
      → update_table_spans format_date spans on rows
        ≡ map
            (λ s. record (to_row format_date [] s) {
              is_new = on && not (is_empty rows) && not (was_shown rows s);
            })
            spans
  unfolding update_table_spans to_row
  update_table_spans_lem spans on rows = map-All _ _ spans (
      All-map_pred _ _
        (λ s (h : Texts.has (ids spans) s.span.span_id ≡ true).
          ap (λ b. record (to_row format_date [] s) { is_new = b }) (new-lem rows spans on s h))
        spans (members spans))

  shown-rows :
      (new_ids : List String) (spans : List (InternalSpan N)) (s : InternalSpan N)
      → was_shown (map (to_row format_date new_ids) spans) s ≡ Texts.has (ids spans) s.span.span_id
  unfolding to_row Texts.has
  shown-rows new_ids [] s = refl
  shown-rows new_ids (t ∷ ts) s =
      ap (λ b. str_eq t.span.span_id s.span.span_id || b) (shown-rows new_ids ts s)

  -- When the same spans come again, no row is marked as new, whatever was shown or switched before.
  update_table_spans_again :
      (spans : List (InternalSpan N)) (on now_on : Bool) (rows : List TableSpan)
      → update_table_spans format_date spans now_on (update_table_spans format_date spans on rows)
        ≡ map (λ s. record (to_row format_date [] s) { is_new = false }) spans
  unfolding update_table_spans
  update_table_spans_again spans on now_on rows =
      let before = update_table_spans format_date spans on rows in
      update_table_spans_lem spans now_on before
      ∙ map-All _ _ spans (
          All-map_pred _ _
            (λ s (h : Texts.has (ids spans) s.span.span_id ≡ true).
              let shown = shown-rows (calc_new_spans rows spans on) spans s ∙ h in
              ap (λ b. record (to_row format_date [] s) { is_new = b }) (ground arith))
            spans (members spans))
