-- ===== src/Details.antt =====
-- web/src/features/trace/components/SpanDetailsList: the list of the spans of a node, sorted by their
-- start, of which the page's selected span is expanded.
pub mod Rows
use teletrace.Base.{
  ℕ, Bool, true, false, Option, none, some, List, [], ◌∷◌, map, String, str_eq, if◌then◌else◌, leb,
}
use teletrace.Numbers.{Numbers}
use teletrace.Trace.Span.{InternalSpan, StatusCode, error, ok, unset}
use teletrace.Trace.Attributes.{truthy_at, to_text}

abbrev pub is_expanded : (selected_span_id : Option String) → String → Bool
is_expanded none id = false
is_expanded (some selected) id = str_eq selected id

-- `handleChange`: the span that is selected then.
unfoldable pub handle_change : String → (expanded : Bool) → Option String
handle_change span_id expanded = if expanded then some span_id else none

-- A row of the list: a span, and whether it is expanded.
pub record DetailsRow (N : Type 0) : Type 0 where
  pub row_span : InternalSpan N
  pub expanded : Bool

module _ {N : Type 0} where
  -- `sortSpansByStartTime`: JavaScript's sort is stable.
  unfoldable pub insert_by_start : InternalSpan N → List (InternalSpan N) → List (InternalSpan N)
  insert_by_start s [] = s ∷ []
  insert_by_start s (t ∷ ts) =
      let later = insert_by_start s ts in
      if leb s.span.start_time_unix_nano t.span.start_time_unix_nano then s ∷ t ∷ ts else t ∷ later

  unfoldable pub sort_spans_by_start_time : List (InternalSpan N) → List (InternalSpan N)
  unfolding insert_by_start
  sort_spans_by_start_time [] = []
  sort_spans_by_start_time (s ∷ ss) = insert_by_start s (sort_spans_by_start_time ss)

  -- What `SpanDetailsList` draws once it is loaded.
  unfoldable pub details_rows :
      (selected_span_id : Option String) → List (InternalSpan N) → List (DetailsRow N)
  unfolding sort_spans_by_start_time
  details_rows selected_span_id spans =
      map (λ s. record { row_span = s; expanded = is_expanded selected_span_id s.span.span_id })
        (sort_spans_by_start_time spans)

  -- `hasError` of SpanDetails.tsx.
  unfoldable pub has_error : InternalSpan N → Bool
  has_error s = elim s.span.status.code [ error ↦ true | ok ↦ false | unset ↦ false ]

-- `getErrorMessage`.
unfoldable pub get_error_message : {N : Type 0} → Numbers N → InternalSpan N → String
get_error_message js s =
    if str_eq s.span.status.message ""
    then (elim (truthy_at js s.span.attributes "grpc.error_message") [
      | none ↦ ""
      | some value ↦ to_text js value
    ])
    else s.span.status.message
