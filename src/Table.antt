-- ===== src/Table.antt =====
-- The table of spans (web/src/features/search/components/SpanTable) and the requests that fill it
-- (web/src/features/search/api/spanQuery.ts).
pub mod Rows
pub mod Sorting
mod Tests
use teletrace.Base.{
  ℕ, ◌≡◌, Bool, true, false, not, ◌||◌, Option, none, some, List, [], ◌∷◌, map, filter, any, String,
  str_eq, if◌then◌else◌,
}
use teletrace.Texts as Texts
use teletrace.Search.Types.{SearchFilter, Sort, Timeframe}
use teletrace.Store.State.{State, Zustand}
use teletrace.Store.Slices.{set_sort}
use teletrace.Trace.Span.{AttributeValue, text, StatusCode, InternalSpan}
use teletrace.Trace.Attributes.{lookup}

-- A row.
pub record TableSpan : Type 0 where
  pub id : String
  pub trace_id : String
  pub span_id : String
  pub start_time : String
  pub duration : ℕ
  pub name : String
  pub status : StatusCode
  pub service_name : String
  pub is_new : Bool

pub record Metadata : Type 0 where
  pub next_token : Option String

pub record SearchRequest (N : Type 0) : Type 0 where
  pub timeframe : Timeframe
  pub filters : Option (List (SearchFilter N))
  pub sort : Option (List Sort)
  pub metadata : Option Metadata

pub record SearchResponse (N : Type 0) : Type 0 where
  pub spans : List (InternalSpan N)
  pub metadata : Option Metadata

-- A column's state in the table component.
pub record ColumnSort : Type 0 where
  pub id : String
  pub desc : Bool

module _ {N : Type 0} where
  unfoldable pub search_request : State N → SearchRequest N
  search_request s = record {
    filters = some s.filters;
    timeframe = record {
      start_time_unix_nano_sec = s.current_timeframe.start_time_unix_nano_sec;
      end_time_unix_nano_sec = s.current_timeframe.end_time_unix_nano_sec;
    };
    sort = some s.sort;
    metadata = none;
  }

  unfoldable pub calc_new_spans : List TableSpan → List (InternalSpan N) → Bool → List String
  unfolding Texts.of_values Texts.has
  calc_new_spans [] spans live_spans_enabled = Texts.of_values []
  calc_new_spans (r ∷ rs) spans live_spans_enabled =
      if not live_spans_enabled
      then Texts.of_values []
      else let prev_spans_ids = Texts.of_values (map (λ row. row.span_id) (r ∷ rs)) in
        Texts.of_values (
          map (λ s. s.span.span_id)
            (filter (λ s. not (Texts.has prev_spans_ids s.span.span_id)) spans))

  unfoldable pub row_service_name : InternalSpan N → String
  unfolding lookup
  row_service_name s = elim (lookup "service.name" s.resource.attributes) [
    | some (text name) ↦ name
    | _ ↦ "service unknown"
  ]

  -- `post` is the backend's answer to POST /v1/search; none where it rejects.
  unfoldable pub fetch_spans :
      (SearchRequest N → Option (SearchResponse N))
      → SearchRequest N
      → Option String
      → Option (SearchResponse N)
  fetch_spans post request page_param =
      post (record request { metadata = some (record { next_token = page_param }) })

  unfoldable pub get_next_page_param : SearchResponse N → Option String
  get_next_page_param last_page = elim last_page.metadata [
    | none ↦ none
    | some metadata ↦ metadata.next_token
  ]

  unfoldable pub has_spans : (SearchRequest N → Option (SearchResponse N)) → Bool
  unfolding fetch_spans
  has_spans post =
      let request : SearchRequest N = record {
        timeframe = record { start_time_unix_nano_sec = 0; end_time_unix_nano_sec = 0 };
        filters = none;
        sort = none;
        metadata = none;
      } in
      elim (fetch_spans post request (some "")) [
        | none ↦ false
        | some response ↦ elim response.spans [ [] ↦ false | _ ∷ _ ↦ true ]
      ]

  unfoldable pub sorting_state : State N → List ColumnSort
  sorting_state s = map (λ o. record { id = o.field; desc = not o.ascending }) s.sort

  unfoldable pub update_sorting_state :
      Zustand N → (List ColumnSort → List ColumnSort) → State N → State N
  unfolding sorting_state set_sort
  update_sorting_state z updater s =
      set_sort z
        (map (λ c. record { field = c.id; ascending = not c.desc }) (updater (sorting_state s))) s

-- `format_date` is `formatNanoAsMsDateTime`, over date-fns.
module _ {N : Type 0} (format_date : ℕ → String) where
  unfoldable pub to_row : (new_spans_ids : List String) → InternalSpan N → TableSpan
  unfolding row_service_name Texts.has
  to_row new_spans_ids s = record {
    id = s.span.span_id;
    trace_id = s.span.trace_id;
    span_id = s.span.span_id;
    start_time = format_date s.span.start_time_unix_nano;
    duration = s.external_fields.duration_nano;
    name = s.span.name;
    status = s.span.status.code;
    service_name = row_service_name s;
    is_new = Texts.has new_spans_ids s.span.span_id;
  }

  -- The effect that fills the table, on the spans of the pages that have come.
  unfoldable pub update_table_spans :
      List (InternalSpan N) → (is_on : Bool) → List TableSpan → List TableSpan
  unfolding calc_new_spans to_row
  update_table_spans new_spans is_on prev_table_spans =
      map (to_row (calc_new_spans prev_table_spans new_spans is_on)) new_spans
