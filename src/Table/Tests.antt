-- ===== src/Table/Tests.antt =====
-- The table on concrete spans.
use teletrace.Base.{◌≡◌, map, not, ◌&&◌, ℕ, refl, true, none, List, [], ◌∷◌, String}
use teletrace.Table.{TableSpan, to_row, update_table_spans}
use teletrace.Table.Rows.{is_empty, was_shown, update_table_spans_lem}
use teletrace.Store.State.{State, assign, Zustand}
use teletrace.Trace.Span.{InternalSpan, unset, unspecified}

abbrev zustand : Zustand ℕ
zustand = record { set = λ u s. assign (u s).0 (u s).1; set_lem = λ u s. refl }

abbrev store : State ℕ
store = record {
  live_spans_state = record { is_on = true; interval_in_millis = 2000 };
  current_timeframe = record {
    start_time_unix_nano_sec = 1;
    end_time_unix_nano_sec = 2;
    is_relative = true;
  };
  filters = [];
  sort = record { field = "span.name"; ascending = true } ∷ [];
}

abbrev span : String → InternalSpan ℕ
span id = record {
  span = record {
    span_id = id;
    trace_id = "t";
    parent_span_id = none;
    name = "GET";
    kind = unspecified;
    status = record { message = ""; code = unset };
    start_time_unix_nano = 1;
    end_time_unix_nano = 2;
    trace_state = "";
    attributes = [];
    dropped_attributes_count = 0;
    events = none;
    dropped_events_count = 0;
    links = none;
    dropped_links_count = 0;
  };
  scope = record { name = ""; version = ""; attributes = []; dropped_attributes_count = 0 };
  resource = record { attributes = []; dropped_attributes_count = 0 };
  external_fields = record { duration_nano = 1 };
}

abbrev format_date : ℕ → String
format_date n = "today"

abbrev first : List (InternalSpan ℕ)
first = span "a" ∷ []

abbrev second : List (InternalSpan ℕ)
second = span "b" ∷ span "a" ∷ []

abbrev shown : List TableSpan
shown = map (to_row format_date []) first

update_table_spans_lem_example :
    update_table_spans format_date second true shown
    ≡ map
        (λ s. record (to_row format_date [] s) {
          is_new = true && not (is_empty shown) && not (was_shown shown s);
        })
        second
update_table_spans_lem_example = update_table_spans_lem format_date second true shown
