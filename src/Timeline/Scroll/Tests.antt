-- ===== src/Timeline/Scroll/Tests.antt =====
-- A trace of "a", its child "b" and its child "c", with "b" collapsed.
use teletrace.Base.{◌≡◌, refl, String, false, none, some, List, [], ◌∷◌, Map}
use teletrace.Numbers.Int.{pos}
use teletrace.Timeline.Dragging.{one}
use teletrace.Timeline.Scroll.{
  Reference, ScrollSpan, Scrolling, check_refs, hidden_loop, is_span_hidden, goes, scroll_target,
}

abbrev parent : String → List Reference
parent id = record { parent_span_id = some id; span_id = id } ∷ []

abbrev span_of : String → List Reference → ScrollSpan
span_of id references = record {
  span_id = id;
  start_time = 10;
  duration = 5;
  references = references;
}

abbrev spans : List ScrollSpan
spans = span_of "a" [] ∷ span_of "b" (parent "a") ∷ span_of "c" (parent "b") ∷ []

abbrev spans_map : Map ScrollSpan
spans_map =
    ("a", span_of "a" []) ∷ ("b", span_of "b" (parent "a")) ∷ ("c", span_of "c" (parent "b")) ∷ []

abbrev down : Scrolling
down = record {
  spans = spans;
  spans_map = spans_map;
  trace_start_time = 10;
  trace_duration = 5;
  view_start = pos 0;
  view_end = pos one;
  is_up = false;
}

-- All spans are in view, so the walk ends behind the last one and goes back to the last span that is
-- shown, "b".
goes_back : scroll_target 4 3 down ("b" ∷ []) 1 ≡ some (goes 2)
unfolding scroll_target hidden_loop
goes_back = refl

-- The references that the trace's data have (utils/trace.js) name no `parentSpanId`: a span under a
-- collapsed one counts as shown.
abbrev made : ScrollSpan
made = span_of "c" (record { parent_span_id = none; span_id = "b" } ∷ [])

never_hidden : is_span_hidden 3 made ("b" ∷ []) spans_map ≡ some (false, [])
unfolding is_span_hidden hidden_loop check_refs
never_hidden = refl
