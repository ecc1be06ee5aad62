-- ===== src/Timeline/Transform.antt =====
-- utils/trace.js and utils/span.js: what `transformTraceData` makes of the spans of a trace, given
-- their sorting and their tree. Times are whole microseconds, which the source has as fractions.
pub mod Range
pub mod Shown
use teletrace.Base.{
  ℕ, ◌+◌, ◌-◌, String, ◌&◌, Bool, true, false, Option, none, some, List, [], ◌∷◌, ◌++◌,
  if◌then◌else◌, ltb, map_get, map_set, Map, str_eq,
}
use teletrace.Timeline.Tree.{TreeNode, Visit, nil, cons, walk, children_of}

-- A span after `transformSpan`; an empty id of a parent counts as none.
pub record TransformedSpan : Type 0 where
  pub span_id : String
  pub start_time : ℕ
  pub duration : ℕ
  pub parent_span_id : Option String
  pub operation_name : String
  pub service_name : Option String

-- What the loop over the spans keeps: the range of the trace, how often each id came, the spans by
-- id, and the spans so far.
pub record Scan : Type 0 where
  pub trace_start_time : ℕ
  pub trace_end_time : ℕ
  pub span_id_counts : Map ℕ
  pub span_map : Map TransformedSpan
  pub spans : List TransformedSpan

-- `Number.MAX_SAFE_INTEGER`.
abbrev pub max_safe_integer : ℕ
max_safe_integer = 9007199254740991

abbrev pub scan_start : Scan
scan_start = record {
  trace_start_time = max_safe_integer;
  trace_end_time = 0;
  span_id_counts = [];
  span_map = [];
  spans = [];
}

-- The id that a span gets when its own came `id_count` times before.
abbrev pub renamed : (show : ℕ → String) → String → Option ℕ → String
renamed show span_id none = span_id
renamed show span_id (some id_count) = span_id & "_" & show id_count

abbrev pub next_count : Option ℕ → ℕ
next_count none = 1
next_count (some id_count) = id_count + 1

-- A round of the loop.
unfoldable pub scan_span : (show : ℕ → String) → TransformedSpan → Scan → Scan
scan_span show span s =
    let id_count = map_get span.span_id s.span_id_counts in
    let span_id = renamed show span.span_id id_count in
    let own = record span { span_id = span_id } in
    record {
      trace_start_time =
          if ltb span.start_time s.trace_start_time then span.start_time else s.trace_start_time;
      trace_end_time =
          if ltb s.trace_end_time (span.start_time + span.duration)
          then span.start_time + span.duration
          else s.trace_end_time;
      span_id_counts = map_set span.span_id (next_count id_count) s.span_id_counts;
      span_map = map_set span_id own s.span_map;
      spans = s.spans ++ own ∷ [];
    }

unfoldable pub scan_spans : (show : ℕ → String) → List TransformedSpan → Scan → Scan
unfolding scan_span
scan_spans show [] s = s
scan_spans show (span ∷ spans) s = scan_spans show spans (scan_span show span s)

-- A span of the trace after the walk over the tree; its reference is the id of its parent.
pub record TimelineSpan : Type 0 where
  pub span : TransformedSpan
  pub relative_start_time : ℕ
  pub depth : ℕ
  pub has_children : Bool
  pub reference : Option String

-- What the walk collects.
pub record Walked : Type 0 where
  pub svc_counts : Map ℕ
  pub trace_name : String
  pub spans : List TimelineSpan

abbrev pub walk_start : Walked
walk_start = record { svc_counts = []; trace_name = ""; spans = [] }

abbrev pub is_leaf : TreeNode String → Bool
is_leaf t = elim (children_of t) [ nil ↦ true | cons c cs ↦ false ]

abbrev pub count_service : Map ℕ → String → Map ℕ
count_service counts name =
    map_set name (elim (map_get name counts) [ none ↦ 1 | some n ↦ n + 1 ]) counts

-- The reference of a span whose parent is among the spans.
abbrev pub reference_of : Map TransformedSpan → Option String → Option String
reference_of span_map none = none
reference_of span_map (some id) = elim (map_get id span_map) [
  | none ↦ none
  | some parent ↦ some parent.span_id
]

-- An empty name counts as none.
abbrev pub given : Option String → Option String
given none = none
given (some name) = if str_eq name "" then none else some name

-- The callback of the walk for a span that it finds. (No span has its references yet, so each span
-- with a service gives the trace its name.)
unfoldable pub visit_span : Scan → Visit String → TransformedSpan → Walked → Walked
visit_span s v span w = record {
  svc_counts = elim (given span.service_name) [
    | none ↦ w.svc_counts
    | some name ↦ count_service w.svc_counts name
  ];
  trace_name = elim (given span.service_name) [
    | none ↦ w.trace_name
    | some name ↦ name & ": " & span.operation_name
  ];
  spans =
      w.spans
      ++ record {
        span = span;
        relative_start_time = span.start_time - s.trace_start_time;
        depth = v.depth - 1;
        has_children = if is_leaf v.tree then false else true;
        reference = reference_of s.span_map span.parent_span_id;
      }
        ∷ [];
}

unfoldable pub visit : Scan → Visit String → Walked → Walked
unfolding visit_span
visit s v w =
    if str_eq v.value "__root__"
    then w
    else (elim (map_get v.value s.span_map) [ none ↦ w | some span ↦ visit_span s v span w ])

unfoldable pub visit_all : Scan → List (Visit String) → Walked → Walked
unfolding visit
visit_all s [] w = w
visit_all s (v ∷ vs) w = visit_all s vs (visit s v w)

-- The walk of `transformTraceData` over the tree of ids; none if the walk runs out of fuel.
unfoldable pub transform_walk : Scan → TreeNode String → Option Walked
unfolding visit_all
transform_walk s tree = elim (walk tree 0) [
  | none ↦ none
  | some visits ↦ some (visit_all s visits walk_start)
]
