-- ===== src/Timeline/Rows.antt =====
-- TraceTimelineViewer/VirtualizedTraceView/index.js: the rows of the list of spans, with the
-- collapsed spans' descendants left out.
pub mod Hidden
pub mod Index
pub mod Toggle
use teletrace.Base.{
  ℕ, zero, suc, ◌+◌, String, Bool, true, false, Option, none, some, List, [], ◌∷◌, ◌++◌,
  if◌then◌else◌, leb, ◌==◌, ◌&&◌, str_eq,
}
use teletrace.Texts.{has, add}

-- What the rows need of a span of the transformed trace.
pub record TraceSpan : Type 0 where
  pub span_id : String
  pub depth : ℕ
  pub has_logs : Bool

pub record RowState : Type 0 where
  pub is_detail : Bool
  pub span : TraceSpan
  pub span_index : ℕ

-- The row of a span, and that of its details if they are open.
unfoldable pub push_rows : (detail_states : List String) → TraceSpan → ℕ → List RowState
push_rows detail_states span i =
    let bar : RowState = record { is_detail = false; span = span; span_index = i } in
    if has detail_states span.span_id
    then bar ∷ record { is_detail = true; span = span; span_index = i } ∷ []
    else bar ∷ []

-- A span below the collapsed depth is hidden.
abbrev pub is_hidden : (collapse_depth : Option ℕ) → ℕ → Bool
is_hidden none depth = false
is_hidden (some collapsed) depth = leb collapsed depth

-- The loop of `generateRowStates` from the span at `i` on. (A row's `isSelected` is always false.)
unfoldable pub row_loop :
    (children_hidden_ids detail_states : List String)
    → List TraceSpan
    → (i : ℕ) → (collapse_depth : Option ℕ) → List RowState
unfolding push_rows
row_loop children_hidden_ids detail_states [] i collapse_depth = []
row_loop children_hidden_ids detail_states (span ∷ spans) i collapse_depth =
    let hidden = row_loop children_hidden_ids detail_states spans (suc i) collapse_depth in
    let collapsed =
      row_loop children_hidden_ids detail_states spans (suc i) (some (span.depth + 1)) in
    let opened = row_loop children_hidden_ids detail_states spans (suc i) none in
    if is_hidden collapse_depth span.depth
    then hidden
    else push_rows detail_states span i
      ++ (if has children_hidden_ids span.span_id then collapsed else opened)

-- `generateRowStates`; none stands for missing spans.
unfoldable pub generate_row_states :
    Option (List TraceSpan) → (children_hidden_ids detail_states : List String) → List RowState
unfolding row_loop
generate_row_states none children_hidden_ids detail_states = []
generate_row_states (some spans) children_hidden_ids detail_states =
    row_loop children_hidden_ids detail_states spans 0 none

-- The loop of `mapSpanIndexToRowIndex`; none is its Error.
unfoldable pub map_span_index_to_row_index : List RowState → ℕ → Option ℕ
map_span_index_to_row_index [] index = none
map_span_index_to_row_index (row ∷ rows) index =
    let later = map_span_index_to_row_index rows index in
    if row.span_index == index then some 0 else (elim later [ none ↦ none | some i ↦ some (suc i) ])

-- `mapRowIndexToSpanIndex`; none is the TypeError of a row that does not exist.
unfoldable pub map_row_index_to_span_index : List RowState → ℕ → Option ℕ
map_row_index_to_span_index [] index = none
map_row_index_to_span_index (row ∷ rows) zero = some row.span_index
map_row_index_to_span_index (row ∷ rows) (suc index) = map_row_index_to_span_index rows index

-- `getRowHeight` of a row that exists, with `DEFAULT_HEIGHTS`.
unfoldable pub get_row_height : RowState → ℕ
get_row_height row = if row.is_detail then (if row.span.has_logs then 197 else 161) else 30

-- `Set.delete`.
unfoldable pub delete_id : List String → String → List String
delete_id [] id = []
delete_id (s ∷ set) id = let rest = delete_id set id in if str_eq s id then rest else s ∷ rest

-- What the `useState` of TraceTimeline.js holds; the identity of the trace is a text.
pub record TimelineState : Type 0 where
  pub children_hidden_ids : List String
  pub detail_states : List String
  pub hover_indent_guide_ids : List String
  pub jump_to_span : Option String
  pub span_name_column_width : ℕ
  pub trace_id : Option String

unfoldable pub children_toggle : String → TimelineState → TimelineState
unfolding delete_id add has
children_toggle span_id s = record s {
  children_hidden_ids =
      if has s.children_hidden_ids span_id
      then delete_id s.children_hidden_ids span_id
      else add s.children_hidden_ids span_id;
}

unfoldable pub add_hover_indent_guide_id : String → TimelineState → TimelineState
unfolding add
add_hover_indent_guide_id span_id s = record s {
  hover_indent_guide_ids = add s.hover_indent_guide_ids span_id;
}

unfoldable pub remove_hover_indent_guide_id : String → TimelineState → TimelineState
unfolding delete_id
remove_hover_indent_guide_id span_id s = record s {
  hover_indent_guide_ids = delete_id s.hover_indent_guide_ids span_id;
}

unfoldable pub set_column_width : ℕ → TimelineState → TimelineState
set_column_width width s = record s { span_name_column_width = width }

unfoldable pub remove_jump_to_span : TimelineState → TimelineState
remove_jump_to_span s = record s { jump_to_span = none }

abbrev pub same_trace : Option String → String → Bool
same_trace none id = false
same_trace (some t) id = str_eq id t

unfoldable pub set_trace : (trace_id : String) → TimelineState → TimelineState
set_trace trace_id s =
    if same_trace s.trace_id trace_id
    then s
    else record s { children_hidden_ids = []; detail_states = []; trace_id = some trace_id }
