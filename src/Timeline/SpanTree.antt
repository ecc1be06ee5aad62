-- ===== src/Timeline/SpanTree.antt =====
-- utils/trace.js, `getTraceSpanIdsAsTree`: the tree of the ids of the spans. The source pushes the
-- nodes to the children of their parents and then follows the children from the root; here the
-- children of a node are collected when it is reached, on fuel.
pub mod Chain
pub mod Parents
pub mod Descend
pub mod Complete
use teletrace.Base.{
  ℕ, zero, suc, Bool, true, false, not, String, Option, none, some, List, [], ◌∷◌, filter, any, leb,
  str_eq, if◌then◌else◌,
}
use teletrace.Timeline.Tree.{TreeNode, node, Forest, nil, cons}
use teletrace.Timeline.Transform.{
  TransformedSpan, Scan, Walked, scan_start, scan_spans, transform_walk,
}

-- `nodesById.has`.
abbrev pub has_id : List TransformedSpan → String → Bool
has_id spans id = any (λ t. str_eq t.span_id id) spans

-- The span's node is pushed to the children of the node `id`.
abbrev pub is_child_of : String → TransformedSpan → Bool
is_child_of id s = elim s.parent_span_id [ none ↦ false | some parent ↦ str_eq parent id ]

-- The span's node is pushed to the children of the root.
abbrev pub is_top : List TransformedSpan → TransformedSpan → Bool
is_top spans s = elim s.parent_span_id [ none ↦ true | some parent ↦ not (has_id spans parent) ]

-- The sort by `comparator`, which is stable.
unfoldable pub insert_span : TransformedSpan → List TransformedSpan → List TransformedSpan
insert_span s [] = s ∷ []
insert_span s (t ∷ ts) =
    let later = insert_span s ts in if leb s.start_time t.start_time then s ∷ t ∷ ts else t ∷ later

unfoldable pub sort_children : List TransformedSpan → List TransformedSpan
unfolding insert_span
sort_children [] = []
sort_children (s ∷ ss) = insert_span s (sort_children ss)

unfoldable pub children_spans : List TransformedSpan → String → List TransformedSpan
unfolding sort_children
children_spans spans id = sort_children (filter (is_child_of id) spans)

unfoldable pub top_spans : List TransformedSpan → List TransformedSpan
unfolding sort_children
top_spans spans = sort_children (filter (is_top spans) spans)

unfoldable pub forest_of :
    (TransformedSpan → Option (TreeNode String)) → List TransformedSpan → Option (Forest String)
forest_of tree [] = some nil
forest_of tree (s ∷ ss) = elim (tree s) [
  | none ↦ none
  | some t ↦ (elim (forest_of tree ss) [ none ↦ none | some ts ↦ some (cons t ts) ])
]

-- The node of a span with all below it; none where the fuel runs out.
unfoldable pub tree_of :
    (fuel : ℕ) → List TransformedSpan → TransformedSpan → Option (TreeNode String)
unfolding children_spans forest_of
tree_of zero spans s = none
tree_of (suc fuel) spans s =
    elim (forest_of (tree_of fuel spans) (children_spans spans s.span_id)) [
      | none ↦ none
      | some cs ↦ some (node s.span_id cs)
    ]

-- The source pushes each span's node into that of its parent, found by its id, where the children are
-- filtered here; the two agree for spans with different ids.
unfoldable pub get_trace_span_ids_as_tree :
    (fuel : ℕ) → List TransformedSpan → Option (TreeNode String)
unfolding tree_of top_spans
get_trace_span_ids_as_tree fuel spans = elim (forest_of (tree_of fuel spans) (top_spans spans)) [
  | none ↦ none
  | some cs ↦ some (node "__root__" cs)
]

-- `transformTraceData`, from the spans that `transformSpan` made in the order of their start times:
-- the range and the spans of the trace, with fuel for its tree.
unfoldable pub transform_trace_data :
    (fuel : ℕ) → (show : ℕ → String) → List TransformedSpan → Option (Scan × Walked)
unfolding get_trace_span_ids_as_tree transform_walk scan_spans
transform_trace_data fuel show spans =
    let s = scan_spans show spans scan_start in
    elim (get_trace_span_ids_as_tree fuel s.spans) [
      | none ↦ none
      | some tree ↦ (elim (transform_walk s tree) [ none ↦ none | some w ↦ some (s, w) ])
    ]
