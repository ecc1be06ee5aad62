-- ===== src/Graph/Style.antt =====
-- The styles of nodes and edges: utils/utils.ts.
use teletrace.Base.{Bool, true, false, none, some, if◌then◌else◌}
use teletrace.Graph.Types.{EdgeColor, NodeColor, Node, Edge}

module _ {N : Type 0} where
  unfoldable pub apply_selected_node_style : Node N → Node N
  apply_selected_node_style node =
      let color =
        (if node.content.graph_node.has_error
          then NodeColor.err_selected
          else NodeColor.selected) in
      record node { selected = true; content = record (node.content) { color = color } }

  unfoldable pub apply_normal_node_style : Node N → Node N
  apply_normal_node_style node =
      let color =
        (if node.content.graph_node.has_error then NodeColor.error else NodeColor.normal) in
      record node { selected = false; content = record (node.content) { color = color } }

  unfoldable pub apply_hovered_node_style : Node N → Node N
  apply_hovered_node_style node =
      let color =
        (if node.content.graph_node.has_error then NodeColor.err_hover else NodeColor.hover) in
      record node { selected = false; content = record (node.content) { color = color } }

-- `edge.data?.hasError` as a test.
unfoldable pub edge_has_error : Edge → Bool
edge_has_error edge = elim edge.content [ none ↦ false | some c ↦ c.has_error ]

-- The marker and the style, where the edge has them, in a colour.
unfoldable pub paint_edge : EdgeColor → Edge → Edge
paint_edge color edge = record edge {
  marker_end = elim edge.marker_end [ none ↦ none | some m ↦ some (record m { color = color }) ];
  style = elim edge.style [ none ↦ none | some s ↦ some (record s { stroke = color }) ];
}

unfoldable pub apply_selected_edge_style : Edge → Edge
unfolding edge_has_error paint_edge
apply_selected_edge_style edge =
    let color = (if edge_has_error edge then EdgeColor.err_selected else EdgeColor.selected) in
    record (paint_edge color edge) { animated = true; selected = true }

unfoldable pub apply_normal_edge_style : Edge → Edge
unfolding edge_has_error paint_edge
apply_normal_edge_style edge =
    let color = (if edge_has_error edge then EdgeColor.error else EdgeColor.normal) in
    record (paint_edge color edge) { animated = false; selected = false }

unfoldable pub apply_hover_edge_style : Edge → Edge
unfolding edge_has_error paint_edge
apply_hover_edge_style edge =
    let color = (if edge_has_error edge then EdgeColor.err_hover else EdgeColor.hover) in
    record (paint_edge color edge) { animated = true; selected = false }
