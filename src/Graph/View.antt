-- ===== src/Graph/View.antt =====
-- The graph on the trace page: TraceGraph.tsx, with the state that it shares with
-- web/src/features/trace/routes/TraceView/TraceView.tsx.
pub mod Selection
pub mod Hover
pub mod Focus
use teletrace.Base.{
  ◌≡◌, Bool, true, false, not, ◌&&◌, ◌||◌, Option, none, some, List, [], ◌∷◌, map, String, str_eq,
  if◌then◌else◌, find, any, is_some,
}
use teletrace.Trace.Span.{InternalSpan}
use teletrace.Graph.Types.{GraphNode, Node, Edge}
use teletrace.Graph.Style.{
  apply_selected_node_style, apply_normal_node_style, apply_hovered_node_style,
  apply_selected_edge_style, apply_normal_edge_style, apply_hover_edge_style,
}

-- reactflow's `getConnectedEdges([node], edges)` keeps the edges that the node is an end of.
-- `connects node edge` is whether it keeps the edge, so for an edge of the array it is what
-- `includes` says of the result.
pub record Reactflow (N : Type 0) : Type 0 where
  pub connects : Node N → Edge → Bool
  pub connects_lem :
      (n : Node N) (e : Edge) → connects n e ≡ (str_eq e.source n.id || str_eq e.target n.id)

-- `traceData`, the nodes and edges on the canvas, the node that is being dragged, and the page's
-- selection.
pub record TraceState (N : Type 0) : Type 0 where
  pub trace_nodes : List (Node N)
  pub trace_edges : List Edge
  pub is_loading : Bool
  pub nodes : List (Node N)
  pub edges : List Edge
  pub actively_dragged_node : Option (Node N)
  pub selected_node : Option (GraphNode N)
  pub selected_span_id : Option String
  pub initially_focused_span_id : Option String
  pub span_details_is_loading : Bool

module _ {N : Type 0} where
  -- The effect on a new layout, and the one that copies it to the canvas.
  unfoldable pub show_layout : List (Node N) → List Edge → TraceState N → TraceState N
  show_layout [] edges s = s
  show_layout (n ∷ ns) edges s = record s {
    trace_nodes = n ∷ ns;
    trace_edges = edges;
    is_loading = false;
    nodes = n ∷ ns;
    edges = edges;
  }

  unfoldable pub is_selected_node : TraceState N → Node N → Bool
  is_selected_node s node = elim s.selected_node [
    | none ↦ false
    | some g ↦ str_eq node.content.graph_node.id g.id
  ]

  -- `handleAutoSelectedNodeChange` of the page.
  unfoldable pub handle_auto_selected_node_change : GraphNode N → TraceState N → TraceState N
  handle_auto_selected_node_change node s = record s { selected_node = some node }

  -- `handleGraphNodeClick` of the page: the details load anew for another node.
  unfoldable pub handle_graph_node_click : GraphNode N → TraceState N → TraceState N
  handle_graph_node_click node s = record s {
    span_details_is_loading = elim s.selected_node [
      | none ↦ true
      | some p ↦ (if str_eq p.id node.id then s.span_details_is_loading else true)
    ];
    selected_node = some node;
    selected_span_id = none;
  }

  unfoldable pub contains_span : String → Node N → Bool
  contains_span span_id node =
      any (λ s. str_eq s.span.span_id span_id) node.content.graph_node.spans

  unfoldable pub handle_node_drag_start : Node N → TraceState N → TraceState N
  handle_node_drag_start node s = record s { actively_dragged_node = some node }

  unfoldable pub handle_node_drag_stop : TraceState N → TraceState N
  handle_node_drag_stop s = record s { actively_dragged_node = none }

  unfoldable pub on_pane_click : TraceState N → TraceState N
  unfolding apply_normal_node_style apply_normal_edge_style
  on_pane_click s = record s {
    selected_node = none;
    nodes = map apply_normal_node_style s.nodes;
    edges = map apply_normal_edge_style s.edges;
  }

module _ {N : Type 0} (r : Reactflow N) where
  unfoldable pub mark_selected_node :
      List (Node N) → List Edge → Node N → TraceState N → TraceState N
  unfolding apply_selected_node_style apply_normal_node_style apply_selected_edge_style
      apply_normal_edge_style
  mark_selected_node nodes edges selected_node s = record s {
    nodes =
        map
          (λ n.
            if str_eq n.id selected_node.id
            then apply_selected_node_style n
            else apply_normal_node_style n)
          nodes;
    edges =
        map
          (λ e.
            if r.connects selected_node e
            then apply_selected_edge_style e
            else apply_normal_edge_style e)
          edges;
  }

  -- The effects on `initiallyFocusedSpanId` and `selectedSpanId`: the first node that holds the
  -- span is selected; no span id, or the empty one, selects nothing.
  unfoldable pub select_node_by_span_id : Option String → TraceState N → TraceState N
  unfolding mark_selected_node contains_span handle_auto_selected_node_change
  select_node_by_span_id none s = s
  select_node_by_span_id (some span_id) s =
      if str_eq span_id "" then s else (elim (find (contains_span span_id) s.trace_nodes) [
        | none ↦ s
        | some node ↦
            handle_auto_selected_node_change node.content.graph_node
              (mark_selected_node s.trace_nodes s.trace_edges node s)
      ])

  unfoldable pub on_node_click : Node N → TraceState N → TraceState N
  unfolding mark_selected_node handle_graph_node_click
  on_node_click node s =
      handle_graph_node_click node.content.graph_node (mark_selected_node s.nodes s.edges node s)

  -- `getSelectedNodeEdges().includes(e)`.
  unfoldable pub touches_selected_node : TraceState N → Edge → Bool
  unfolding is_selected_node
  touches_selected_node s e = elim (find (is_selected_node s) s.nodes) [
    | none ↦ false
    | some node ↦ r.connects node e
  ]

  unfoldable pub apply_node_mouse_event_styles :
      Node N → (Node N → Node N) → (Edge → Edge) → TraceState N → TraceState N
  unfolding is_selected_node touches_selected_node
  apply_node_mouse_event_styles node apply_node_style apply_edge_style s =
      if is_selected_node s node || is_some s.actively_dragged_node then s else record s {
        edges =
            map
              (λ e.
                if r.connects node e && not (touches_selected_node s e)
                then apply_edge_style e
                else e)
              s.edges;
        nodes = map (λ n. if str_eq n.id node.id then apply_node_style n else n) s.nodes;
      }

  unfoldable pub handle_node_mouse_enter : Node N → TraceState N → TraceState N
  unfolding apply_node_mouse_event_styles apply_hovered_node_style apply_hover_edge_style
  handle_node_mouse_enter node =
      apply_node_mouse_event_styles node apply_hovered_node_style apply_hover_edge_style

  unfoldable pub handle_node_mouse_leave : Node N → TraceState N → TraceState N
  unfolding apply_node_mouse_event_styles apply_normal_node_style apply_normal_edge_style
  handle_node_mouse_leave node =
      apply_node_mouse_event_styles node apply_normal_node_style apply_normal_edge_style
