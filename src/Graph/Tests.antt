-- ===== src/Graph/Tests.antt =====
-- The graph of a small trace.
use mathlib.Core.List.{Perm}
use teletrace.Base.{
  inl, inr, ℕ, ◌≡◌, ◌↔◌, ◌||◌, refl, true, false, Option, none, some, List, [], ◌∷◌, map, String,
  str_eq, All, is_some,
}
use teletrace.Numbers.Sample.{sample}
use teletrace.Trace.Span.{text, Attributes, StatusCode, SpanKind, InternalSpan}
use teletrace.Graph.Types.{GraphNode, Node}
use teletrace.Graph.Layout.{create_node, span_to_graph_nodes, graph_nodes_to_graph_tree}
use teletrace.Graph.Nodes.{
  all_spans, HasDistinctNodes, IsNode, has_service_name, span_to_graph_nodes_partition,
  span_to_graph_nodes_total,
}
use teletrace.Graph.Edges.{weight, weight_of, holder, crossings, IsEdge}
use teletrace.Graph.Edges.Tree.{HasDistinctIds, graph_edges-IsEdge}
use teletrace.Graph.Style.{apply_normal_node_style, apply_normal_edge_style}
use teletrace.Graph.View.{Reactflow, TraceState, show_layout}
use teletrace.Graph.View.Selection.{
  OwnsId, ComesFrom, IsConsistent, Event, here, next, step, Reach-IsConsistent,
}
use teletrace.Graph.View.Hover.{IsAtRest}

abbrev Num : Type 0
Num = Option ℕ

abbrev span : String → Option String → StatusCode → Attributes Num → InternalSpan Num
span id parent code attributes = record {
  span = record {
    span_id = id;
    trace_id = "t";
    parent_span_id = parent;
    name = id;
    kind = SpanKind.server;
    status = record { message = ""; code = code };
    start_time_unix_nano = 1;
    end_time_unix_nano = 2;
    trace_state = "";
    attributes = attributes;
    dropped_attributes_count = 0;
    events = none;
    dropped_events_count = 0;
    links = none;
    dropped_links_count = 0;
  };
  scope = record { name = ""; version = ""; attributes = []; dropped_attributes_count = 0 };
  resource = record {
    attributes = ("service.name", text "shop") ∷ [];
    dropped_attributes_count = 0;
  };
  external_fields = record { duration_nano = 1 };
}

-- A shop's span, its query of a database, and another span of the shop.
abbrev trace : List (InternalSpan Num)
trace =
    span "a" none StatusCode.ok []
    ∷ span "b" (some "a") StatusCode.error
        (("db.system", text "pg") ∷ ("db.name", text "orders") ∷ [])
    ∷ span "c" (some "a") StatusCode.ok []
    ∷ []

abbrev graph : List (GraphNode Num)
graph =
    record {
      id = "shopservice";
      service_name = "shop";
      system_type = "service";
      image = "";
      has_error = false;
      spans = span "a" none StatusCode.ok [] ∷ span "c" (some "a") StatusCode.ok [] ∷ [];
    }
    ∷ record {
      id = "orderspg";
      service_name = "orders";
      system_type = "pg";
      image = "pg";
      has_error = true;
      spans =
          span "b" (some "a") StatusCode.error
            (("db.system", text "pg") ∷ ("db.name", text "orders") ∷ [])
          ∷ [];
    }
    ∷ []

trace-graph : span_to_graph_nodes sample trace ≡ some graph
unfolding span_to_graph_nodes
trace-graph = refl

span_to_graph_nodes_partition_example :
    Perm (all_spans graph) trace × HasDistinctNodes graph × All (IsNode sample) graph
span_to_graph_nodes_partition_example = span_to_graph_nodes_partition sample trace graph trace-graph

span_to_graph_nodes_total_example :
    (is_some (span_to_graph_nodes sample trace) ≡ true)
    ↔ All (λ s. has_service_name sample s ≡ true) trace
span_to_graph_nodes_total_example = span_to_graph_nodes_total sample trace

one_edge : weight_of "orderspg->shopservice" (graph_nodes_to_graph_tree graph).1 ≡ 1
unfolding graph_nodes_to_graph_tree weight
one_edge = refl

graph_edges-IsEdge_example :
    All (IsEdge graph) (graph_nodes_to_graph_tree graph).1
    × HasDistinctIds (graph_nodes_to_graph_tree graph).1
    × ((id : String)
        → weight_of id (graph_nodes_to_graph_tree graph).1 ≡ crossings (holder graph) id graph)
graph_edges-IsEdge_example = graph_edges-IsEdge graph

abbrev nodes : List (Node Num)
nodes = map create_node graph

abbrev reactflow : Reactflow Num
reactflow = record {
  connects = λ n e. str_eq e.source n.id || str_eq e.target n.id;
  connects_lem = λ n e. refl;
}

abbrev empty : TraceState Num
empty = record {
  trace_nodes = [];
  trace_edges = [];
  is_loading = true;
  nodes = [];
  edges = [];
  actively_dragged_node = none;
  selected_node = none;
  selected_span_id = none;
  initially_focused_span_id = none;
  span_details_is_loading = true;
}

abbrev shop : Node Num
shop = create_node (record {
  id = "shopservice";
  service_name = "shop";
  system_type = "service";
  image = "";
  has_error = false;
  spans = [];
})

abbrev shown : TraceState Num
shown = show_layout nodes (graph_nodes_to_graph_tree graph).1 empty

shop-OwnsId : OwnsId shop
unfolding create_node
shop-OwnsId = refl

-- reactflow selects all nodes, as by a box.
abbrev boxed : List (Node Num)
boxed = map (λ (n : Node Num). record n { selected = true }) nodes

boxed-ComeFrom : All (ComesFrom shown.nodes) boxed
unfolding show_layout
boxed-ComeFrom = (inl (refl, refl), (inr (inl (refl, refl)), tt))

Reach-IsConsistent_example :
    IsConsistent
      (step reactflow (Event.click shop) (step reactflow (Event.nodes_change boxed) shown))
Reach-IsConsistent_example =
    Reach-IsConsistent reactflow graph (graph_nodes_to_graph_tree graph).1 empty (cc) refl
      (next (next here (Event.nodes_change boxed) boxed-ComeFrom) (Event.click shop) shop-OwnsId)

shown-IsAtRest : IsAtRest reactflow shown
unfolding show_layout graph_nodes_to_graph_tree apply_normal_node_style apply_normal_edge_style
shown-IsAtRest = record { nodes = (λ h. refl, (λ h. refl, tt)); edges = (λ h. refl, tt) }

shown-graph :
    span_to_graph_nodes sample trace ≡ some (map (λ n. n.content.graph_node) shown.trace_nodes)
unfolding show_layout create_node
shown-graph = trace-graph
