-- ===== src/Graph/Layout.antt =====
-- The graph of a trace's spans: utils/layout.ts, less the placement of the nodes.
use teletrace.Base.{
  ◌+◌, Bool, false, not, ◌||◌, Option, none, some, List, [], ◌∷◌, ◌++◌, map, String, ◌&◌, str_eq,
  if◌then◌else◌, get_or, Map, map_get, map_set, values, ◌>>=◌,
}
use teletrace.Numbers.{Numbers}
use teletrace.Trace.Span.{Attributes, InternalSpan, is_error}
use teletrace.Trace.Attributes.{lookup, spread, truthy_at, first_truthy, to_text}
use teletrace.Graph.Types.{
  GraphNodeData, GraphNode, EdgeColor, NodeColor, Node, Edge, basic_node_type, basic_edge_type,
  edge_arrow_size,
}

abbrev pub service_type_to_names : List (String × List String)
service_type_to_names =
    ("db.system", "db.name" ∷ "net.peer.name" ∷ [])
    ∷ ("messaging.system", "messaging.destination" ∷ [])
    ∷ []

unfoldable pub create_edge : (node_id parent_name : String) → Bool → Edge
create_edge node_id parent_name has_error =
    let color = (if has_error then EdgeColor.error else EdgeColor.normal) in
    record {
      id = node_id & "->" & parent_name;
      type = basic_edge_type;
      source = parent_name;
      target = node_id;
      content = some (record { count = 1; has_error = has_error });
      style = some (record { stroke = color; padding = 1; cursor = "default" });
      marker_end =
          some (record { width = edge_arrow_size; height = edge_arrow_size; color = color });
      animated = false;
      selected = false;
    }

unfoldable pub update_edge : Edge → Edge
update_edge e = elim e.content [
  | none ↦ e
  | some content ↦ record e { content = some (record content { count = content.count + 1 }) }
]

module _ {N : Type 0} (js : Numbers N) where
  -- The loop over `serviceTypeToNamesMap`: the first truthy system decides, and names the node if
  -- one of its names is truthy.
  unfoldable pub classify :
      Attributes N → List (String × List String) → GraphNodeData → GraphNodeData
  unfolding truthy_at first_truthy to_text
  classify attributes [] node_data = node_data
  classify attributes ((type_key, name_keys) ∷ more) node_data =
      elim (truthy_at js attributes type_key) [
        | none ↦ classify attributes more node_data
        | some service_type ↦ elim (first_truthy js attributes name_keys) [
          | none ↦ node_data
          | some service_name ↦ record node_data {
            name = to_text js service_name;
            type = to_text js service_type;
            image = to_text js service_type;
          }
        ]
      ]

  -- none is the TypeError of `undefined.toString()`: a span without a service name.
  unfoldable pub get_graph_node_data : InternalSpan N → Option GraphNodeData
  unfolding classify spread lookup
  get_graph_node_data s =
      let span_attributes = spread s.resource.attributes s.span.attributes in
      lookup "service.name" span_attributes >>= λ service_name.
      let graph_node_data =
        classify span_attributes service_type_to_names
          (record { id = ""; name = to_text js service_name; image = ""; type = "service" }) in
      some (record graph_node_data { id = graph_node_data.name & "-" & graph_node_data.type })

  unfoldable pub create_graph_node : InternalSpan N → GraphNodeData → GraphNode N
  unfolding is_error
  create_graph_node internal_span node_data = record {
    id = node_data.name & node_data.type;
    service_name = node_data.name;
    system_type = node_data.type;
    image = node_data.image;
    has_error = is_error internal_span;
    spans = internal_span ∷ [];
  }

  unfoldable pub update_graph_node : GraphNode N → InternalSpan N → GraphNode N
  unfolding is_error
  update_graph_node g internal_span = record g {
    spans = g.spans ++ internal_span ∷ [];
    has_error = g.has_error || is_error internal_span;
  }

  unfoldable pub add_span : Map (GraphNode N) → InternalSpan N → Option (Map (GraphNode N))
  unfolding get_graph_node_data create_graph_node update_graph_node map_get map_set
  add_span graph_node_map s = get_graph_node_data s >>= λ node_data. some (
      map_set node_data.id
        (elim (map_get node_data.id graph_node_map) [
          | some graph_node ↦ update_graph_node graph_node s
          | none ↦ create_graph_node s node_data
        ])
        graph_node_map)

  unfoldable pub add_spans : Map (GraphNode N) → List (InternalSpan N) → Option (Map (GraphNode N))
  unfolding add_span
  add_spans graph_node_map [] = some graph_node_map
  add_spans graph_node_map (s ∷ spans) = add_span graph_node_map s >>= λ m. add_spans m spans

  unfoldable pub span_to_graph_nodes : List (InternalSpan N) → Option (List (GraphNode N))
  unfolding add_spans
  span_to_graph_nodes spans = add_spans [] spans >>= λ m. some (values m)

module _ {N : Type 0} where
  unfoldable pub create_node : GraphNode N → Node N
  create_node g = record {
    id = g.id;
    type = basic_node_type;
    content = record {
      id = g.id;
      name = g.service_name;
      type = g.system_type;
      image = g.image;
      color = if g.has_error then NodeColor.error else NodeColor.normal;
      graph_node = g;
    };
    position = none;
    selected = false;
  }

  -- `spanServiceMap`: the node of each span's id, the last one for an id that stands twice.
  unfoldable pub register_spans :
      GraphNode N → List (InternalSpan N) → Map (GraphNode N) → Map (GraphNode N)
  unfolding map_set
  register_spans g [] m = m
  register_spans g (s ∷ spans) m = register_spans g spans (map_set s.span.span_id g m)

  unfoldable pub span_service_map : List (GraphNode N) → Map (GraphNode N) → Map (GraphNode N)
  unfolding register_spans
  span_service_map [] m = m
  span_service_map (g ∷ gs) m = span_service_map gs (register_spans g g.spans m)

  -- One round of the inner loop: the edge from the node of the span's parent to the span's node.
  unfoldable pub connect_span :
      Map (GraphNode N) → GraphNode N → InternalSpan N → Map Edge → Map Edge
  unfolding create_edge update_edge map_get map_set
  connect_span services g s edges_map = elim (map_get (get_or s.span.parent_span_id "") services) [
    | none ↦ edges_map
    | some p ↦
        let edge_id = g.id & "->" & p.id in
        (if not (str_eq g.id p.id)
          then map_set edge_id
              (elim (map_get edge_id edges_map) [
                | some e ↦ update_edge e
                | none ↦ create_edge g.id p.id g.has_error
              ])
              edges_map
          else edges_map)
  ]

  unfoldable pub connect_spans :
      Map (GraphNode N) → GraphNode N → List (InternalSpan N) → Map Edge → Map Edge
  unfolding connect_span
  connect_spans services g [] edges_map = edges_map
  connect_spans services g (s ∷ spans) edges_map =
      connect_spans services g spans (connect_span services g s edges_map)

  unfoldable pub connect_nodes : Map (GraphNode N) → List (GraphNode N) → Map Edge → Map Edge
  unfolding connect_spans
  connect_nodes services [] edges_map = edges_map
  connect_nodes services (g ∷ gs) edges_map =
      connect_nodes services gs (connect_spans services g g.spans edges_map)

  unfoldable pub graph_nodes_to_graph_tree : List (GraphNode N) → List (Node N) × List Edge
  unfolding create_node span_service_map connect_nodes
  graph_nodes_to_graph_tree graph_nodes = (
    map create_node graph_nodes,
    values (connect_nodes (span_service_map graph_nodes []) graph_nodes []),
  )

module _ {N : Type 0} (js : Numbers N) where
  unfoldable pub spans_to_graph_data : List (InternalSpan N) → Option (List (Node N) × List Edge)
  unfolding span_to_graph_nodes graph_nodes_to_graph_tree
  spans_to_graph_data spans =
      span_to_graph_nodes js spans >>= λ gs. some (graph_nodes_to_graph_tree gs)
