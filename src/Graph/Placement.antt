-- ===== src/Graph/Placement.antt =====
-- `createGraphLayout` of utils/layout.ts: the nodes get their places from elkjs, a parameter.
use teletrace.Base.{
  ℕ, ◌≡◌, refl, ap₂, Option, none, some, List, [], ◌∷◌, map, String, str_eq, if◌then◌else◌, find,
  Option-cases, inl, inr,
}
use teletrace.Numbers.{Numbers}
use teletrace.Graph.Types.{Node, Edge, default_node_width, default_node_height}

pub record ElkNode : Type 0 where
  pub id : String
  pub width : ℕ
  pub height : ℕ

pub record ElkEdge : Type 0 where
  pub id : String
  pub targets : List String
  pub sources : List String

pub record ElkGraph : Type 0 where
  pub id : String
  pub layout_options : List (String × String)
  pub children : List ElkNode
  pub edges : List ElkEdge

-- A child of the graph that elkjs returns.
pub record Placed (N : Type 0) : Type 0 where
  pub id : String
  pub x : Option N
  pub y : Option N
  pub width : Option N
  pub height : Option N

-- `elk.layout(graph)` where it does not reject; none where the result has no children.
abbrev pub Elk : Type 0 → Type 0
Elk N = ElkGraph → Option (List (Placed N))

module _ {N : Type 0} (js : Numbers N) (elk : Elk N) where
  unfoldable pub elk_graph : List (Node N) → List Edge → ElkGraph
  elk_graph nodes edges = record {
    id = "root";
    layout_options =
        ("elk.algorithm", "layered")
        ∷ ("elk.direction", "DOWN")
        ∷ ("considerModelOrder.strategy", "NODES_AND_EDGES")
        ∷ ("nodePlacement.strategy", "LINEAR_SEGMENTS")
        ∷ [];
    children =
        map (λ n. record { id = n.id; width = default_node_width; height = default_node_height })
          nodes;
    edges = map (λ e. record { id = e.id; targets = e.target ∷ []; sources = e.source ∷ [] }) edges;
  }

  -- The value of a field, if it is there and truthy.
  abbrev truthy : Option N → Option N
  truthy none = none
  truthy (some n) = if js.is_truthy n then some n else none

  -- The centre of a placed child, if `node?.x && node?.y && node?.width && node?.height`.
  unfoldable pub centre : Placed N → Option (N × N)
  centre p = elim (truthy p.x) [
    | none ↦ none
    | some x ↦ elim (truthy p.y) [
      | none ↦ none
      | some y ↦ elim (truthy p.width) [
        | none ↦ none
        | some width ↦ elim (truthy p.height) [
          | none ↦ none
          | some height ↦ some (js.minus x (js.half width), js.minus y (js.half height))
        ]
      ]
    ]
  ]

  unfoldable pub place_node : List (Placed N) → Node N → Node N
  unfolding centre
  place_node children el = elim (find (λ n. str_eq n.id el.id) children) [
    | none ↦ el
    | some node ↦ elim (centre node) [ none ↦ el | some c ↦ record el { position = some c } ]
  ]

  unfoldable pub create_graph_layout : List (Node N) → List Edge → List (Node N) × List Edge
  unfolding elk_graph place_node
  create_graph_layout nodes edges = elim (elk (elk_graph nodes edges)) [
    | none ↦ (nodes, edges)
    | some children ↦ (map (place_node children) nodes, edges)
  ]

  abbrev pub unplaced : Node N → Node N
  unplaced n = record n { position = none }

  place_node-unplaced :
      (children : List (Placed N)) (n : Node N) → unplaced (place_node children n) ≡ unplaced n
  unfolding place_node
  place_node-unplaced children n = elim (Option-cases (find (λ m. str_eq m.id n.id) children)) [
    | inl e ↦ rw (e, place_node)
    | inr (m, e) ↦ elim (Option-cases (centre m)) [
      | inl f ↦ rw (e, place_node, f)
      | inr (c, f) ↦ rw (e, place_node, f)
    ]
  ]

  -- Whatever places elkjs gives, the layout changes nothing of the graph but the positions of its
  -- nodes: no node is lost, added, reordered, renamed or restyled, and the edges are the same.
  create_graph_layout-unplaced :
      (nodes : List (Node N)) (edges : List Edge)
      → (map unplaced (create_graph_layout nodes edges).0 ≡ map unplaced nodes)
        × ((create_graph_layout nodes edges).1 ≡ edges)
  unfolding create_graph_layout
  create_graph_layout-unplaced nodes edges = elim (Option-cases (elk (elk_graph nodes edges))) [
    | inl e ↦ rw (e, create_graph_layout) (refl, refl)
    | inr (children, e) ↦ rw (e, create_graph_layout) (each children nodes, refl)
  ]
    where
      each :
          (children : List (Placed N)) (ns : List (Node N))
          → map unplaced (map (place_node children) ns) ≡ map unplaced ns
      each children [] = refl
      each children (n ∷ ns) = ap₂ (◌∷◌) (place_node-unplaced children n) (each children ns)
