-- ===== src/Graph/Edges.antt =====
-- The edges of a trace's graph: which there are, what they join, and what they count.
pub mod Tree
use teletrace.Base.{
  ℕ, ◌+◌, ◌≤◌, ◌≡◌, ◌≢◌, ◌↔◌, refl, sym, ap, ◌∙◌, subst, inl, inr, Bool, true, false, not, ◌&&◌,
  Option, none, some, List, [], ◌∷◌, ◌++◌, map, String, ◌&◌, if◌then◌else◌, arith, All,
  All-map_pred, any, Map, map_get, map_set, map_get-set, values, HasDistinctKeys,
  map_set-HasDistinctKeys, map_set-All, map_get-All, Bool-cases, Option-cases, eq_iff, str_eq,
  get_or,
}
use text.Mathlib.TextPositions.{eq_refl}
use teletrace.Trace.Span.{InternalSpan}
use teletrace.Graph.Types.{EdgeData, GraphNode, Edge}
use teletrace.Graph.Layout.{
  create_edge, update_edge, register_spans, span_service_map, connect_span, connect_spans,
  connect_nodes, graph_nodes_to_graph_tree,
}

unfoldable pub weight : Edge → ℕ
weight e = elim e.content [ none ↦ 0 | some c ↦ c.count ]

abbrev same_bool : Bool → Bool → Bool
same_bool true b = b
same_bool false b = not b

-- The counts of the edges with an id.
abbrev pub weight_of : String → List Edge → ℕ
weight_of id [] = 0
weight_of id (e ∷ es) = (if str_eq e.id id then weight e else 0) + weight_of id es

module _ {N : Type 0} where
  -- A node with the id and the error flag is among the nodes.
  abbrev pub is_node : List (GraphNode N) → String → Bool → Bool
  is_node gs id has_error = any (λ h. str_eq h.id id && same_bool h.has_error has_error) gs

  -- A node with the id is among the nodes.
  abbrev pub is_node_id : List (GraphNode N) → String → Bool
  is_node_id gs id = any (λ h. str_eq h.id id) gs

  abbrev pub holds : String → List (InternalSpan N) → Bool
  holds span_id spans = any (λ s. str_eq s.span.span_id span_id) spans

  -- The node that holds a span with the id, the last of them if there are more.
  unfoldable pub holder : List (GraphNode N) → String → Option (GraphNode N)
  holder [] span_id = none
  holder (g ∷ gs) span_id = elim (holder gs span_id) [
    | some h ↦ some h
    | none ↦ (if holds span_id g.spans then some g else none)
  ]

  -- 1 if the span's parent stands in a node with another id, and the edge between the two nodes
  -- has the given id. `node_of` gives the node of a span's id.
  unfoldable pub crossing :
      (node_of : String → Option (GraphNode N)) → String → GraphNode N → InternalSpan N → ℕ
  crossing node_of id g s = elim (node_of (get_or s.span.parent_span_id "")) [
    | none ↦ 0
    | some p ↦ (if not (str_eq g.id p.id) && str_eq (g.id & "->" & p.id) id then 1 else 0)
  ]

  unfoldable pub crossings_in :
      (node_of : String → Option (GraphNode N)) → String → GraphNode N → List (InternalSpan N) → ℕ
  crossings_in node_of id g [] = 0
  crossings_in node_of id g (s ∷ spans) = crossing node_of id g s + crossings_in node_of id g spans

  unfoldable pub crossings :
      (node_of : String → Option (GraphNode N)) → String → List (GraphNode N) → ℕ
  crossings node_of id [] = 0
  crossings node_of id (g ∷ gs) = crossings_in node_of id g g.spans + crossings node_of id gs

-- What an edge of the graph of some nodes is.
pub record IsEdge {N : Type 0} (gs : List (GraphNode N)) (e : Edge) : Type 0 where
  pub id : e.id ≡ e.target & "->" & e.source
  pub no_loop : e.target ≢ e.source
  pub source : is_node_id gs e.source ≡ true
  pub content : EdgeData
  pub has_content : e.content ≡ some content
  pub target : is_node gs e.target content.has_error ≡ true
  pub counted : 1 ≤ content.count

module _ {N : Type 0} (gs : List (GraphNode N)) where
  abbrev IsEntry : String × Edge → Type 0
  IsEntry x = (x.0 ≡ x.1.id) × IsEdge gs x.1

  create-IsEdge :
      (g p : GraphNode N)
      → is_node gs g.id g.has_error ≡ true
      → is_node_id gs p.id ≡ true
      → str_eq g.id p.id ≡ false
      → IsEntry (g.id & "->" & p.id, create_edge g.id p.id g.has_error)
  unfolding create_edge
  create-IsEdge g p t s d = (
    refl,
    record {
      id = refl;
      no_loop = λ same. cc (d, (eq_iff g.id p.id).1 same);
      source = s;
      content = record { count = 1; has_error = g.has_error };
      has_content = refl;
      target = t;
      counted = omega arith;
    },
  )

  update-IsEdge : (key : String) (e : Edge) → IsEntry (key, e) → IsEntry (key, update_edge e)
  unfolding update_edge
  update-IsEdge key e (k, h) =
      rw (h.has_content, update_edge)
        (
          k,
          record {
            id = h.id;
            no_loop = h.no_loop;
            source = h.source;
            content = record { count = h.content.count + 1; has_error = h.content.has_error };
            has_content = refl;
            target = h.target;
            counted = omega arith;
          },
        )

  weight_at : String → Map Edge → ℕ
  weight_at key m = elim (map_get key m) [ none ↦ 0 | some e ↦ weight e ]

  weight-create :
      (node_id parent_name : String) (b : Bool) → weight (create_edge node_id parent_name b) ≡ 1
  unfolding weight create_edge
  weight-create node_id parent_name b = refl

  weight-update : (e : Edge) → IsEdge gs e → weight (update_edge e) ≡ weight e + 1
  unfolding weight update_edge
  weight-update e h = rw h.has_content

  -- What one crossing span adds, by the map's entry of its edge.
  abbrev drawn : GraphNode N → GraphNode N → Map Edge → Edge
  drawn g p m = elim (map_get (g.id & "->" & p.id) m) [
    | some e ↦ update_edge e
    | none ↦ create_edge g.id p.id g.has_error
  ]

  weight-drawn :
      (g p : GraphNode N) (m : Map Edge)
      → All IsEntry m
      → weight (drawn g p m) ≡ weight_at (g.id & "->" & p.id) m + 1
  unfolding weight_at
  weight-drawn g p m a = elim (Option-cases (map_get (g.id & "->" & p.id) m)) [
    | inl e ↦ rw (e, drawn, weight_at) (weight-create g.id p.id g.has_error)
    | inr (x, e) ↦ rw (e, drawn, weight_at) (weight-update x (map_get-All IsEntry _ x m a e).1)
  ]

  drawn-IsEntry :
      (g p : GraphNode N) (m : Map Edge)
      → is_node gs g.id g.has_error ≡ true
      → is_node_id gs p.id ≡ true
      → str_eq g.id p.id ≡ false
      → All IsEntry m
      → IsEntry (g.id & "->" & p.id, drawn g p m)
  drawn-IsEntry g p m t s d a = elim (Option-cases (map_get (g.id & "->" & p.id) m)) [
    | inl e ↦ rw (e, drawn) (create-IsEdge g p t s d)
    | inr (x, e) ↦ rw (e, drawn) (update-IsEdge _ x (map_get-All IsEntry _ x m a e))
  ]

  weight_at-set :
      (k key : String) (e : Edge) (m : Map Edge)
      → weight_at k (map_set key e m) ≡ (if str_eq key k then weight e else weight_at k m)
  unfolding weight_at
  weight_at-set k key e m = ground (arith, map_get-set k key e m)

  -- The invariant of the loops over the nodes and their spans.
  record IsDrawn (m : Map Edge) : Type 0 where
    entries : All IsEntry m
    distinct : HasDistinctKeys m

  module _ (services : Map (GraphNode N))
      (known : All (λ x. is_node_id gs x.1.id ≡ true) services) where
    connect_span-IsDrawn :
        (g : GraphNode N) (s : InternalSpan N) (m : Map Edge)
        → is_node gs g.id g.has_error ≡ true
        → IsDrawn m
        → IsDrawn (connect_span services g s m)
    unfolding connect_span
    connect_span-IsDrawn g s m t d =
        elim (Option-cases (map_get (get_or s.span.parent_span_id "") services)) [
          | inl e ↦ rw (e, connect_span) d
          | inr (p, e) ↦ elim (Bool-cases (str_eq g.id p.id)) [
            | inl q ↦ rw (e, connect_span, q) d
            | inr q ↦
                rw (e, connect_span, q)
                  (record {
                    entries = map_set-All IsEntry _ _ m d.entries (
                        drawn-IsEntry g p m t
                          (map_get-All (λ x. is_node_id gs x.1.id ≡ true) _ p services known e) q
                          d.entries);
                    distinct = map_set-HasDistinctKeys _ _ m d.distinct;
                  })
          ]
        ]

    weight_at-connect_span :
        (k : String) (g : GraphNode N) (s : InternalSpan N) (m : Map Edge)
        → IsDrawn m
        → weight_at k (connect_span services g s m)
          ≡ weight_at k m + crossing (λ j. map_get j services) k g s
    unfolding connect_span crossing
    weight_at-connect_span k g s m d =
        elim (Option-cases (map_get (get_or s.span.parent_span_id "") services)) [
          | inl e ↦ rw (e, connect_span, crossing) (omega arith)
          | inr (p, e) ↦ elim (Bool-cases (str_eq g.id p.id)) [
            | inl q ↦ rw (e, connect_span, crossing, q) (omega arith)
            | inr q ↦
                rw (e, connect_span, crossing, q)
                  (ground (
                    arith,
                    weight_at-set k (g.id & "->" & p.id) (drawn g p m) m,
                    weight-drawn g p m d.entries,
                    eq_iff (g.id & "->" & p.id) k,
                  ))
          ]
        ]
