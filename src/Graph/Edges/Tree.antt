-- ===== src/Graph/Edges/Tree.antt =====
-- The loops of `graphNodesToGraphTree`, over all nodes and spans.
use teletrace.Base.{
  ◌+◌, ◌≡◌, ◌≢◌, refl, ap, ◌∙◌, subst, fun_ext, map_set, Option-cases, if◌then◌else◌, some,
  map_get-set, inl, inr, Bool, true, false, ◌||◌, none, List, [], ◌∷◌, String, arith, All,
  All-map_pred, Map, map_get, map_set-All, values, Bool-cases, eq_iff, str_eq,
}
use teletrace.Trace.Span.{InternalSpan}
use teletrace.Graph.Types.{GraphNode, Edge}
use teletrace.Graph.Layout.{
  register_spans, span_service_map, connect_span, connect_spans, connect_nodes,
  graph_nodes_to_graph_tree,
}
use teletrace.Graph.Edges.{
  weight_of, same_bool, is_node, is_node_id, holds, holder, crossings_in, crossings, IsEdge,
  IsEntry, weight_at, IsDrawn, connect_span-IsDrawn, weight_at-connect_span,
}

or_true : (b : Bool) → (b || true) ≡ true
or_true b = ground arith

same_bool_self : (b : Bool) → same_bool b b ≡ true
same_bool_self true = refl
same_bool_self false = refl

-- No two edges have the same id.
abbrev pub HasDistinctIds : List Edge → Type 0
HasDistinctIds [] = Unit
HasDistinctIds (e ∷ es) = All (λ f. f.id ≢ e.id) es × HasDistinctIds es

module _ {N : Type 0} (gs : List (GraphNode N)) where
  module _ (services : Map (GraphNode N))
      (known : All (λ x. is_node_id gs x.1.id ≡ true) services) where
    connect_spans_lem :
        (g : GraphNode N) (spans : List (InternalSpan N)) (m : Map Edge)
        → is_node gs g.id g.has_error ≡ true
        → IsDrawn gs m
        → IsDrawn gs (connect_spans services g spans m)
          × ((k : String)
              → weight_at gs k (connect_spans services g spans m)
                ≡ weight_at gs k m + crossings_in (λ j. map_get j services) k g spans)
    unfolding connect_spans crossings_in
    connect_spans_lem g [] m t d = (d, λ k. omega arith)
    connect_spans_lem g (s ∷ spans) m t d =
        let (d', w) =
          connect_spans_lem g spans (connect_span services g s m) t
            (connect_span-IsDrawn gs services known g s m t d) in
        (d', λ k. omega (arith, w k, weight_at-connect_span gs services known k g s m d))

    connect_nodes_lem :
        (hs : List (GraphNode N)) (m : Map Edge)
        → All (λ g. is_node gs g.id g.has_error ≡ true) hs
        → IsDrawn gs m
        → IsDrawn gs (connect_nodes services hs m)
          × ((k : String)
              → weight_at gs k (connect_nodes services hs m)
                ≡ weight_at gs k m + crossings (λ j. map_get j services) k hs)
    unfolding connect_nodes crossings
    connect_nodes_lem [] m t d = (d, λ k. omega arith)
    connect_nodes_lem (g ∷ hs) m t d =
        let (d', w) = connect_spans_lem g g.spans m t.0 d in
        let (d'', w') = connect_nodes_lem hs (connect_spans services g g.spans m) t.1 d' in
        (d'', λ k. omega (arith, w k, w' k))

  weight_of-absent :
      (k : String) (m : Map Edge)
      → map_get k m ≡ none
      → All (IsEntry gs) m
      → weight_of k (values m) ≡ 0
  unfolding map_get
  weight_of-absent k [] h a = refl
  weight_of-absent k ((j, e) ∷ m) h a =
      ground (arith, a.0.0, weight_of-absent k m, eq_iff j k, eq_iff e.id k)

  weight_of-values :
      (k : String) (m : Map Edge) → IsDrawn gs m → weight_of k (values m) ≡ weight_at gs k m
  unfolding weight_at map_get
  weight_of-values k [] d = refl
  weight_of-values k ((j, e) ∷ m) d =
      let rest : IsDrawn gs m = record { entries = d.entries.1; distinct = d.distinct.1 } in
      ground (
        arith,
        d.entries.0.0,
        weight_of-absent k m,
        weight_of-values k m rest,
        eq_iff j k,
        eq_iff e.id k,
      )

  absent-ids :
      (k : String) (m : Map Edge)
      → map_get k m ≡ none
      → All (IsEntry gs) m
      → All (λ f. f.id ≢ k) (values m)
  unfolding map_get
  absent-ids k [] h a = tt
  absent-ids k ((j, e) ∷ m) h a = elim (Bool-cases (str_eq j k)) [
    | inl q ↦ cc (rw q at h)
    | inr q ↦ (λ same. cc (q, (eq_iff j k).1 (a.0.0 ∙ same)), absent-ids k m (rw q at h) a.1)
  ]

  distinct-ids : (m : Map Edge) → IsDrawn gs m → HasDistinctIds (values m)
  distinct-ids [] d = tt
  distinct-ids ((j, e) ∷ m) d = (
    absent-ids e.id m (subst (λ (x : String). map_get x m ≡ none) d.entries.0.0 d.distinct.0)
        d.entries.1,
    distinct-ids m (record { entries = d.entries.1; distinct = d.distinct.1 }),
  )

  edges-all : (m : Map Edge) → All (IsEntry gs) m → All (IsEdge gs) (values m)
  edges-all [] a = tt
  edges-all ((j, e) ∷ m) a = (a.0.1, edges-all m a.1)

  register_spans-known :
      (g : GraphNode N) (spans : List (InternalSpan N)) (m : Map (GraphNode N))
      → is_node_id gs g.id ≡ true
      → All (λ x. is_node_id gs x.1.id ≡ true) m
      → All (λ x. is_node_id gs x.1.id ≡ true) (register_spans g spans m)
  unfolding register_spans
  register_spans-known g [] m h a = a
  register_spans-known g (s ∷ spans) m h a =
      register_spans-known g spans _ h
        (map_set-All (λ x. is_node_id gs x.1.id ≡ true) s.span.span_id g m a h)

  span_service_map-known :
      (hs : List (GraphNode N)) (m : Map (GraphNode N))
      → All (λ g. is_node_id gs g.id ≡ true) hs
      → All (λ x. is_node_id gs x.1.id ≡ true) m
      → All (λ x. is_node_id gs x.1.id ≡ true) (span_service_map hs m)
  unfolding span_service_map
  span_service_map-known [] m h a = a
  span_service_map-known (g ∷ hs) m h a =
      span_service_map-known hs _ h.1 (register_spans-known g g.spans m h.0 a)

module _ {N : Type 0} where
  own-nodes : (gs : List (GraphNode N)) → All (λ g. is_node gs g.id g.has_error ≡ true) gs
  own-nodes [] = tt
  own-nodes (g ∷ gs) = (
    ground (arith, eq_iff g.id g.id, same_bool_self g.has_error),
    All-map_pred _ _ (λ h (p : is_node gs h.id h.has_error ≡ true). rw p (or_true _)) gs
        (own-nodes gs),
  )

  own-ids : (gs : List (GraphNode N)) → All (λ g. is_node_id gs g.id ≡ true) gs
  own-ids [] = tt
  own-ids (g ∷ gs) = (
    ground (arith, eq_iff g.id g.id),
    All-map_pred _ _ (λ h (p : is_node_id gs h.id ≡ true). rw p (or_true _)) gs (own-ids gs),
  )

  IsDrawn-tree :
      (gs : List (GraphNode N))
      → IsDrawn gs (connect_nodes (span_service_map gs []) gs [])
        × ((k : String)
            → weight_at gs k (connect_nodes (span_service_map gs []) gs [])
              ≡ weight_at gs k [] + crossings (λ j. map_get j (span_service_map gs [])) k gs)
  IsDrawn-tree gs =
      connect_nodes_lem gs (span_service_map gs [])
        (span_service_map-known gs gs [] (own-ids gs) tt) gs [] (own-nodes gs)
        (record { entries = tt; distinct = tt })

  map_get-register_spans :
      (span_id : String) (g : GraphNode N) (spans : List (InternalSpan N)) (m : Map (GraphNode N))
      → map_get span_id (register_spans g spans m)
        ≡ (if holds span_id spans then some g else map_get span_id m)
  unfolding register_spans
  map_get-register_spans span_id g [] m = refl
  map_get-register_spans span_id g (s ∷ spans) m =
      map_get-register_spans span_id g spans (map_set s.span.span_id g m)
      ∙ rw (map_get-set span_id s.span.span_id g m) (ground arith)

  map_get-span_service_map :
      (span_id : String) (gs : List (GraphNode N)) (m : Map (GraphNode N))
      → map_get span_id (span_service_map gs m)
        ≡ elim (holder gs span_id) [ some h ↦ some h | none ↦ map_get span_id m ]
  unfolding span_service_map holder
  map_get-span_service_map span_id [] m = refl
  map_get-span_service_map span_id (g ∷ gs) m =
      map_get-span_service_map span_id gs (register_spans g g.spans m)
      ∙ elim (Option-cases (holder gs span_id)) [
        | inl e ↦ rw e (map_get-register_spans span_id g g.spans m ∙ (ground arith))
        | inr (h, e) ↦ rw e refl
      ]

  node_of_span : (gs : List (GraphNode N)) → (λ j. map_get j (span_service_map gs [])) ≡ holder gs
  unfolding map_get
  node_of_span gs = fun_ext (λ j. map_get-span_service_map j gs [] ∙ (ground arith))

  -- The edges of the graph of some nodes: each joins two of their ids that differ, has its own id
  -- from those two, carries the error flag of a node with its target's id, and a count of at least
  -- 1; no two edges have the same id; and for every id, the count of the edge with it, 0 if there is
  -- none, is the number of the spans whose parent stands in a node with another id such that the
  -- ids of the span's node and of the parent's node make up that id. The node where a parent stands
  -- is the last that holds a span with the parent's id.
  pub graph_edges-IsEdge :
      (gs : List (GraphNode N))
      → All (IsEdge gs) (graph_nodes_to_graph_tree gs).1
        × HasDistinctIds (graph_nodes_to_graph_tree gs).1
        × ((id : String)
            → weight_of id (graph_nodes_to_graph_tree gs).1 ≡ crossings (holder gs) id gs)
  unfolding graph_nodes_to_graph_tree weight_at map_get
  graph_edges-IsEdge gs =
      let (d, w) = IsDrawn-tree gs in
      (
        edges-all gs _ d.entries,
        distinct-ids gs _ d,
        λ id.
            (omega (arith, weight_of-values gs id _ d, w id))
            ∙ ap (λ node_of. crossings node_of id gs) (node_of_span gs),
      )
