-- ===== src/Graph/Nodes.antt =====
-- The nodes of a trace's graph: the spans in them, and what each node says of its spans.
use mathlib.Core.List.Perm
use mathlib.Core.List.{Perm, append_assoc, append-nil, perm_middle}
use teletrace.Base.{
  ◌≡◌, ◌≢◌, ◌↔◌, refl, ap, ◌∙◌, subst, inl, inr, Bool, true, ◌||◌, Option, none, some, List, [],
  ◌∷◌, ◌++◌, String, ◌&◌, arith, All, All-append, any, is_some, Map, map_get, map_set, values,
  HasDistinctKeys, map_set-HasDistinctKeys, map_set-All, map_get-All, ◌>>=◌, some_inj, >>=-eq-some,
  Bool-cases, Option-cases, eq_iff, str_eq,
}
use teletrace.Numbers.{Numbers}
use teletrace.Trace.Span.{InternalSpan, is_error}
use teletrace.Trace.Attributes.{lookup, spread}
use teletrace.Graph.Types.{GraphNodeData, GraphNode}
use teletrace.Graph.Layout.{
  get_graph_node_data, create_graph_node, update_graph_node, add_span, add_spans,
  span_to_graph_nodes,
}

module _ {N : Type 0} where
  -- The spans of the nodes, one node after the other.
  abbrev pub all_spans : List (GraphNode N) → List (InternalSpan N)
  all_spans [] = []
  all_spans (g ∷ gs) = g.spans ++ all_spans gs

  -- The key under which `spanToGraphNodes` collects the spans of a node.
  abbrev pub node_key : GraphNode N → String
  node_key g = g.service_name & "-" & g.system_type

  -- No two nodes have the same key.
  abbrev pub HasDistinctNodes : List (GraphNode N) → Type 0
  HasDistinctNodes [] = Unit
  HasDistinctNodes (g ∷ gs) = All (λ h. node_key h ≢ node_key g) gs × HasDistinctNodes gs

  any-append :
      (p : InternalSpan N → Bool) (xs : List (InternalSpan N)) (s : InternalSpan N)
      → any p (xs ++ s ∷ []) ≡ (any p xs || p s)
  any-append p [] s = ground arith
  any-append p (x ∷ xs) s = ground (arith, any-append p xs s)

module _ {N : Type 0} (js : Numbers N) where
  -- The key of a span, if it has a service name.
  abbrev pub span_key : InternalSpan N → Option String
  span_key s = get_graph_node_data js s >>= λ d. some d.id

  -- What a node says of its spans.
  pub record IsNode (g : GraphNode N) : Type 0 where
    pub keyed : All (λ s. span_key s ≡ some (node_key g)) g.spans
    pub has_error : g.has_error ≡ any is_error g.spans
    pub id : g.id ≡ g.service_name & g.system_type
    pub nonempty : g.spans ≢ []

  abbrev IsEntry : String × GraphNode N → Type 0
  IsEntry e = (e.0 ≡ node_key e.1) × IsNode e.1

  node_data-id :
      (s : InternalSpan N) (d : GraphNodeData)
      → get_graph_node_data js s ≡ some d
      → d.id ≡ d.name & "-" & d.type
  unfolding get_graph_node_data
  node_data-id s d h =
      let (v, _, e) =
        >>=-eq-some (lookup "service.name" (spread s.resource.attributes s.span.attributes)) _ h in
      subst (λ (x : GraphNodeData). x.id ≡ x.name & "-" & x.type) (some_inj e) refl

  create-IsEntry :
      (s : InternalSpan N) (d : GraphNodeData)
      → get_graph_node_data js s ≡ some d
      → IsEntry (d.id, create_graph_node js s d)
  unfolding create_graph_node
  create-IsEntry s d h =
      let k = node_data-id s d h in
      (
        k,
        record {
          keyed = (rw h (ap some k), tt);
          has_error = ground arith;
          id = refl;
          nonempty = cc;
        },
      )

  update-IsEntry :
      (s : InternalSpan N) (d : GraphNodeData) (g : GraphNode N)
      → get_graph_node_data js s ≡ some d
      → IsEntry (d.id, g)
      → IsEntry (d.id, update_graph_node js g s)
  unfolding update_graph_node
  update-IsEntry s d g h (k, n) = (
    k,
    record {
      keyed =
          All-append (λ t. span_key t ≡ some (node_key g)) g.spans (s ∷ []) n.keyed
            (rw h (ap some k), tt);
      has_error = rw (any-append, n.has_error);
      id = n.id;
      nonempty = ground arith;
    },
  )

  -- What `spanToGraphNodes` stores for a span under its key.
  abbrev collected : Map (GraphNode N) → InternalSpan N → GraphNodeData → GraphNode N
  collected m s d = elim (map_get d.id m) [
    | some g ↦ update_graph_node js g s
    | none ↦ create_graph_node js s d
  ]

  add_span-eq-some :
      (m m' : Map (GraphNode N)) (s : InternalSpan N)
      → add_span js m s ≡ some m'
      → (d : GraphNodeData) × (get_graph_node_data js s ≡ some d)
        × (map_set d.id (collected m s d) m ≡ m')
  unfolding add_span
  add_span-eq-some m m' s h =
      let (d, e, rest) = >>=-eq-some (get_graph_node_data js s) _ h in (d, e, some_inj rest)

  collected-IsEntry :
      (m : Map (GraphNode N)) (s : InternalSpan N) (d : GraphNodeData)
      → get_graph_node_data js s ≡ some d
      → All IsEntry m
      → IsEntry (d.id, collected m s d)
  collected-IsEntry m s d h a = elim (Option-cases (map_get d.id m)) [
    | inl e ↦ rw (e, collected) (create-IsEntry s d h)
    | inr (g, e) ↦ rw (e, collected) (update-IsEntry s d g h (map_get-All IsEntry d.id g m a e))
  ]

  spans-create :
      (m : Map (GraphNode N)) (s : InternalSpan N) (d : GraphNodeData)
      → map_get d.id m ≡ none
      → Perm
          (all_spans (values (map_set d.id (create_graph_node js s d) m)))
          (s ∷ all_spans (values m))
  unfolding map_get map_set create_graph_node
  spans-create [] s d h = Perm.refl _
  spans-create ((k, g) ∷ m) s d h = elim (Bool-cases (str_eq k d.id)) [
    | inl e ↦ cc (rw e at h)
    | inr e ↦
        rw e
          (Perm.trans (Perm.append_left g.spans (spans-create m s d (rw e at h))) (perm_middle _ _))
  ]

  spans-update :
      (m : Map (GraphNode N)) (s : InternalSpan N) (key : String) (g : GraphNode N)
      → map_get key m ≡ some g
      → Perm
          (all_spans (values (map_set key (update_graph_node js g s) m)))
          (s ∷ all_spans (values m))
  unfolding map_get map_set update_graph_node
  spans-update [] s key g h = cc
  spans-update ((k, f) ∷ m) s key g h = elim (Bool-cases (str_eq k key)) [
    | inl e ↦ rw (e, ← some_inj (rw e at h), append_assoc) (perm_middle _ _)
    | inr e ↦ rw e (
        Perm.trans (Perm.append_left f.spans (spans-update m s key g (rw e at h)))
          (perm_middle _ _))
  ]

  spans-collected :
      (m : Map (GraphNode N)) (s : InternalSpan N) (d : GraphNodeData)
      → Perm (all_spans (values (map_set d.id (collected m s d) m))) (s ∷ all_spans (values m))
  spans-collected m s d = elim (Option-cases (map_get d.id m)) [
    | inl e ↦ rw (e, collected) (spans-create m s d e)
    | inr (g, e) ↦ rw (e, collected) (spans-update m s d.id g e)
  ]

  -- The invariant of the loop over the spans.
  record IsCollected (m : Map (GraphNode N)) (seen : List (InternalSpan N)) : Type 0 where
    entries : All IsEntry m
    distinct : HasDistinctKeys m
    spans : Perm (all_spans (values m)) seen

  add_spans-IsCollected :
      (m m' : Map (GraphNode N)) (seen spans : List (InternalSpan N))
      → IsCollected m seen
      → add_spans js m spans ≡ some m'
      → IsCollected m' (seen ++ spans)
  unfolding add_spans
  add_spans-IsCollected m m' seen [] c h = rw (append-nil, ← some_inj h) c
  add_spans-IsCollected m m' seen (s ∷ spans) c h =
      let (n, added, rest) = >>=-eq-some (add_span js m s) _ h in
      let (d, e, same) = add_span-eq-some m n s added in
      let c' : IsCollected n (s ∷ seen) =
        subst (λ x. IsCollected x (s ∷ seen)) same
          (record {
            entries = map_set-All IsEntry d.id _ m c.entries (collected-IsEntry m s d e c.entries);
            distinct = map_set-HasDistinctKeys d.id _ m c.distinct;
            spans = Perm.trans (spans-collected m s d) (Perm.cons s c.spans);
          }) in
      let r = add_spans-IsCollected n m' (s ∷ seen) spans c' rest in
      record {
        entries = r.entries;
        distinct = r.distinct;
        spans = Perm.trans r.spans (Perm.symm (perm_middle seen spans));
      }

  absent-key :
      (key : String) (m : Map (GraphNode N))
      → map_get key m ≡ none
      → All IsEntry m
      → All (λ g. node_key g ≢ key) (values m)
  unfolding map_get
  absent-key key [] h a = tt
  absent-key key ((k, g) ∷ m) h a = elim (Bool-cases (str_eq k key)) [
    | inl e ↦ cc (rw e at h)
    | inr e ↦ (λ same. cc (e, (eq_iff k key).1 (a.0.0 ∙ same)), absent-key key m (rw e at h) a.1)
  ]

  distinct-nodes :
      (m : Map (GraphNode N)) → HasDistinctKeys m → All IsEntry m → HasDistinctNodes (values m)
  distinct-nodes [] d a = tt
  distinct-nodes ((k, g) ∷ m) d a = (
    subst (λ (x : String). All (λ h. node_key h ≢ x) (values m)) a.0.0 (absent-key k m d.0 a.1),
    distinct-nodes m d.1 a.1,
  )

  entries-nodes : (m : Map (GraphNode N)) → All IsEntry m → All IsNode (values m)
  entries-nodes [] a = tt
  entries-nodes ((k, g) ∷ m) a = (a.0.1, entries-nodes m a.1)

  -- If the nodes of a trace's graph can be computed, every span of the trace stands in exactly one
  -- place of one node (the nodes' spans are a permutation of the trace); no two nodes have the same
  -- key, which is the name and the type joined by a dash; and each node holds only spans whose name
  -- and type give its key (they may be another name and type, if a dash stands in them), at least
  -- one, has an error exactly if one of them has, and takes its id from its name and type.
  pub span_to_graph_nodes_partition :
      (spans : List (InternalSpan N)) (gs : List (GraphNode N))
      → span_to_graph_nodes js spans ≡ some gs
      → Perm (all_spans gs) spans × HasDistinctNodes gs × All IsNode gs
  unfolding span_to_graph_nodes
  span_to_graph_nodes_partition spans gs h =
      let (m, added, e) = >>=-eq-some (add_spans js [] spans) _ h in
      let c =
        add_spans-IsCollected [] m [] spans
          (record { entries = tt; distinct = tt; spans = Perm.refl [] }) added in
      subst
        (λ (x : List (GraphNode N)). Perm (all_spans x) spans × HasDistinctNodes x × All IsNode x)
        (some_inj e) (c.spans, distinct-nodes m c.distinct c.entries, entries-nodes m c.entries)

  -- A span has a service name among its own attributes or its resource's.
  abbrev pub has_service_name : InternalSpan N → Bool
  has_service_name s =
      is_some (lookup "service.name" (spread s.resource.attributes s.span.attributes))

  add_span-is_some :
      (m : Map (GraphNode N)) (s : InternalSpan N) → is_some (add_span js m s) ≡ has_service_name s
  unfolding add_span get_graph_node_data
  add_span-is_some m s =
      elim (Option-cases (lookup "service.name" (spread s.resource.attributes s.span.attributes))) [
        | inl e ↦ rw e
        | inr (_, e) ↦ rw e
      ]

  add_spans-is_some :
      (m : Map (GraphNode N)) (spans : List (InternalSpan N))
      → (is_some (add_spans js m spans) ≡ true) ↔ All (λ s. has_service_name s ≡ true) spans
  unfolding add_spans
  add_spans-is_some m [] = ((λ h. tt), (λ h. refl))
  add_spans-is_some m (s ∷ spans) = elim (Option-cases (add_span js m s)) [
    | inl e ↦ ground (arith, add_span-is_some m s)
    | inr (n, e) ↦ ground (arith, add_span-is_some m s, add_spans-is_some n spans)
  ]

  -- The nodes of a trace's graph can be computed exactly if every span has a service name; one
  -- span without it makes the whole computation throw.
  pub span_to_graph_nodes_total :
      (spans : List (InternalSpan N))
      → (is_some (span_to_graph_nodes js spans) ≡ true) ↔ All (λ s. has_service_name s ≡ true) spans
  unfolding span_to_graph_nodes
  span_to_graph_nodes_total spans = ground (arith, add_spans-is_some [] spans)
