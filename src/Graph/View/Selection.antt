-- ===== src/Graph/View/Selection.antt =====
-- Which node the canvas shows as selected, in every sequence of the user's events, and that
-- hovering over a node leaves no trace.
use teletrace.Base.{
  ◌≡◌, ◌≢◌, refl, sym, ap, ◌∙◌, subst, ◌⊎◌, inl, inr, Bool, true, false, ◌||◌, Option, none, some,
  List, [], ◌∷◌, map, String, str_eq, if◌then◌else◌, arith, All, All-map, All-map_pred, find,
  find-All, is_some, eq_iff, Bool-cases, Option-cases,
}
use teletrace.Graph.Types.{GraphNode, NodeColor, NodeData, Node, Edge}
use teletrace.Graph.Style.{
  apply_selected_node_style, apply_normal_node_style, apply_hovered_node_style,
  apply_normal_edge_style, apply_hover_edge_style,
}
use teletrace.Graph.Layout.{create_node}
use teletrace.Graph.View.{
  Reactflow, TraceState, show_layout, is_selected_node, handle_auto_selected_node_change,
  handle_graph_node_click, handle_node_drag_start, handle_node_drag_stop, on_pane_click,
  mark_selected_node, select_node_by_span_id, on_node_click, contains_span,
  apply_node_mouse_event_styles, handle_node_mouse_enter, handle_node_mouse_leave,
}

-- The events of the canvas; the node of an event is one that the canvas shows. reactflow applies its
-- own changes by `onNodesChange` and `onEdgesChange`: `nodes_change` and `edges_change` have what
-- they leave.
pub data Event (N : Type 0) : Type 0 where
  click : Node N → Event N
  enter : Node N → Event N
  leave : Node N → Event N
  drag_start : Node N → Event N
  drag_stop : Event N
  pane_click : Event N
  focus_span : Option String → Event N
  nodes_change : List (Node N) → Event N
  edges_change : List Edge → Event N

module _ {N : Type 0} where
  abbrev pub OwnsId : Node N → Type 0
  OwnsId n = n.content.graph_node.id ≡ n.id

  abbrev pub is_chosen : Option (GraphNode N) → Node N → Bool
  is_chosen none n = false
  is_chosen (some g) n = str_eq n.id g.id

  -- The colour of a chosen node, or the normal one or that of hovering, as its errors have it.
  abbrev pub IsColoured : Bool → NodeData N → Type 0
  IsColoured true c =
      c.color ≡ (if c.graph_node.has_error then NodeColor.err_selected else NodeColor.selected)
  IsColoured false c =
      (c.color ≡ (if c.graph_node.has_error then NodeColor.error else NodeColor.normal))
      ⊎ (c.color ≡ (if c.graph_node.has_error then NodeColor.err_hover else NodeColor.hover))

  pub record IsMarked (chosen : Option (GraphNode N)) (n : Node N) : Type 0 where
    pub own : OwnsId n
    pub coloured : IsColoured (is_chosen chosen n) n.content

  pub record IsConsistent (s : TraceState N) : Type 0 where
    pub nodes : All (IsMarked s.selected_node) s.nodes
    pub trace_nodes : All OwnsId s.trace_nodes

  -- The node has the id and the data of one of the nodes.
  abbrev pub ComesFrom : List (Node N) → Node N → Type 0
  ComesFrom [] n = ⊥
  ComesFrom (m ∷ ms) n = ((n.id ≡ m.id) × (n.content ≡ m.content)) ⊎ ComesFrom ms n

  -- What an event is in a state. Of reactflow's changes of nodes only this is used: a change selects
  -- or unselects nodes, moves, measures or removes them, and keeps the id and the data of the rest.
  abbrev pub IsOnCanvas : TraceState N → Event N → Type 0
  IsOnCanvas s (click n) = OwnsId n
  IsOnCanvas s (enter n) = OwnsId n
  IsOnCanvas s (leave n) = OwnsId n
  IsOnCanvas s (nodes_change ns) = All (ComesFrom s.nodes) ns
  IsOnCanvas s _ = Unit

  mark-IsMarked :
      (x n : Node N)
      → OwnsId x
      → OwnsId n
      → IsMarked
          (some x.content.graph_node)
          (if str_eq n.id x.id then apply_selected_node_style n else apply_normal_node_style n)
  unfolding apply_selected_node_style apply_normal_node_style
  mark-IsMarked x n p q = elim (Bool-cases (str_eq n.id x.id)) [
    | inl e ↦
        let chosen : str_eq n.id x.content.graph_node.id ≡ true =
          ground (arith, eq_iff n.id x.id, eq_iff n.id x.content.graph_node.id) in
        rw e (record { own = q; coloured = rw chosen refl })
    | inr e ↦
        let other : str_eq n.id x.content.graph_node.id ≡ false =
          ground (arith, eq_iff n.id x.id, eq_iff n.id x.content.graph_node.id) in
        rw e (record { own = q; coloured = rw other (inl refl) })
  ]

  pub is_chosen_of_id :
      (chosen : Option (GraphNode N)) (m n : Node N)
      → m.id ≡ n.id
      → is_chosen chosen m ≡ is_chosen chosen n
  is_chosen_of_id none m n e = refl
  is_chosen_of_id (some g) m n e = ap (λ i. str_eq i g.id) e

  comes-IsMarked :
      (chosen : Option (GraphNode N)) (n : Node N) (ms : List (Node N))
      → All (IsMarked chosen) ms
      → ComesFrom ms n
      → IsMarked chosen n
  comes-IsMarked chosen n [] a h = absurd h
  comes-IsMarked chosen n (m ∷ ms) a (inl (i, d)) =
      let here = is_chosen_of_id chosen n m i in
      record {
        own = ap (λ x. x.graph_node.id) d ∙ a.0.own ∙ sym i;
        coloured =
            subst (IsColoured (is_chosen chosen n)) (sym d)
              (subst (λ b. IsColoured b m.content) (sym here) a.0.coloured);
      }
  comes-IsMarked chosen n (m ∷ ms) a (inr h) = comes-IsMarked chosen n ms a.1 h

  -- A style that keeps the node and gives it the colour of one that is not selected.
  abbrev IsPlain : (Node N → Node N) → Type 0
  IsPlain f =
      (m : Node N)
      → ((f m).id ≡ m.id)
        × ((f m).content.graph_node ≡ m.content.graph_node)
        × IsColoured false (f m).content

  normal-IsPlain : IsPlain apply_normal_node_style
  unfolding apply_normal_node_style
  normal-IsPlain m = (refl, refl, inl refl)

  hovered-IsPlain : IsPlain apply_hovered_node_style
  unfolding apply_hovered_node_style
  hovered-IsPlain m = (refl, refl, inr refl)

  plain-IsMarked :
      (chosen : Option (GraphNode N)) (n : Node N) (f : Node N → Node N)
      → IsPlain f
      → OwnsId n
      → is_chosen chosen n ≡ false
      → IsMarked chosen (f n)
  plain-IsMarked chosen n f keeps own away =
      let (i, g, u) = keeps n in
      let away' = is_chosen_of_id chosen (f n) n i ∙ away in
      record {
        own = ap (λ x. x.id) g ∙ own ∙ sym i;
        coloured = subst (λ b. IsColoured b (f n).content) (sym away') u;
      }

  restyle-IsMarked :
      (chosen : Option (GraphNode N)) (x n : Node N) (f : Node N → Node N)
      → IsPlain f
      → is_chosen chosen x ≡ false
      → IsMarked chosen n
      → IsMarked chosen (if str_eq n.id x.id then f n else n)
  restyle-IsMarked chosen x n f keeps away m = elim (Bool-cases (str_eq n.id x.id)) [
    | inr e ↦ rw e m
    | inl e ↦ rw e (
        plain-IsMarked chosen n f keeps m.own
          (is_chosen_of_id chosen n x ((eq_iff n.id x.id).0 e) ∙ away))
  ]

  pub is_selected-is_chosen :
      (s : TraceState N) (n : Node N)
      → OwnsId n
      → is_selected_node s n ≡ is_chosen s.selected_node n
  unfolding is_selected_node
  is_selected-is_chosen s n e = ground (arith, ap (λ i. i) e)

  fresh-IsMarked : (gs : List (GraphNode N)) → All (IsMarked none) (map create_node gs)
  unfolding create_node
  fresh-IsMarked [] = tt
  fresh-IsMarked (g ∷ gs) = (record { own = refl; coloured = inl refl }, fresh-IsMarked gs)

  shown-IsConsistent :
      (gs : List (GraphNode N)) (es : List Edge) (s : TraceState N)
      → gs ≢ []
      → s.selected_node ≡ none
      → IsConsistent (show_layout (map create_node gs) es s)
  unfolding show_layout
  shown-IsConsistent [] es s ne e = absurd (ne refl)
  shown-IsConsistent (g ∷ gs) es s ne e =
      let ms = fresh-IsMarked (g ∷ gs) in
      record {
        nodes = subst (λ c. All (IsMarked c) (map create_node (g ∷ gs))) (sym e) ms;
        trace_nodes =
            All-map_pred (IsMarked none) OwnsId (λ n m. m.own) (map create_node (g ∷ gs)) ms;
      }

module _ {N : Type 0} (r : Reactflow N) where
  pub step : Event N → TraceState N → TraceState N
  step (click n) s = on_node_click r n s
  step (enter n) s = handle_node_mouse_enter r n s
  step (leave n) s = handle_node_mouse_leave r n s
  step (drag_start n) s = handle_node_drag_start n s
  step drag_stop s = handle_node_drag_stop s
  step pane_click s = on_pane_click s
  step (focus_span id) s = select_node_by_span_id r id s
  step (nodes_change ns) s = record s { nodes = ns }
  step (edges_change es) s = record s { edges = es }

  mouse-IsConsistent :
      (x : Node N) (f : Node N → Node N) (g : Edge → Edge) (s : TraceState N)
      → IsPlain f
      → OwnsId x
      → IsConsistent s
      → IsConsistent (apply_node_mouse_event_styles r x f g s)
  unfolding apply_node_mouse_event_styles
  mouse-IsConsistent x f g s keeps own c =
      elim (Bool-cases (is_selected_node s x || is_some s.actively_dragged_node)) [
        | inl e ↦ rw (e, apply_node_mouse_event_styles) c
        | inr e ↦
            rw (e, apply_node_mouse_event_styles)
              (record {
                nodes =
                    All-map (IsMarked s.selected_node) (IsMarked s.selected_node) _
                      (λ n.
                        restyle-IsMarked s.selected_node x n f keeps
                          (ground (arith, is_selected-is_chosen s x own)))
                      s.nodes c.nodes;
                trace_nodes = c.trace_nodes;
              })
      ]

  mark-IsConsistent :
      (ns : List (Node N)) (es : List Edge) (x : Node N) (s : TraceState N)
      → All OwnsId ns
      → OwnsId x
      → All (IsMarked (some x.content.graph_node)) (mark_selected_node r ns es x s).nodes
  unfolding mark_selected_node
  mark-IsConsistent ns es x s a own =
      All-map OwnsId (IsMarked (some x.content.graph_node)) _ (λ n. mark-IsMarked x n own) ns a

  focus-IsConsistent :
      (id : String) (s : TraceState N)
      → IsConsistent s
      → IsConsistent (select_node_by_span_id r (some id) s)
  unfolding select_node_by_span_id handle_auto_selected_node_change mark_selected_node
  focus-IsConsistent id s c = elim (Bool-cases (str_eq id "")) [
    | inl e ↦ rw (e, select_node_by_span_id) c
    | inr e ↦ elim (Option-cases (find (contains_span id) s.trace_nodes)) [
      | inl f ↦ rw (e, select_node_by_span_id, f) c
      | inr (x, f) ↦
          rw (e, select_node_by_span_id, f)
            (record {
              nodes =
                  mark-IsConsistent s.trace_nodes s.trace_edges x s c.trace_nodes
                    (find-All OwnsId (contains_span id) s.trace_nodes x c.trace_nodes f).0;
              trace_nodes = c.trace_nodes;
            })
    ]
  ]

  step-IsConsistent :
      (e : Event N) (s : TraceState N) → IsOnCanvas s e → IsConsistent s → IsConsistent (step e s)
  unfolding step on_node_click handle_node_mouse_enter handle_node_mouse_leave
      handle_node_drag_start handle_node_drag_stop on_pane_click handle_graph_node_click
      mark_selected_node
  step-IsConsistent (click x) s own c = record {
    nodes =
        mark-IsConsistent s.nodes s.edges x s
          (All-map_pred (IsMarked s.selected_node) OwnsId (λ n m. m.own) s.nodes c.nodes) own;
    trace_nodes = c.trace_nodes;
  }
  step-IsConsistent (enter x) s own c =
      mouse-IsConsistent x apply_hovered_node_style apply_hover_edge_style s hovered-IsPlain own c
  step-IsConsistent (leave x) s own c =
      mouse-IsConsistent x apply_normal_node_style apply_normal_edge_style s normal-IsPlain own c
  step-IsConsistent (drag_start x) s own c = record { nodes = c.nodes; trace_nodes = c.trace_nodes }
  step-IsConsistent drag_stop s own c = record { nodes = c.nodes; trace_nodes = c.trace_nodes }
  step-IsConsistent pane_click s own c = record {
    nodes =
        All-map (IsMarked s.selected_node) (IsMarked none) apply_normal_node_style
          (λ n m. plain-IsMarked none n apply_normal_node_style normal-IsPlain m.own refl) s.nodes
          c.nodes;
    trace_nodes = c.trace_nodes;
  }
  step-IsConsistent (focus_span none) s own c = unfold select_node_by_span_id in c
  step-IsConsistent (focus_span (some id)) s own c = focus-IsConsistent id s c
  step-IsConsistent (nodes_change ns) s own c = record {
    nodes =
        All-map_pred (ComesFrom s.nodes) (IsMarked s.selected_node)
          (λ n. comes-IsMarked s.selected_node n s.nodes c.nodes) ns own;
    trace_nodes = c.trace_nodes;
  }
  step-IsConsistent (edges_change es) s own c = record {
    nodes = c.nodes;
    trace_nodes = c.trace_nodes;
  }

  -- The states that the user's events lead to.
  pub data Reach (s : TraceState N) : TraceState N → Type 0 where
    here : Reach s s
    next : {t : TraceState N} → Reach s t → (e : Event N) → IsOnCanvas t e → Reach s (step e t)

  -- After a graph is shown with nothing selected, and through any sequence of clicks, hovers,
  -- drags, focused spans and of reactflow's own changes of the nodes and edges, a node of the canvas
  -- whose id is that of the page's selected node has the colour of a selected node, with errors or
  -- without as its spans are, and every other node has the normal colour or that of hovering, with
  -- errors or without likewise. Of reactflow's changes it is used that they keep the ids and the data
  -- of the nodes that they do not remove; reactflow's flag `selected` is not spoken of.
  pub Reach-IsConsistent :
      (gs : List (GraphNode N)) (es : List Edge) (s : TraceState N) {t : TraceState N}
      → gs ≢ []
      → s.selected_node ≡ none
      → Reach (show_layout (map create_node gs) es s) t
      → IsConsistent t
  Reach-IsConsistent gs es s ne e here = shown-IsConsistent gs es s ne e
  Reach-IsConsistent gs es s ne e (next {t} p a h) =
      step-IsConsistent a t h (Reach-IsConsistent gs es s ne e p)
