-- ===== src/Graph/View/Hover.antt =====
-- Hovering over a node: entering it and leaving it again.
use teletrace.Base.{
  ◌≡◌, refl, sym, ap, ap₂, ◌∙◌, ◌⊎◌, inl, inr, Bool, true, false, not, ◌&&◌, ◌||◌, Option, none,
  some, List, [], ◌∷◌, map, str_eq, if◌then◌else◌, arith, All, find, is_some, eq_iff, Bool-cases,
  Option-cases,
}
use teletrace.Graph.Types.{GraphNode, Node, Edge}
use teletrace.Graph.Style.{
  apply_normal_node_style, apply_hovered_node_style, apply_normal_edge_style,
  apply_hover_edge_style,
}
use teletrace.Graph.View.{
  Reactflow, TraceState, is_selected_node, touches_selected_node, handle_node_mouse_enter,
  handle_node_mouse_leave,
}
use teletrace.Graph.View.Selection.{
  OwnsId, IsMarked, IsConsistent, is_selected-is_chosen, is_chosen_of_id,
}

module _ {N : Type 0} where
  normal-hovered_node :
      (n : Node N)
      → apply_normal_node_style (apply_hovered_node_style n) ≡ apply_normal_node_style n
  unfolding apply_normal_node_style apply_hovered_node_style
  normal-hovered_node n = refl

normal-hover_edge :
    (e : Edge) → apply_normal_edge_style (apply_hover_edge_style e) ≡ apply_normal_edge_style e
unfolding apply_normal_edge_style apply_hover_edge_style
normal-hover_edge e = ground arith

module _ {N : Type 0} (r : Reactflow N) where
  -- A canvas at rest: what is not selected has the normal style.
  pub record IsAtRest (s : TraceState N) : Type 0 where
    pub nodes : All (λ n. is_selected_node s n ≡ false → apply_normal_node_style n ≡ n) s.nodes
    pub edges :
        All (λ e. touches_selected_node r s e ≡ false → apply_normal_edge_style e ≡ e) s.edges

  -- Hovering changes no end of an edge and no node's id.
  connects_alike :
      (n m : Node N) (e f : Edge)
      → n.id ≡ m.id
      → (e.source ≡ f.source) × (e.target ≡ f.target)
      → r.connects n e ≡ r.connects m f
  connects_alike n m e f i j = rw (r.connects_lem n e, r.connects_lem m f, i, j.0, j.1)

  abbrev hovered : Node N → Node N → Node N
  hovered x n = if str_eq n.id x.id then apply_hovered_node_style n else n

  hovered_same :
      (x n : Node N)
      → ((hovered x n).id ≡ n.id) × ((hovered x n).content.graph_node ≡ n.content.graph_node)
  unfolding apply_hovered_node_style
  hovered_same x n = ground arith

  abbrev touched : Option (Node N) → Edge → Bool
  touched none e = false
  touched (some n) e = r.connects n e

  touched-hovered :
      (p : Node N → Bool) (x : Node N) (ns : List (Node N)) (e f : Edge)
      → ((n : Node N) → p (hovered x n) ≡ p n)
      → (e.source ≡ f.source) × (e.target ≡ f.target)
      → touched (find p (map (hovered x) ns)) e ≡ touched (find p ns) f
  touched-hovered p x [] e f same ends = refl
  touched-hovered p x (n ∷ ns) e f same ends = elim (Bool-cases (p n)) [
    | inl q ↦ rw (same n, q) (connects_alike (hovered x n) n e f (hovered_same x n).0 ends)
    | inr q ↦ rw (same n, q) (touched-hovered p x ns e f same ends)
  ]

  chosen-hovered :
      (s : TraceState N) (x n : Node N) → is_selected_node s (hovered x n) ≡ is_selected_node s n
  unfolding is_selected_node
  chosen-hovered s x n =
      ap (λ (g : GraphNode N). elim s.selected_node [ none ↦ false | some h ↦ str_eq g.id h.id ])
        (hovered_same x n).1

  entered : Node N → TraceState N → Edge → Edge
  entered x s e =
      if r.connects x e && not (touches_selected_node r s e) then apply_hover_edge_style e else e

  entered_ends :
      (x : Node N) (s : TraceState N) (e : Edge)
      → ((entered x s e).source ≡ e.source) × ((entered x s e).target ≡ e.target)
  unfolding entered apply_hover_edge_style
  entered_ends x s e = ground arith

  entered_hover :
      (x : Node N) (s : TraceState N) (e : Edge)
      → (r.connects x e && not (touches_selected_node r s e)) ≡ true
      → entered x s e ≡ apply_hover_edge_style e
  unfolding entered
  entered_hover x s e h = rw h

  entered_other :
      (x : Node N) (s : TraceState N) (e : Edge)
      → (r.connects x e && not (touches_selected_node r s e)) ≡ false
      → entered x s e ≡ e
  unfolding entered
  entered_other x s e h = rw h

  left-nodes :
      (s : TraceState N) (x : Node N) (ns : List (Node N))
      → All (IsMarked s.selected_node) ns
      → OwnsId x
      → is_selected_node s x ≡ false
      → All (λ n. is_selected_node s n ≡ false → apply_normal_node_style n ≡ n) ns
      → map (λ n. if str_eq n.id x.id then apply_normal_node_style n else n) (map (hovered x) ns)
        ≡ ns
  left-nodes s x [] m own away rest = refl
  left-nodes s x (n ∷ ns) m own away rest =
      ap₂ (◌∷◌) (one (Bool-cases (str_eq n.id x.id))) (left-nodes s x ns m.1 own away rest.1)
    where
      one :
          (str_eq n.id x.id ≡ true) ⊎ (str_eq n.id x.id ≡ false)
          → (if str_eq (hovered x n).id x.id
              then apply_normal_node_style (hovered x n)
              else hovered x n)
            ≡ n
      one (inl q) =
          rw ((hovered_same x n).0, q)
            (normal-hovered_node n
              ∙ rest.0 (
                  is_selected-is_chosen s n m.0.own
                  ∙ is_chosen_of_id s.selected_node n x ((eq_iff n.id x.id).0 q)
                  ∙ sym (is_selected-is_chosen s x own)
                  ∙ away))
      one (inr q) = rw ((hovered_same x n).0, q)

  left-edges :
      (s t : TraceState N) (x : Node N) (es : List Edge)
      → ((e : Edge) → touches_selected_node r t (entered x s e) ≡ touches_selected_node r s e)
      → All (λ e. touches_selected_node r s e ≡ false → apply_normal_edge_style e ≡ e) es
      → map
          (λ e.
            if r.connects x e && not (touches_selected_node r t e)
            then apply_normal_edge_style e
            else e)
          (map (entered x s) es)
        ≡ es
  left-edges s t x [] same rest = refl
  left-edges s t x (e ∷ es) same rest =
      ap₂ (◌∷◌) (one (Bool-cases (r.connects x e && not (touches_selected_node r s e))))
        (left-edges s t x es same rest.1)
    where
      test :
          (r.connects x (entered x s e) && not (touches_selected_node r t (entered x s e)))
          ≡ (r.connects x e && not (touches_selected_node r s e))
      test = rw (connects_alike x x (entered x s e) e refl (entered_ends x s e), same e)

      one :
          ((r.connects x e && not (touches_selected_node r s e)) ≡ true)
            ⊎ ((r.connects x e && not (touches_selected_node r s e)) ≡ false)
          → (if r.connects x (entered x s e) && not (touches_selected_node r t (entered x s e))
              then apply_normal_edge_style (entered x s e)
              else entered x s e)
            ≡ e
      one (inl q) =
          rw test (rw (q, entered_hover x s e q) (normal-hover_edge e ∙ rest.0 (ground arith)))
      one (inr q) = rw test (rw (q, entered_other x s e q))

  abbrev after_enter : TraceState N → Node N → TraceState N
  after_enter s x = record s { edges = map (entered x s) s.edges; nodes = map (hovered x) s.nodes }

  is_idle : TraceState N → Node N → Bool
  is_idle s x = is_selected_node s x || is_some s.actively_dragged_node

  enter_lem :
      (s : TraceState N) (x : Node N)
      → is_idle s x ≡ false
      → handle_node_mouse_enter r x s ≡ after_enter s x
  unfolding handle_node_mouse_enter entered is_idle
  enter_lem s x e = rw e

  leave_lem :
      (s t : TraceState N) (x : Node N)
      → is_idle t x ≡ false
      → handle_node_mouse_leave r x t ≡ record t {
        edges =
            map
              (λ e.
                if r.connects x e && not (touches_selected_node r t e)
                then apply_normal_edge_style e
                else e)
              t.edges;
        nodes = map (λ n. if str_eq n.id x.id then apply_normal_node_style n else n) t.nodes;
      }
  unfolding handle_node_mouse_leave is_idle
  leave_lem s t x e = rw e

  enter-idle : (s : TraceState N) (x : Node N) → is_idle (after_enter s x) x ≡ is_idle s x
  unfolding is_idle is_selected_node
  enter-idle s x = refl

  touches-touched :
      (s : TraceState N) (e : Edge)
      → touches_selected_node r s e ≡ touched (find (is_selected_node s) s.nodes) e
  unfolding touches_selected_node
  touches-touched s e = elim (Option-cases (find (is_selected_node s) s.nodes)) [
    | inl q ↦ rw (q, touches_selected_node)
    | inr (n, q) ↦ rw (q, touches_selected_node)
  ]

  enter-chosen :
      (s : TraceState N) (x : Node N) → is_selected_node (after_enter s x) ≡ is_selected_node s
  unfolding is_selected_node
  enter-chosen s x = refl

  enter-touches :
      (s : TraceState N) (x : Node N) (e : Edge)
      → touches_selected_node r (after_enter s x) (entered x s e) ≡ touches_selected_node r s e
  enter-touches s x e =
      touches-touched (after_enter s x) (entered x s e)
      ∙ ap (λ p. touched (find p (map (hovered x) s.nodes)) (entered x s e)) (enter-chosen s x)
      ∙ touched-hovered (is_selected_node s) x s.nodes (entered x s e) e (chosen-hovered s x)
          (entered_ends x s e)
      ∙ sym (touches-touched s e)

  idle-away : (s : TraceState N) (x : Node N) → is_idle s x ≡ false → is_selected_node s x ≡ false
  unfolding is_idle
  idle-away s x e = ground arith

  stays :
      (s : TraceState N) (x : Node N)
      → is_idle s x ≡ true
      → handle_node_mouse_leave r x (handle_node_mouse_enter r x s) ≡ s
  unfolding is_idle handle_node_mouse_enter handle_node_mouse_leave
  stays s x e = rw (e, e)

  -- On a canvas at rest that marks the selected node, the pointer's entering a node and leaving it
  -- again changes nothing, whether the node is selected, dragged or neither.
  mouse_leave-mouse_enter :
      (s : TraceState N) (x : Node N)
      → IsConsistent s
      → IsAtRest s
      → OwnsId x
      → handle_node_mouse_leave r x (handle_node_mouse_enter r x s) ≡ s
  mouse_leave-mouse_enter s x c rest own = elim (Bool-cases (is_idle s x)) [
    | inl e ↦ stays s x e
    | inr e ↦
        rw (enter_lem s x e, leave_lem s (after_enter s x) x (enter-idle s x ∙ e))
          (ap₂ (λ es ns. record s { edges = es; nodes = ns })
            (left-edges s (after_enter s x) x s.edges (enter-touches s x) rest.edges)
            (left-nodes s x s.nodes c.nodes own (idle-away s x e) rest.nodes))
  ]
