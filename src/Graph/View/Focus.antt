-- ===== src/Graph/View/Focus.antt =====
-- The span that the trace page focuses on when it opens: TraceView.tsx.
use mathlib.Core.Bool.{Bool-set}
use mathlib.Core.List.{Perm, foldr}
use mathlib.Core.List.Perm
use teletrace.Base.{
  ◌≡◌, refl, sym, ap, ◌∙◌, inl, inr, Bool, true, false, ◌||◌, Option, none, some, List, [], ◌∷◌,
  ◌++◌, map, any, find, String, str_eq, if◌then◌else◌, arith, Bool-cases,
}
use teletrace.Numbers.{Numbers}
use teletrace.Trace.Span.{InternalSpan}
use teletrace.Graph.Types.{GraphNode, Node}
use teletrace.Graph.Layout.{span_to_graph_nodes}
use teletrace.Graph.Nodes.{all_spans, span_to_graph_nodes_partition}
use teletrace.Graph.View.{Reactflow, TraceState, contains_span, select_node_by_span_id}

-- A text or null, where it is truthy.
abbrev truthy : Option String → Option String
truthy none = none
truthy (some t) = if str_eq t "" then none else some t

module _ {N : Type 0} where
  unfoldable pub get_root_span : List (InternalSpan N) → Option (InternalSpan N)
  get_root_span spans =
      find (λ s. elim (truthy s.span.parent_span_id) [ none ↦ true | some _ ↦ false ]) spans

  -- The effect of the page; `url_span_id` is the parameter "spanId" of its address.
  unfoldable pub focus_effect :
      (url_span_id : Option String) (trace : Option (List (InternalSpan N)))
      → TraceState N
      → TraceState N
  unfolding get_root_span
  focus_effect url_span_id trace s = elim (truthy s.initially_focused_span_id) [
    | some _ ↦ s
    | none ↦ elim (truthy url_span_id) [
      | some id ↦ record s { selected_span_id = some id; initially_focused_span_id = some id }
      | none ↦ elim trace [
        | none ↦ s
        | some spans ↦ elim (get_root_span spans) [
          | none ↦ record s { initially_focused_span_id = none }
          | some root ↦ record s { initially_focused_span_id = some root.span.span_id }
        ]
      ]
    ]
  ]

  abbrev pub is_at : String → InternalSpan N → Bool
  is_at span_id s = str_eq s.span.span_id span_id

any-foldr : {A : Type 0} (p : A → Bool) (xs : List A) → any p xs ≡ foldr (λ x b. p x || b) false xs
any-foldr p [] = refl
any-foldr p (x ∷ xs) = ap (λ b. p x || b) (any-foldr p xs)

any-perm : {A : Type 0} (p : A → Bool) {xs ys : List A} → Perm xs ys → any p xs ≡ any p ys
any-perm p {xs} {ys} h =
    any-foldr p xs
    ∙ Perm.foldr-eq Bool-set (λ x b. p x || b) (λ x y b. ground arith) h false
    ∙ sym (any-foldr p ys)

any-append :
    {A : Type 0} (p : A → Bool) (xs ys : List A) → any p (xs ++ ys) ≡ (any p xs || any p ys)
any-append p [] ys = refl
any-append p (x ∷ xs) ys = ground (arith, any-append p xs ys)

find-any :
    {A : Type 0} (p : A → Bool) (xs : List A)
    → any p xs ≡ true
    → (x : A) × (find p xs ≡ some x) × (p x ≡ true)
find-any p [] h = cc
find-any p (x ∷ xs) h = elim (Bool-cases (p x)) [
  | inl e ↦ rw e (x, refl, e)
  | inr e ↦ rw e (find-any p xs (rw e at h))
]

module _ {N : Type 0} where
  any-contains :
      (span_id : String) (ns : List (Node N))
      → any (contains_span span_id) ns
        ≡ any (is_at span_id) (all_spans (map (λ n. n.content.graph_node) ns))
  unfolding contains_span
  any-contains span_id [] = refl
  any-contains span_id (n ∷ ns) = ground (
    arith,
    any-contains span_id ns,
    any-append (is_at span_id) n.content.graph_node.spans
        (all_spans (map (λ n. n.content.graph_node) ns)),
  )

module _ {N : Type 0} (js : Numbers N) (r : Reactflow N) where
  -- If the graph of a trace is shown, each span of the trace with an id that is not empty can be
  -- focused: selecting the id selects a node, and that node holds a span of the id.
  select_node_by_span_id_finds :
      (spans : List (InternalSpan N)) (s : TraceState N) (span_id : String)
      → span_to_graph_nodes js spans ≡ some (map (λ n. n.content.graph_node) s.trace_nodes)
      → any (is_at span_id) spans ≡ true
      → str_eq span_id "" ≡ false
      → (g : GraphNode N) × ((select_node_by_span_id r (some span_id) s).selected_node ≡ some g)
        × (any (is_at span_id) g.spans ≡ true)
  unfolding select_node_by_span_id contains_span
  select_node_by_span_id_finds spans s span_id h there nonempty =
      let (same, _, _) = span_to_graph_nodes_partition js spans _ h in
      let held = any-contains span_id s.trace_nodes ∙ any-perm (is_at span_id) same ∙ there in
      let (n, found, holds) = find-any (contains_span span_id) s.trace_nodes held in
      (n.content.graph_node, rw (nonempty, found) refl, holds)
