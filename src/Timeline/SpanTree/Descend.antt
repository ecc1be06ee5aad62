-- ===== src/Timeline/SpanTree/Descend.antt =====
-- A span whose parents lead up to one without a parent has a node in the tree.
use teletrace.Base.{
  ℕ, zero, suc, ◌+◌, ◌≡◌, ◌⊎◌, refl, sym, ap, ◌∙◌, inl, inr, Bool, true, false, ◌||◌, String,
  Option, none, some, List, [], ◌∷◌, ◌++◌, filter, any, arith, str_eq, eq_iff, some_inj, subst,
  Bool-cases, Option-cases, leb,
}
use teletrace.Timeline.Tree.{TreeNode, node, Forest, cons, Visit, children_of}
use teletrace.Timeline.Tree.Walk.{preorder, preorder_forest}
use teletrace.Timeline.Transform.{TransformedSpan}
use teletrace.Timeline.SpanTree.{
  has_id, is_child_of, is_top, insert_span, sort_children, children_spans, top_spans, forest_of,
  tree_of, get_trace_span_ids_as_tree,
}

abbrev pub IsIn : TransformedSpan → List TransformedSpan → Type 0
IsIn a [] = ⊥
IsIn a (s ∷ ss) = (a ≡ s) ⊎ IsIn a ss

filter-IsIn :
    (p : TransformedSpan → Bool) (a : TransformedSpan) (ss : List TransformedSpan)
    → p a ≡ true
    → IsIn a ss
    → IsIn a (filter p ss)
filter-IsIn p a [] e h = h
filter-IsIn p a (s ∷ ss) e h = elim (Bool-cases (p s)) [
  | inl q ↦ rw q (elim h [ inl same ↦ inl same | inr later ↦ inr (filter-IsIn p a ss e later) ])
  | inr q ↦ rw q (elim h [
    | inl same ↦ absurd (cc (sym (ap p same ∙ q) ∙ e))
    | inr later ↦ filter-IsIn p a ss e later
  ])
]

insert_span-IsIn :
    (a s : TransformedSpan) (ts : List TransformedSpan)
    → (a ≡ s) ⊎ IsIn a ts
    → IsIn a (insert_span s ts)
unfolding insert_span
insert_span-IsIn a s [] h = h
insert_span-IsIn a s (t ∷ ts) h = elim (Bool-cases (leb s.start_time t.start_time)) [
  | inl e ↦ rw e h
  | inr e ↦ rw e (elim h [
    | inl same ↦ inr (insert_span-IsIn a s ts (inl same))
    | inr rest ↦ (elim rest [
      | inl same ↦ inl same
      | inr later ↦ inr (insert_span-IsIn a s ts (inr later))
    ])
  ])
]

sort_children-IsIn :
    (a : TransformedSpan) (ss : List TransformedSpan) → IsIn a ss → IsIn a (sort_children ss)
unfolding sort_children
sort_children-IsIn a [] h = h
sort_children-IsIn a (s ∷ ss) (inl same) = insert_span-IsIn a s (sort_children ss) (inl same)
sort_children-IsIn a (s ∷ ss) (inr h) =
    insert_span-IsIn a s (sort_children ss) (inr (sort_children-IsIn a ss h))

-- Some visit is of the id.
abbrev pub visits_id : String → List (Visit String) → Bool
visits_id id vs = any (λ v. str_eq v.value id) vs

any-append :
    (id : String) (vs ws : List (Visit String))
    → visits_id id (vs ++ ws) ≡ (visits_id id vs || visits_id id ws)
any-append id [] ws = refl
any-append id (v ∷ vs) ws = ground (arith, any-append id vs ws)

-- A span that names no parent, or one that is not there.
abbrev pub IsOrphan : List TransformedSpan → TransformedSpan → Type 0
IsOrphan spans s =
    (s.parent_span_id ≡ none)
    ⊎ ((parent : String) × (s.parent_span_id ≡ some parent) × (has_id spans parent ≡ false))

orphan-is_top :
    (spans : List TransformedSpan) (s : TransformedSpan) → IsOrphan spans s → is_top spans s ≡ true
orphan-is_top spans s (inl e) = rw e refl
orphan-is_top spans s (inr (parent, e, absent)) = rw (e, absent) refl

parent-is_child_of :
    (id : String) (s : TransformedSpan) → s.parent_span_id ≡ some id → is_child_of id s ≡ true
parent-is_child_of id s e = rw e ((eq_iff id id).1 refl)

-- A way down from a span, each span naming the one before as its parent.
abbrev pub IsDescent :
    List TransformedSpan → TransformedSpan → List TransformedSpan → TransformedSpan → Type 0
IsDescent spans s [] last = s ≡ last
IsDescent spans s (c ∷ cs) last =
    IsIn c spans × (c.parent_span_id ≡ some s.span_id) × IsDescent spans c cs last

or-true : (a b : Bool) → b ≡ true → (a || b) ≡ true
or-true a b e = ground arith

module _ (tree : TransformedSpan → Option (TreeNode String)) where
  forest_of-split :
      (s : TransformedSpan) (ss : List TransformedSpan) (cs : Forest String)
      → forest_of tree (s ∷ ss) ≡ some cs
      → (t : TreeNode String) × (ts : Forest String) × (tree s ≡ some t)
        × (forest_of tree ss ≡ some ts)
        × (cs ≡ cons t ts)
  unfolding forest_of
  forest_of-split s ss cs e = elim (Option-cases (tree s)) [
    | inl n ↦ absurd (cc (rw (n, forest_of) at e))
    | inr (t, q) ↦ elim (Option-cases (forest_of tree ss)) [
      | inl n ↦ absurd (cc (rw (q, forest_of, n) at e))
      | inr (ts, r) ↦ (t, ts, q, r, sym (some_inj (rw (q, forest_of, r) at e)))
    ]
  ]

  -- The tree of each span of the list is in the forest.
  forest_of-visits :
      (id : String) (d : ℕ) (a : TransformedSpan) (ss : List TransformedSpan) (cs : Forest String)
      → forest_of tree ss ≡ some cs
      → IsIn a ss
      → ((t : TreeNode String) → tree a ≡ some t → visits_id id (preorder d t) ≡ true)
      → visits_id id (preorder_forest d cs) ≡ true
  unfolding forest_of preorder
  forest_of-visits id d a [] cs e h f = absurd h
  forest_of-visits id d a (s ∷ ss) cs e h f =
      let (t, ts, et, ets, same) = forest_of-split s ss cs e in
      subst (λ u. visits_id id (preorder_forest d u) ≡ true) (sym same)
        (any-append id (preorder d t) (preorder_forest d ts) ∙ (elim h [
          | inl first ↦ rw (f t (ap tree first ∙ et)) refl
          | inr later ↦
              or-true (visits_id id (preorder d t)) _ (forest_of-visits id d a ss ts ets later f)
        ]))

module _ (spans : List TransformedSpan) where
  tree_of-split :
      (fuel : ℕ) (s : TransformedSpan) (t : TreeNode String)
      → tree_of fuel spans s ≡ some t
      → (less : ℕ) × (cs : Forest String) × (forest_of
            (tree_of less spans)
            (children_spans spans s.span_id)
          ≡ some cs)
        × (t ≡ node s.span_id cs)
  unfolding tree_of
  tree_of-split zero s t e = absurd (cc e)
  tree_of-split (suc fuel) s t e =
      elim (Option-cases (forest_of (tree_of fuel spans) (children_spans spans s.span_id))) [
        | inl n ↦ absurd (cc (rw (n, tree_of) at e))
        | inr (cs, q) ↦ (fuel, cs, q, sym (some_inj (rw (q, tree_of) at e)))
      ]

  tree_of-visits :
      (path : List TransformedSpan) (fuel d : ℕ) (s last : TransformedSpan) (t : TreeNode String)
      → IsDescent spans s path last
      → tree_of fuel spans s ≡ some t
      → visits_id last.span_id (preorder d t) ≡ true
  unfolding preorder children_spans
  tree_of-visits [] fuel d s last t same e =
      let (less, cs, q, here) = tree_of-split fuel s t e in
      let own : str_eq s.span_id last.span_id ≡ true =
        (eq_iff s.span_id last.span_id).1 (ap (λ a. a.span_id) same) in
      subst (λ u. visits_id last.span_id (preorder d u) ≡ true) (sym here) (rw own refl)
  tree_of-visits (c ∷ path) fuel d s last t (inside, child, way) e =
      let (less, cs, q, here) = tree_of-split fuel s t e in
      subst (λ u. visits_id last.span_id (preorder d u) ≡ true) (sym here)
        (or-true (str_eq s.span_id last.span_id) _ (
          forest_of-visits (tree_of less spans) last.span_id (d + 1) c
            (children_spans spans s.span_id) cs q
            (sort_children-IsIn c (filter (is_child_of s.span_id) spans) (
              filter-IsIn (is_child_of s.span_id) c spans (parent-is_child_of s.span_id c child)
                inside))
            (λ u et. tree_of-visits path less (d + 1) c last u way et)))

  -- Every span below one without a parent has a node.
  pub tree-visits :
      (fuel : ℕ) (cs : Forest String) (top last : TransformedSpan) (path : List TransformedSpan)
      → get_trace_span_ids_as_tree fuel spans ≡ some (node "__root__" cs)
      → IsIn top spans
      → IsOrphan spans top
      → IsDescent spans top path last
      → visits_id last.span_id (preorder_forest 1 cs) ≡ true
  unfolding top_spans get_trace_span_ids_as_tree
  tree-visits fuel cs top last path e inside is way =
      elim (Option-cases (forest_of (tree_of fuel spans) (top_spans spans))) [
        | inl n ↦ absurd (cc (rw (n, get_trace_span_ids_as_tree) at e))
        | inr (us, q) ↦
            let same : us ≡ cs =
              ap children_of (some_inj (rw (q, get_trace_span_ids_as_tree) at e)) in
            forest_of-visits (tree_of fuel spans) last.span_id 1 top (top_spans spans) cs
              (subst (λ w. forest_of (tree_of fuel spans) (top_spans spans) ≡ some w) same q)
              (sort_children-IsIn top (filter (is_top spans) spans)
                (filter-IsIn (is_top spans) top spans (orphan-is_top spans top is) inside))
              (λ u et. tree_of-visits path fuel 1 top last u way et)
      ]
