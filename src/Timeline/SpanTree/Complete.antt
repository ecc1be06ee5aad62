-- ===== src/Timeline/SpanTree/Complete.antt =====
-- The tree of a trace is built with as much fuel as there are spans, whatever parents they name, and
-- its ids are those of spans.
use teletrace.Base.{
  ℕ, zero, suc, ◌+◌, ◌≡◌, ◌≤◌, ◌<◌, refl, sym, ap, ◌∙◌, true, false, String, Option, some, List, [],
  ◌∷◌, map, length, All, All-append, All-map_pred, filter, arith, str_eq, eq_iff, some_inj, subst,
  map_get,
}
use teletrace.Texts.{has}
use teletrace.Timeline.Tree.{TreeNode, node, Forest, nil, cons}
use teletrace.Timeline.Tree.Walk.{preorder, preorder_forest}
use teletrace.Timeline.Transform.{
  TransformedSpan, Scan, Walked, scan_start, scan_spans, transform_walk,
}
use teletrace.Timeline.Transform.Range.{HasDistinctIds, All-both, scan_spans_lem}
use teletrace.Timeline.Transform.Shown.{IsKnown, row_span, transform_walk-shown_forest}
use teletrace.Timeline.Rows.{generate_row_states}
use teletrace.Timeline.Rows.Hidden.{shown_forest}
use teletrace.Timeline.SpanTree.{
  has_id, is_child_of, is_top, children_spans, top_spans, forest_of, tree_of,
  get_trace_span_ids_as_tree, transform_trace_data,
}
use teletrace.Timeline.SpanTree.Chain.{IsChain, chain-le}
use teletrace.Timeline.SpanTree.Descend.{IsIn, IsOrphan, IsDescent, visits_id, tree-visits}
use teletrace.Timeline.SpanTree.Parents.{
  All-filter, sort_children-All, ids, IsOurs, parent_id, parent_id-child, parent_id-top, has-ids,
}

forest_of-cons :
    (tree : TransformedSpan → Option (TreeNode String)) (s : TransformedSpan)
    (ss : List TransformedSpan) (t : TreeNode String) (cs : Forest String)
    → tree s ≡ some t
    → forest_of tree ss ≡ some cs
    → forest_of tree (s ∷ ss) ≡ some (cons t cs)
unfolding forest_of
forest_of-cons tree s ss t cs e es = rw (e, forest_of, es) refl

tree_of-node :
    (fuel : ℕ) (ss : List TransformedSpan) (s : TransformedSpan) (cs : Forest String)
    → forest_of (tree_of fuel ss) (children_spans ss s.span_id) ≡ some cs
    → tree_of (suc fuel) ss s ≡ some (node s.span_id cs)
unfolding tree_of
tree_of-node fuel ss s cs e = rw (e, tree_of) refl

tree-root :
    (fuel : ℕ) (ss : List TransformedSpan) (cs : Forest String)
    → forest_of (tree_of fuel ss) (top_spans ss) ≡ some cs
    → get_trace_span_ids_as_tree fuel ss ≡ some (node "__root__" cs)
unfolding get_trace_span_ids_as_tree
tree-root fuel ss cs e = rw (e, get_trace_span_ids_as_tree) refl

module _ (scan : Scan) where
  length-ids : (ss : List TransformedSpan) → length (map (λ a. a.span_id) ss) ≡ length ss
  length-ids [] = refl
  length-ids (s ∷ ss) = ap suc (length-ids ss)

  -- All visits of a tree, at any depth, are of known ids.
  abbrev AllKnown : TreeNode String → Type 0
  AllKnown t = (d : ℕ) → All (IsKnown scan) (preorder d t)

  forest_of_lem :
      (tree : TransformedSpan → Option (TreeNode String)) (ss : List TransformedSpan)
      → All (λ s. (t : TreeNode String) × (tree s ≡ some t) × AllKnown t) ss
      → (cs : Forest String) × (forest_of tree ss ≡ some cs)
        × ((d : ℕ) → All (IsKnown scan) (preorder_forest d cs))
  unfolding forest_of preorder
  forest_of_lem tree [] h = (nil, refl, λ d. tt)
  forest_of_lem tree (s ∷ ss) ((t, e, k), hs) =
      let (cs, es, ks) = forest_of_lem tree ss hs in
      (
        cons t cs,
        forest_of-cons tree s ss t cs e es,
        λ d. All-append (IsKnown scan) (preorder d t) (preorder_forest d cs) (k d) (ks d),
      )

  module _ (ours : All (IsOurs scan) scan.spans) where
    tree_of_lem :
        (fuel : ℕ) (s : TransformedSpan) (path : List String)
        → IsOurs scan s
        → IsChain (parent_id scan) s.span_id path
        → All (λ t. has (ids scan) t ≡ true) (s.span_id ∷ path)
        → length scan.spans < fuel + suc (length path)
        → (t : TreeNode String) × (tree_of fuel scan.spans s ≡ some t) × AllKnown t
    unfolding children_spans preorder ids
    tree_of_lem zero s path o c k f = absurd (
        omega
          (arith, chain-le (parent_id scan) (ids scan) s.span_id path c k, length-ids scan.spans))
    tree_of_lem (suc fuel) s path o c k f =
        let below : All
            (λ a. (t : TreeNode String) × (tree_of fuel scan.spans a ≡ some t) × AllKnown t)
            (children_spans scan.spans s.span_id) =
          All-map_pred _ _
            (λ a (our, child).
              tree_of_lem fuel a (s.span_id ∷ path) our
                (parent_id-child scan a s.span_id our o.1 child, c)
                (has-ids scan scan.spans a.span_id ∙ our.1, k) (omega arith))
            (children_spans scan.spans s.span_id)
            (sort_children-All _ (filter (is_child_of s.span_id) scan.spans)
              (All-filter (IsOurs scan) (is_child_of s.span_id) scan.spans ours)) in
        let (cs, e, ks) =
          forest_of_lem (tree_of fuel scan.spans) (children_spans scan.spans s.span_id) below in
        (
          node s.span_id cs,
          tree_of-node fuel scan.spans s cs e,
          λ d. ((o.2, (s, o.0, refl)), ks (d + 1)),
        )

    get_trace_span_ids_as_tree_lem :
        (fuel : ℕ)
        → length scan.spans ≤ fuel
        → (cs : Forest String) × (get_trace_span_ids_as_tree fuel scan.spans
            ≡ some (node "__root__" cs))
          × All (IsKnown scan) (preorder_forest 1 cs)
    unfolding top_spans ids
    get_trace_span_ids_as_tree_lem fuel f =
        let below : All
            (λ a. (t : TreeNode String) × (tree_of fuel scan.spans a ≡ some t) × AllKnown t)
            (top_spans scan.spans) =
          All-map_pred _ _
            (λ a (our, top).
              tree_of_lem fuel a [] our (parent_id-top scan a our top)
                (has-ids scan scan.spans a.span_id ∙ our.1, tt) (omega arith))
            (top_spans scan.spans)
            (sort_children-All _ (filter (is_top scan.spans) scan.spans)
              (All-filter (IsOurs scan) (is_top scan.spans) scan.spans ours)) in
        let (cs, e, ks) = forest_of_lem (tree_of fuel scan.spans) (top_spans scan.spans) below in
        (cs, tree-root fuel scan.spans cs e, ks 1)

has_id-own :
    (ss all : List TransformedSpan)
    → ((id : String) → has_id ss id ≡ true → has_id all id ≡ true)
    → All (λ a. has_id all a.span_id ≡ true) ss
has_id-own [] all h = tt
has_id-own (s ∷ ss) all h = (
  h s.span_id (
      let same : str_eq s.span_id s.span_id ≡ true = (eq_iff s.span_id s.span_id).1 refl in
      rw same refl),
  has_id-own ss all (λ id k. h id (ground arith)),
)

scan-IsOurs :
    (show : ℕ → String) (ss : List TransformedSpan)
    → HasDistinctIds ss
    → All (λ a. str_eq a.span_id "__root__" ≡ false) ss
    → All (IsOurs (scan_spans show ss scan_start)) (scan_spans show ss scan_start).spans
scan-IsOurs show ss d r =
    let (listed, found) = (scan_spans_lem show ss).3 d in
    rw listed (
      All-both (λ a. map_get a.span_id (scan_spans show ss scan_start).span_map ≡ some a)
        (λ a. (has_id ss a.span_id ≡ true) × (str_eq a.span_id "__root__" ≡ false)) _
        (λ a f k. (f, k.0, k.1)) ss found
        (All-both (λ a. has_id ss a.span_id ≡ true) (λ a. str_eq a.span_id "__root__" ≡ false) _
          (λ a k q. (k, q)) ss (has_id-own ss ss (λ id k. k)) r))

transform_trace_data-by :
    (fuel : ℕ) (show : ℕ → String) (ss : List TransformedSpan) (cs : Forest String) (w : Walked)
    → get_trace_span_ids_as_tree fuel (scan_spans show ss scan_start).spans
      ≡ some (node "__root__" cs)
    → transform_walk (scan_spans show ss scan_start) (node "__root__" cs) ≡ some w
    → transform_trace_data fuel show ss ≡ some (scan_spans show ss scan_start, w)
unfolding transform_trace_data
transform_trace_data-by fuel show ss cs w e q = rw (e, transform_trace_data, q) refl

-- For spans with different ids, none of them that of the nominal root, the tree and the data of the
-- trace are computed with as much fuel as there are spans, whatever parents they name, those that are
-- missing or that lie on a cycle included. Whatever is collapsed, the timeline then has the rows of
-- that tree, with the descendants of the collapsed spans cut off. Each span that names no parent, or one that is not
-- there, is in the tree, and so is each span that leads up to one of these by its parents.
pub transform_trace_data_lem :
    (show : ℕ → String) (fuel : ℕ) (ss : List TransformedSpan)
    → HasDistinctIds ss
    → All (λ a. str_eq a.span_id "__root__" ≡ false) ss
    → length ss ≤ fuel
    → (cs : Forest String) × (w : Walked) × (get_trace_span_ids_as_tree fuel ss
        ≡ some (node "__root__" cs))
      × (transform_trace_data fuel show ss ≡ some (scan_spans show ss scan_start, w))
      × ((hidden details : List String)
          → generate_row_states (some (map row_span w.spans)) hidden details
            ≡ shown_forest (λ id. false) hidden details 0 0 cs)
      × ((top last : TransformedSpan) (path : List TransformedSpan)
          → IsIn top ss
          → IsOrphan ss top
          → IsDescent ss top path last
          → visits_id last.span_id (preorder_forest 1 cs) ≡ true)
transform_trace_data_lem show fuel ss d r f =
    let scan = scan_spans show ss scan_start in
    let listed = ((scan_spans_lem show ss).3 d).0 in
    let (cs, e, known) =
      get_trace_span_ids_as_tree_lem scan (scan-IsOurs show ss d r) fuel (rw listed f) in
    let built : get_trace_span_ids_as_tree fuel ss ≡ some (node "__root__" cs) =
      subst (λ l. get_trace_span_ids_as_tree fuel l ≡ some (node "__root__" cs)) listed e in
    let (w, walked, rows) = transform_walk-shown_forest scan cs [] [] known in
    (
      cs,
      w,
      built,
      transform_trace_data-by fuel show ss cs w e walked,
      λ hidden details.
          let (w', walked', rows') = transform_walk-shown_forest scan cs hidden details known in
          let same : w' ≡ w = some_inj (sym walked' ∙ walked) in
          subst
            (λ u.
              generate_row_states (some (map row_span u.spans)) hidden details
              ≡ shown_forest (λ id. false) hidden details 0 0 cs)
            same rows',
      λ top last path. tree-visits ss fuel cs top last path built,
    )
