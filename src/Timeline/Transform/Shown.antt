-- ===== src/Timeline/Transform/Shown.antt =====
-- From the tree of a trace to the rows of its spans.
use teletrace.Base.{
  ℕ, ◌+◌, ◌-◌, ◌≡◌, refl, sym, ap, ap₂, ◌∙◌, String, Bool, false, some, List, [], ◌∷◌, ◌++◌, map,
  arith, All, map_get, str_eq,
}
use mathlib.Core.List.{append_assoc, append-nil, map-append}
use teletrace.Timeline.Tree.{TreeNode, node, Forest, nil, cons, Visit, count}
use teletrace.Timeline.Tree.Walk.{preorder, preorder_forest, walk_lem}
use teletrace.Timeline.Rows.{TraceSpan, generate_row_states}
use teletrace.Timeline.Rows.Hidden.{spans_of, shown_forest, generate_row_states-shown_forest}
use teletrace.Timeline.Transform.{
  TransformedSpan, Scan, TimelineSpan, Walked, walk_start, visit_span, visit, visit_all,
  transform_walk,
}

-- What the rows read of a span. (`transformSpan` sets no logs.)
abbrev pub row_span : TimelineSpan → TraceSpan
row_span t = record { span_id = t.span.span_id; depth = t.depth; has_logs = false }

-- The node of a span that the map holds under its id.
abbrev pub IsKnown : Scan → Visit String → Type 0
IsKnown s v =
    (str_eq v.value "__root__" ≡ false)
    × ((span : TransformedSpan) × (map_get v.value s.span_map ≡ some span)
        × (span.span_id ≡ v.value))

-- A visit, as the rows see it.
visited : Visit String → TraceSpan
visited v = record { span_id = v.value; depth = v.depth - 1; has_logs = false }

visit_lem :
    (s : Scan) (v : Visit String) (w : Walked)
    → IsKnown s v
    → map row_span (visit s v w).spans ≡ map row_span w.spans ++ visited v ∷ []
unfolding visit visit_span visited
visit_lem s v w (not_root, (span, found, same)) =
    rw (not_root, found)
      (map-append row_span w.spans _
        ∙ ap
            (λ id.
              map row_span w.spans
              ++ record { span_id = id; depth = v.depth - 1; has_logs = false } ∷ [])
            same)

visit_all_lem :
    (s : Scan) (vs : List (Visit String)) (w : Walked)
    → All (IsKnown s) vs
    → map row_span (visit_all s vs w).spans ≡ map row_span w.spans ++ map visited vs
unfolding visit_all
visit_all_lem s [] w k = sym (append-nil (map row_span w.spans))
visit_all_lem s (v ∷ vs) w (k, ks) =
    visit_all_lem s vs (visit s v w) ks
    ∙ ap (λ l. l ++ map visited vs) (visit_lem s v w k)
    ∙ append_assoc (map row_span w.spans) (visited v ∷ []) (map visited vs)

spans_of-append :
    (logs : String → Bool) (vs ws : List (Visit String))
    → spans_of logs (vs ++ ws) ≡ spans_of logs vs ++ spans_of logs ws
unfolding spans_of
spans_of-append logs [] ws = refl
spans_of-append logs (v ∷ vs) ws =
    ap (λ l. record { span_id = v.value; depth = v.depth; has_logs = logs v.value } ∷ l)
      (spans_of-append logs vs ws)

mutual
  unfolding preorder spans_of visited

  visited-preorder :
      (d : ℕ) (t : TreeNode String)
      → map visited (preorder (d + 1) t) ≡ spans_of (λ id. false) (preorder d t)
  visited-preorder d (node id cs) =
      ap₂ (λ k l. record { span_id = id; depth = k; has_logs = false } ∷ l) (omega arith)
        (visited-preorder_forest (d + 1) cs)

  visited-preorder_forest :
      (d : ℕ) (cs : Forest String)
      → map visited (preorder_forest (d + 1) cs) ≡ spans_of (λ id. false) (preorder_forest d cs)
  visited-preorder_forest d nil = refl
  visited-preorder_forest d (cons t cs) =
      map-append visited (preorder (d + 1) t) (preorder_forest (d + 1) cs)
      ∙ ap₂ (λ k l. k ++ l) (visited-preorder d t) (visited-preorder_forest d cs)
      ∙ sym (spans_of-append (λ id. false) (preorder d t) (preorder_forest d cs))

walked :
    (s : Scan) (cs : Forest String)
    → transform_walk s (node "__root__" cs) ≡ some (visit_all s (preorder_forest 1 cs) walk_start)
unfolding transform_walk
walked s cs =
    let seen = (walk_lem (count (node "__root__" cs)) 0 (node "__root__" cs) (omega arith)).1 in
    rw (seen, transform_walk) (unfold visit_all in unfold visit in unfold preorder in refl)

-- The rows of a trace: the walk over the tree of its ids, below the nominal root, gives the spans with
-- which `generateRowStates` shows the tree's rows, each with its depth below the root, and without the
-- descendants of the collapsed spans; provided that each id is that of a span.
pub transform_walk-shown_forest :
    (s : Scan) (cs : Forest String) (hidden details : List String)
    → All (IsKnown s) (preorder_forest 1 cs)
    → (w : Walked) × (transform_walk s (node "__root__" cs) ≡ some w)
      × (generate_row_states (some (map row_span w.spans)) hidden details
          ≡ shown_forest (λ id. false) hidden details 0 0 cs)
transform_walk-shown_forest s cs hidden details k = (
  visit_all s (preorder_forest 1 cs) walk_start,
  walked s cs,
  ap (λ l. generate_row_states (some l) hidden details)
        (visit_all_lem s (preorder_forest 1 cs) walk_start k ∙ visited-preorder_forest 0 cs)
      ∙ generate_row_states-shown_forest (λ id. false) hidden details cs,
)
