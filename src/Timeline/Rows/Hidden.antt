-- ===== src/Timeline/Rows/Hidden.antt =====
-- The rows of the spans of a tree: exactly the descendants of the collapsed spans have none.
use teletrace.Base.{
  ℕ, suc, ◌+◌, ◌≡◌, ◌≤◌, refl, sym, ap, ◌∙◌, inl, inr, String, Bool, true, false, Option, none,
  some, List, [], ◌∷◌, ◌++◌, if◌then◌else◌, arith, leb, Bool-cases,
}
use mathlib.Core.List.{append_assoc, append-nil}
use teletrace.Texts.{has}
use teletrace.Timeline.Tree.{TreeNode, node, Forest, nil, cons, Visit, count, count_forest}
use teletrace.Timeline.Tree.Walk.{preorder, preorder_forest}
use teletrace.Timeline.Rows.{
  TraceSpan, RowState, push_rows, is_hidden, row_loop, generate_row_states,
}

-- The spans of a walk, with the depths that it reports.
unfoldable pub spans_of : (String → Bool) → List (Visit String) → List TraceSpan
spans_of logs [] = []
spans_of logs (v ∷ vs) =
    record { span_id = v.value; depth = v.depth; has_logs = logs v.value } ∷ spans_of logs vs

spans_of-split :
    (logs : String → Bool) (vs ws : List (Visit String)) (rest : List TraceSpan)
    → spans_of logs (vs ++ ws) ++ rest ≡ spans_of logs vs ++ (spans_of logs ws ++ rest)
unfolding spans_of
spans_of-split logs [] ws rest = refl
spans_of-split logs (v ∷ vs) ws rest =
    ap (λ ss. record { span_id = v.value; depth = v.depth; has_logs = logs v.value } ∷ ss)
      (spans_of-split logs vs ws rest)

-- The rows of a tree whose root has the index `i` and the depth `d`: a collapsed node has its own
-- rows and none below it.
unfoldable mutual
  pub shown :
      (logs : String → Bool) (hidden details : List String)
      → (i d : ℕ) → TreeNode String
      → List RowState
  shown logs hidden details i d (node id cs) =
      let below = shown_forest logs hidden details (suc i) (d + 1) cs in
      push_rows details (record { span_id = id; depth = d; has_logs = logs id }) i
      ++ (if has hidden id then [] else below)

  pub shown_forest :
      (logs : String → Bool) (hidden details : List String)
      → (i d : ℕ) → Forest String
      → List RowState
  shown_forest logs hidden details i d nil = []
  shown_forest logs hidden details i d (cons c cs) =
      shown logs hidden details i d c ++ shown_forest logs hidden details (i + count c) d cs

is_hidden-shallow : (c : Option ℕ) (d : ℕ) → is_hidden c (d + 1) ≡ false → is_hidden c d ≡ false
is_hidden-shallow none d h = refl
is_hidden-shallow (some c) d h = ground arith

module _ (logs : String → Bool) (hidden details : List String) where
  mutual
    unfolding preorder spans_of row_loop count

    row_loop-hidden :
        (t : TreeNode String) (d c i : ℕ) (rest : List TraceSpan)
        → c ≤ d
        → row_loop hidden details (spans_of logs (preorder d t) ++ rest) i (some c)
          ≡ row_loop hidden details rest (i + count t) (some c)
    row_loop-hidden (node id cs) d c i rest p =
        let below : leb c d ≡ true = ground arith in
        rw below (
          row_loop-hidden_forest cs (d + 1) c (suc i) rest (omega arith)
          ∙ ap (λ k. row_loop hidden details rest k (some c)) (omega arith))

    row_loop-hidden_forest :
        (cs : Forest String) (d c i : ℕ) (rest : List TraceSpan)
        → c ≤ d
        → row_loop hidden details (spans_of logs (preorder_forest d cs) ++ rest) i (some c)
          ≡ row_loop hidden details rest (i + count_forest cs) (some c)
    row_loop-hidden_forest nil d c i rest p =
        ap (λ k. row_loop hidden details rest k (some c)) (omega arith)
    row_loop-hidden_forest (cons t cs) d c i rest p =
        ap (λ ss. row_loop hidden details ss i (some c))
          (spans_of-split logs (preorder d t) (preorder_forest d cs) rest)
        ∙ row_loop-hidden t d c i (spans_of logs (preorder_forest d cs) ++ rest) p
        ∙ row_loop-hidden_forest cs d c (i + count t) rest p
        ∙ ap (λ k. row_loop hidden details rest k (some c)) (omega arith)

  abbrev own : String → ℕ → ℕ → List RowState
  own id d i = push_rows details (record { span_id = id; depth = d; has_logs = logs id }) i

  -- The rows of a part of the list, then those of the rest, with a collapsed depth that no longer
  -- hides what stands at the depth `d`.
  Goes : (part rest : List TraceSpan) → (i j d : ℕ) → Option ℕ → List RowState → Type 0
  Goes part rest i j d c rows =
      (c' : Option ℕ) × (is_hidden c' d ≡ false)
      × (row_loop hidden details (part ++ rest) i c ≡ rows ++ row_loop hidden details rest j c')

  mutual
    unfolding preorder spans_of count shown row_loop Goes

    row_loop-shown :
        (t : TreeNode String) (d i : ℕ) (c : Option ℕ) (rest : List TraceSpan)
        → is_hidden c d ≡ false
        → Goes
            (spans_of logs (preorder d t))
            rest
            i
            (i + count t)
            d
            c
            (shown logs hidden details i d t)
    row_loop-shown (node id cs) d i c rest p = elim (Bool-cases (has hidden id)) [
      | inl collapsed ↦ (
        some (d + 1),
        ground arith,
        rw (p, collapsed)
            (ap (λ rs. own id d i ++ rs)
                (row_loop-hidden_forest cs (d + 1) (d + 1) (suc i) rest (omega arith)
                  ∙ ap (λ k. row_loop hidden details rest k (some (d + 1))) (omega arith))
              ∙ sym (append_assoc (own id d i) [] _)),
      )
      | inr not_collapsed ↦
          let (c', q, e) = row_loop-shown_forest cs (d + 1) (suc i) none rest refl in
          (
            c',
            is_hidden-shallow c' d q,
            rw (p, not_collapsed)
                (ap (λ rs. own id d i ++ rs)
                    (e
                      ∙ ap
                          (λ k.
                            shown_forest logs hidden details (suc i) (d + 1) cs
                            ++ row_loop hidden details rest k c')
                          (omega arith))
                  ∙ sym (
                      append_assoc (own id d i)
                        (shown_forest logs hidden details (suc i) (d + 1) cs) _)),
          )
    ]

    row_loop-shown_forest :
        (cs : Forest String) (d i : ℕ) (c : Option ℕ) (rest : List TraceSpan)
        → is_hidden c d ≡ false
        → Goes
            (spans_of logs (preorder_forest d cs))
            rest
            i
            (i + count_forest cs)
            d
            c
            (shown_forest logs hidden details i d cs)
    row_loop-shown_forest nil d i c rest p =
        (c, p, ap (λ k. row_loop hidden details rest k c) (omega arith))
    row_loop-shown_forest (cons t cs) d i c rest p =
        let (c', q, e) = row_loop-shown t d i c (spans_of logs (preorder_forest d cs) ++ rest) p in
        let (c'', q', e') = row_loop-shown_forest cs d (i + count t) c' rest q in
        (
          c'',
          q',
          ap (λ ss. row_loop hidden details ss i c)
                (spans_of-split logs (preorder d t) (preorder_forest d cs) rest)
              ∙ e
              ∙ ap (λ rs. shown logs hidden details i d t ++ rs)
                  (e'
                    ∙ ap
                        (λ k.
                          shown_forest logs hidden details (i + count t) d cs
                          ++ row_loop hidden details rest k c'')
                        (omega arith))
              ∙ sym (
                  append_assoc (shown logs hidden details i d t)
                    (shown_forest logs hidden details (i + count t) d cs) _),
        )

-- For the spans of a trace's trees in the order of the walk, the rows are those of the trees with the
-- descendants of collapsed spans cut off: a collapsed span keeps its own rows, and what comes after
-- its descendants has its rows again. Every row carries the index of its span in the whole list.
pub generate_row_states-shown_forest :
    (logs : String → Bool) (hidden details : List String) (cs : Forest String)
    → generate_row_states (some (spans_of logs (preorder_forest 0 cs))) hidden details
      ≡ shown_forest logs hidden details 0 0 cs
unfolding generate_row_states row_loop Goes
generate_row_states-shown_forest logs hidden details cs =
    let (c', q, e) = row_loop-shown_forest logs hidden details cs 0 0 none [] refl in
    ap (λ ss. row_loop hidden details ss 0 none)
      (sym (append-nil (spans_of logs (preorder_forest 0 cs))))
    ∙ e
    ∙ append-nil (shown_forest logs hidden details 0 0 cs)
