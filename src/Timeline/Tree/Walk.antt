-- ===== src/Timeline/Tree/Walk.antt =====
-- The walk with a stack visits the nodes in preorder.
use teletrace.Base.{
  ℕ, zero, suc, ◌+◌, ◌≡◌, ◌≤◌, refl, sym, ap, ◌∙◌, some, List, [], ◌∷◌, ◌++◌, arith, length,
  length-append,
}
use mathlib.Core.List.{append_assoc, append-nil}
use teletrace.Timeline.Tree.{
  TreeNode, node, Forest, nil, cons, Visit, Entry, value_of, children_of, push_children, walk_loop,
  walk, count, count_forest, depth, depth_children, size, max,
}

-- Each node before its children, the children in order, with the depths.
unfoldable mutual
  pub preorder : {A : Type 0} → ℕ → TreeNode A → List (Visit A)
  preorder d (node v cs) =
      record { value = v; tree = node v cs; depth = d } ∷ preorder_forest (d + 1) cs

  pub preorder_forest : {A : Type 0} → ℕ → Forest A → List (Visit A)
  preorder_forest d nil = []
  preorder_forest d (cons c cs) = preorder d c ++ preorder_forest d cs

module _ {A : Type 0} where
  preorder_stack : List (Entry A) → List (Visit A)
  preorder_stack [] = []
  preorder_stack (e ∷ es) = preorder e.depth e.tree ++ preorder_stack es

  count_stack : List (Entry A) → ℕ
  count_stack [] = 0
  count_stack (e ∷ es) = count e.tree + count_stack es

  preorder-push :
      (d : ℕ) (cs : Forest A) (stack : List (Entry A))
      → preorder_stack (push_children d cs stack) ≡ preorder_forest d cs ++ preorder_stack stack
  unfolding push_children preorder_stack preorder_forest
  preorder-push d nil stack = refl
  preorder-push d (cons c cs) stack =
      ap (λ vs. preorder d c ++ vs) (preorder-push d cs stack)
      ∙ sym (append_assoc (preorder d c) (preorder_forest d cs) (preorder_stack stack))

  count-push :
      (d : ℕ) (cs : Forest A) (stack : List (Entry A))
      → count_stack (push_children d cs stack) ≡ count_forest cs + count_stack stack
  unfolding push_children count_stack count_forest
  count-push d nil stack = omega arith
  count-push d (cons c cs) stack = omega (arith, count-push d cs stack)

  count-children : (t : TreeNode A) → count t ≡ suc (count_forest (children_of t))
  unfolding count
  count-children (node v cs) = refl

  preorder-children :
      (d : ℕ) (t : TreeNode A)
      → preorder d t
        ≡ record { value = value_of t; tree = t; depth = d }
          ∷ preorder_forest (d + 1) (children_of t)
  unfolding preorder
  preorder-children d (node v cs) = refl

  -- The loop, on any fuel that is enough for the nodes on the stack.
  walk_loop_lem :
      (fuel : ℕ) (stack : List (Entry A))
      → count_stack stack ≤ fuel
      → walk_loop fuel stack ≡ some (preorder_stack stack)
  unfolding walk_loop preorder_stack count_stack
  walk_loop_lem fuel [] h = refl
  walk_loop_lem zero (e ∷ stack) h = absurd (omega (arith, count-children e.tree))
  walk_loop_lem (suc fuel) (e ∷ stack) h =
      let next = push_children (e.depth + 1) (children_of e.tree) stack in
      let rest = walk_loop_lem fuel next (
        omega
          (arith, count-push (e.depth + 1) (children_of e.tree) stack, count-children e.tree)) in
      rw
        (
          rest,
          walk_loop,
          preorder-push (e.depth + 1) (children_of e.tree) stack,
          preorder-children e.depth e.tree,
        )
        refl

  -- A walk ends and visits every node once, in preorder, with its depth below the start; more fuel
  -- than there are nodes changes nothing.
  pub walk_lem :
      (fuel d : ℕ) (t : TreeNode A)
      → count t ≤ fuel
      → (walk_loop fuel (record { depth = d; tree = t } ∷ []) ≡ some (preorder d t))
        × (walk t d ≡ some (preorder d t))
  unfolding walk count_stack preorder_stack
  walk_lem fuel d t h = (
    walk_loop_lem fuel (record { depth = d; tree = t } ∷ []) (omega arith)
        ∙ ap some (append-nil (preorder d t)),
    walk_loop_lem (count t) (record { depth = d; tree = t } ∷ []) (omega arith)
        ∙ ap some (append-nil (preorder d t)),
  )

-- The greatest depth that a walk reports.
abbrev deepest : {A : Type 0} → ℕ → List (Visit A) → ℕ
deepest so_far [] = so_far
deepest so_far (v ∷ vs) = max v.depth (deepest so_far vs)

deepest-append :
    {A : Type 0} (so_far : ℕ) (vs ws : List (Visit A))
    → deepest so_far (vs ++ ws) ≡ deepest (deepest so_far ws) vs
deepest-append so_far [] ws = refl
deepest-append so_far (v ∷ vs) ws = ap (max v.depth) (deepest-append so_far vs ws)

mutual
  unfolding preorder count

  length-preorder : {A : Type 0} (d : ℕ) (t : TreeNode A) → length (preorder d t) ≡ count t
  length-preorder d (node v cs) = omega (arith, length-preorder_forest (d + 1) cs)

  length-preorder_forest :
      {A : Type 0} (d : ℕ) (cs : Forest A) → length (preorder_forest d cs) ≡ count_forest cs
  length-preorder_forest d nil = refl
  length-preorder_forest d (cons c cs) = omega (
    arith,
    length-append (preorder d c) (preorder_forest d cs),
    length-preorder d c,
    length-preorder_forest d cs,
  )

mutual
  unfolding preorder depth

  depth-preorder :
      {A : Type 0} (d b : ℕ) (t : TreeNode A)
      → deepest b (preorder d t) + 1 ≡ max (b + 1) (d + depth t)
  depth-preorder d b (node v cs) = ground (arith, depth-forest d 1 b cs)

  depth-forest :
      {A : Type 0} (d a b : ℕ) (cs : Forest A)
      → max (d + a) (deepest b (preorder_forest (d + 1) cs) + 1)
        ≡ max (b + 1) (d + depth_children a cs)
  depth-forest d a b nil = ground arith
  depth-forest d a b (cons c cs) =
      rw (deepest-append b (preorder (d + 1) c) (preorder_forest (d + 1) cs)) (
        ground (
          arith,
          depth-forest d (max (depth c + 1) a) b cs,
          depth-preorder (d + 1) (deepest b (preorder_forest (d + 1) cs)) c,
        ))

depth_children-le : {A : Type 0} (a : ℕ) (cs : Forest A) → a ≤ depth_children a cs
unfolding depth_children
depth_children-le a nil = omega arith
depth_children-le a (cons c cs) = ground (arith, depth_children-le (max (depth c + 1) a) cs)

depth_pos : {A : Type 0} (t : TreeNode A) → 1 ≤ depth t
unfolding depth
depth_pos (node v cs) = depth_children-le 1 cs

-- `size` and `depth` of a tree agree with its walk: the size is the number of its visits, and the
-- depth is one more than the greatest depth that a walk from depth 0 reports.
size-depth-walk :
    {A : Type 0} (t : TreeNode A)
    → (visits : List (Visit A)) × (walk t 0 ≡ some visits)
      × (size t ≡ some (length visits))
      × (length visits ≡ count t)
      × (depth t ≡ deepest 0 visits + 1)
unfolding size
size-depth-walk t =
    let walked = (walk_lem (count t) 0 t (omega arith)).1 in
    (
      preorder 0 t,
      walked,
      rw (walked, size) refl,
      length-preorder 0 t,
      ground (arith, depth-preorder 0 0 t, depth_pos t),
    )
