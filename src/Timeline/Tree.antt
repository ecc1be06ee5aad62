-- ===== src/Timeline/Tree.antt =====
-- TreeNode.js: a tree whose nodes hold a value and their children in order.
pub mod Walk
pub mod Search
use teletrace.Base.{
  ℕ, zero, suc, ◌+◌, ◌≡◌, Bool, true, false, Option, none, some, List, [], ◌∷◌, ◌++◌, if◌then◌else◌,
  ltb, length,
}

mutual
  pub data TreeNode (A : Type 0) : Type 0 where
    node : A → Forest A → TreeNode A

  pub data Forest (A : Type 0) : Type 0 where
    nil : Forest A
    cons : TreeNode A → Forest A → Forest A

-- What `walk` hands to its callback.
pub record Visit (A : Type 0) : Type 0 where
  pub value : A
  pub tree : TreeNode A
  pub depth : ℕ

-- An entry of the stack of `walk`.
pub record Entry (A : Type 0) : Type 0 where
  pub depth : ℕ
  pub tree : TreeNode A

-- `if (a) return a;`, and otherwise what comes after.
abbrev pub first_found : {B : Type 0} → Option B → Option B → Option B
first_found (some a) later = some a
first_found none later = later

abbrev pub max : ℕ → ℕ → ℕ
max a b = if ltb a b then b else a

module _ {A : Type 0} where
  abbrev pub value_of : TreeNode A → A
  value_of (node v cs) = v

  abbrev pub children_of : TreeNode A → Forest A
  children_of (node v cs) = cs

  -- `children.push(child)`.
  unfoldable pub push_child : Forest A → TreeNode A → Forest A
  push_child nil child = cons child nil
  push_child (cons c cs) child = cons c (push_child cs child)

  unfoldable pub add_child : TreeNode A → TreeNode A → TreeNode A
  unfolding push_child
  add_child (node v cs) child = node v (push_child cs child)

  -- The inner loop of `walk`, from the last child to the first; the top of the stack stands first.
  unfoldable pub push_children : ℕ → Forest A → List (Entry A) → List (Entry A)
  push_children actual_depth nil stack = stack
  push_children actual_depth (cons c cs) stack =
      record { depth = actual_depth; tree = c } ∷ push_children actual_depth cs stack

  -- The outer loop on fuel: the visits in order, none where the fuel runs out.
  unfoldable pub walk_loop : ℕ → List (Entry A) → Option (List (Visit A))
  unfolding push_children
  walk_loop fuel [] = some []
  walk_loop zero (e ∷ stack) = none
  walk_loop (suc fuel) (e ∷ stack) =
      elim (walk_loop fuel (push_children (e.depth + 1) (children_of e.tree) stack)) [
        | none ↦ none
        | some visits ↦
            some (record { value = value_of e.tree; tree = e.tree; depth = e.depth } ∷ visits)
      ]

-- The number of nodes.
unfoldable mutual
  pub count : {A : Type 0} → TreeNode A → ℕ
  count (node v cs) = suc (count_forest cs)

  pub count_forest : {A : Type 0} → Forest A → ℕ
  count_forest nil = 0
  count_forest (cons c cs) = count c + count_forest cs

-- `depth`; its `reduce` goes over the children with the greatest depth so far.
unfoldable mutual
  pub depth : {A : Type 0} → TreeNode A → ℕ
  depth (node v cs) = depth_children 1 cs

  pub depth_children : {A : Type 0} → ℕ → Forest A → ℕ
  depth_children so_far nil = so_far
  depth_children so_far (cons c cs) = depth_children (max (depth c + 1) so_far) cs

-- `find`, for the test that `searchFunction` makes of what is searched.
unfoldable mutual
  pub find : {A : Type 0} → (TreeNode A → Bool) → TreeNode A → Option (TreeNode A)
  find search_fn (node v cs) =
      let below = find_children search_fn cs in
      if search_fn (node v cs) then some (node v cs) else below

  pub find_children : {A : Type 0} → (TreeNode A → Bool) → Forest A → Option (TreeNode A)
  find_children search_fn nil = none
  find_children search_fn (cons c cs) =
      let later = find_children search_fn cs in first_found (find search_fn c) later

-- `findPath` of `getPath`; the callbacks of `getPath` are the same tests.
unfoldable mutual
  pub find_path :
      {A : Type 0}
      → (TreeNode A → Bool)
      → TreeNode A
      → List (TreeNode A)
      → Option (List (TreeNode A))
  find_path search_fn (node v cs) current_path =
      let attempt = current_path ++ node v cs ∷ [] in
      let below = find_path_children search_fn cs attempt in
      if search_fn (node v cs) then some attempt else below

  pub find_path_children :
      {A : Type 0} → (TreeNode A → Bool) → Forest A → List (TreeNode A) → Option (List (TreeNode A))
  find_path_children search_fn nil attempt = none
  find_path_children search_fn (cons c cs) attempt =
      let later = find_path_children search_fn cs attempt in
      first_found (find_path search_fn c attempt) later

module _ {A : Type 0} where
  -- `walk`, with as much fuel as the loop makes rounds.
  unfoldable pub walk : TreeNode A → ℕ → Option (List (Visit A))
  unfolding walk_loop count
  walk t depth = walk_loop (count t) (record { depth = depth; tree = t } ∷ [])

  unfoldable pub size : TreeNode A → Option ℕ
  unfolding walk
  size t = elim (walk t 0) [ none ↦ none | some visits ↦ some (length visits) ]

  unfoldable pub get_path : (TreeNode A → Bool) → TreeNode A → Option (List (TreeNode A))
  unfolding find_path
  get_path search_fn t = find_path search_fn t []
