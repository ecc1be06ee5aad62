-- ===== src/Timeline/Tree/Search.antt =====
-- `find` and `getPath` against the walk.
use teletrace.Base.{
  ℕ, ◌+◌, ◌≡◌, ◌⊎◌, refl, sym, ◌∙◌, inl, inr, Bool, Option, none, some, List, [], ◌∷◌, ◌++◌, arith,
  if◌then◌else◌, Bool-cases, Option-cases, some_inj,
}
use mathlib.Core.List.{append_assoc}
use teletrace.Timeline.Tree.{
  TreeNode, node, Forest, nil, cons, Visit, find, find_children, find_path, find_path_children,
  get_path, first_found,
}
use teletrace.Timeline.Tree.Walk.{preorder, preorder_forest}

-- The first visit whose node passes the test.
abbrev pub first_visited : {A : Type 0} → (TreeNode A → Bool) → List (Visit A) → Option (TreeNode A)
first_visited p [] = none
first_visited p (v ∷ vs) = if p v.tree then some v.tree else first_visited p vs

first-append :
    {A : Type 0} (p : TreeNode A → Bool) (vs ws : List (Visit A))
    → first_visited p (vs ++ ws) ≡ first_found (first_visited p vs) (first_visited p ws)
first-append p [] ws = refl
first-append p (v ∷ vs) ws = ground (arith, first-append p vs ws)

mutual
  unfolding find preorder

  find-preorder :
      {A : Type 0} (p : TreeNode A → Bool) (d : ℕ) (t : TreeNode A)
      → find p t ≡ first_visited p (preorder d t)
  find-preorder p d (node v cs) = ground (arith, find-forest p (d + 1) cs)

  find-forest :
      {A : Type 0} (p : TreeNode A → Bool) (d : ℕ) (cs : Forest A)
      → find_children p cs ≡ first_visited p (preorder_forest d cs)
  find-forest p d nil = refl
  find-forest p d (cons c cs) = ground (
    arith,
    find-preorder p d c,
    find-forest p d cs,
    first-append p (preorder d c) (preorder_forest d cs),
  )

-- A tree is a child of a node.
abbrev pub IsIn : {A : Type 0} → TreeNode A → Forest A → Type 0
IsIn t nil = ⊥
IsIn t (cons c cs) = (t ≡ c) ⊎ IsIn t cs

-- A way from a node down to its last node, each a child of the one before.
abbrev pub IsWay : {A : Type 0} → TreeNode A → List (TreeNode A) → TreeNode A → Type 0
IsWay t [] last = t ≡ last
IsWay (node v cs) (u ∷ us) last = IsIn u cs × IsWay u us last

-- The path is `current_path`, then the node, then a way down to the node that `find` gives.
abbrev pub IsPathTo :
    {A : Type 0}
    → (current_path : List (TreeNode A)) → TreeNode A
    → (found : Option (TreeNode A)) → List (TreeNode A)
    → Type 0
IsPathTo {A} current_path t found path =
    (us : List (TreeNode A)) × (last : TreeNode A) × (path ≡ current_path ++ t ∷ us)
    × IsWay t us last
    × (found ≡ some last)

abbrev IsPathIn :
    {A : Type 0}
    → (attempt : List (TreeNode A)) → Forest A
    → (found : Option (TreeNode A)) → List (TreeNode A)
    → Type 0
IsPathIn {A} attempt cs found path =
    (u : TreeNode A) × (us : List (TreeNode A)) × (last : TreeNode A) × (path ≡ attempt ++ u ∷ us)
    × IsIn u cs
    × IsWay u us last
    × (found ≡ some last)

mutual
  unfolding find find_path

  find_path-some :
      {A : Type 0} (p : TreeNode A → Bool) (t : TreeNode A) (current_path path : List (TreeNode A))
      → find_path p t current_path ≡ some path
      → IsPathTo current_path t (find p t) path
  find_path-some p (node v cs) current_path path h = elim (Bool-cases (p (node v cs))) [
    | inl e ↦ rw e ([], node v cs, sym (some_inj (rw e at h)), refl, refl)
    | inr e ↦
        let (u, us, last, same, child, way, found) =
          find_path-some_children p cs (current_path ++ node v cs ∷ []) path (rw e at h) in
        rw e (
          u ∷ us,
          last,
          same ∙ append_assoc current_path (node v cs ∷ []) (u ∷ us),
          (child, way),
          found,
        )
  ]

  find_path-some_children :
      {A : Type 0} (p : TreeNode A → Bool) (cs : Forest A) (attempt path : List (TreeNode A))
      → find_path_children p cs attempt ≡ some path
      → IsPathIn attempt cs (find_children p cs) path
  find_path-some_children p nil attempt path h = cc
  find_path-some_children p (cons c cs) attempt path h =
      elim (Option-cases (find_path p c attempt)) [
        | inl e ↦
            let (u, us, last, same, child, way, found) =
              find_path-some_children p cs attempt path (rw e at h) in
            rw (find_path-none p c attempt e) (u, us, last, same, inr child, way, found)
        | inr (match, e) ↦
            let (us, last, same, way, found) = find_path-some p c attempt match e in
            rw found (c, us, last, sym (some_inj (rw e at h)) ∙ same, inl refl, way, refl)
      ]

  find_path-none :
      {A : Type 0} (p : TreeNode A → Bool) (t : TreeNode A) (current_path : List (TreeNode A))
      → find_path p t current_path ≡ none
      → find p t ≡ none
  find_path-none p (node v cs) current_path h = elim (Bool-cases (p (node v cs))) [
    | inl e ↦ cc (rw e at h)
    | inr e ↦ rw e (find_path-none_children p cs (current_path ++ node v cs ∷ []) (rw e at h))
  ]

  find_path-none_children :
      {A : Type 0} (p : TreeNode A → Bool) (cs : Forest A) (attempt : List (TreeNode A))
      → find_path_children p cs attempt ≡ none
      → find_children p cs ≡ none
  find_path-none_children p nil attempt h = refl
  find_path-none_children p (cons c cs) attempt h = elim (Option-cases (find_path p c attempt)) [
    | inl e ↦ rw (find_path-none p c attempt e) (find_path-none_children p cs attempt (rw e at h))
    | inr (match, e) ↦ cc (rw e at h)
  ]

-- `find` gives the first node in preorder that passes the test. `getPath` finds a path exactly if
-- `find` finds a node: it leads from the root to that node, each of its nodes a child of the one
-- before.
pub find-get_path :
    {A : Type 0} (p : TreeNode A → Bool) (t : TreeNode A)
    → (find p t ≡ first_visited p (preorder 0 t))
      × (get_path p t ≡ none → find p t ≡ none)
      × ((path : List (TreeNode A)) → get_path p t ≡ some path → IsPathTo [] t (find p t) path)
unfolding get_path
find-get_path p t = (find-preorder p 0 t, find_path-none p t [], find_path-some p t [])
