-- ===== src/TagValues/Sorted.antt =====
-- The order of the merged values.
use mathlib.Core.List.Perm
use mathlib.Core.List.{Perm}
use teletrace.Base.{
  ℕ, ◌≤◌, ◌≡◌, inl, inr, Bool, true, false, List, [], ◌∷◌, arith, All, All-map_pred, values,
  Bool-cases,
}
use teletrace.Numbers.{Numbers}
use teletrace.Search.Types.{Scalar, TagValue}
use teletrace.TagValues.Merge.{comes_first, insert, sort, tag_values_map, merge_tag_values}

module _ {N : Type 0} where
  -- The counts do not increase.
  abbrev pub IsDescending : List (TagValue N) → Type 0
  IsDescending [] = Unit
  IsDescending (t ∷ ts) = All (λ u. u.count ≤ t.count) ts × IsDescending ts

module _ {N : Type 0} (js : Numbers N) (at_least : Scalar N → Scalar N → Bool) where
  insert-perm : (t : TagValue N) (ts : List (TagValue N)) → Perm (insert js at_least t ts) (t ∷ ts)
  unfolding insert
  insert-perm t [] = Perm.refl _
  insert-perm t (u ∷ us) = elim (Bool-cases (comes_first js at_least t u)) [
    | inl e ↦ rw e (Perm.refl _)
    | inr e ↦ rw e (Perm.trans (Perm.cons u (insert-perm t us)) (Perm.swap t u us))
  ]

  sort-perm : (ts : List (TagValue N)) → Perm (sort js at_least ts) ts
  unfolding sort
  sort-perm [] = Perm.refl _
  sort-perm (t ∷ ts) = Perm.trans (insert-perm t (sort js at_least ts)) (Perm.cons t (sort-perm ts))

  insert-All :
      (n : ℕ) (t : TagValue N) (ts : List (TagValue N))
      → t.count ≤ n
      → All (λ u. u.count ≤ n) ts
      → All (λ u. u.count ≤ n) (insert js at_least t ts)
  unfolding insert
  insert-All n t [] h a = (h, tt)
  insert-All n t (u ∷ us) h a = elim (Bool-cases (comes_first js at_least t u)) [
    | inl e ↦ rw e (h, a)
    | inr e ↦ rw e (a.0, insert-All n t us h a.1)
  ]

  first-le : (t u : TagValue N) → comes_first js at_least t u ≡ true → u.count ≤ t.count
  unfolding comes_first
  first-le t u h = ground arith

  later-le : (t u : TagValue N) → comes_first js at_least t u ≡ false → t.count ≤ u.count
  unfolding comes_first
  later-le t u h = ground arith

  insert-IsDescending :
      (t : TagValue N) (ts : List (TagValue N))
      → IsDescending ts
      → IsDescending (insert js at_least t ts)
  unfolding insert
  insert-IsDescending t [] d = (tt, tt)
  insert-IsDescending t (u ∷ us) d = elim (Bool-cases (comes_first js at_least t u)) [
    | inl e ↦
        let le = first-le t u e in
        rw e ((le, All-map_pred _ _ (λ v (h : v.count ≤ u.count). omega arith) us d.0), d)
    | inr e ↦ rw e (insert-All u.count t us (later-le t u e) d.0, insert-IsDescending t us d.1)
  ]

  sort-IsDescending : (ts : List (TagValue N)) → IsDescending (sort js at_least ts)
  unfolding sort
  sort-IsDescending [] = tt
  sort-IsDescending (t ∷ ts) = insert-IsDescending t (sort js at_least ts) (sort-IsDescending ts)

  -- The merged values are exactly the entries of the merge, each once, in order of falling counts,
  -- however JavaScript compares the values themselves.
  pub merge_tag_values_sorted :
      (current all : List (TagValue N))
      → Perm
          (merge_tag_values js at_least current all)
          (values (tag_values_map js at_least current all))
        × IsDescending (merge_tag_values js at_least current all)
  unfolding merge_tag_values
  merge_tag_values_sorted current all =
      let m = tag_values_map js at_least current all in
      (sort-perm (values m), sort-IsDescending (values m))
