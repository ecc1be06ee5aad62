-- ===== src/Store/Filters/Unique.antt =====
-- The filters slice's contract: which filters an operation leaves, and that their keys and
-- operators stay distinct.
use teletrace.Base.{
  ◌≡◌, ◌⊎◌, ℕ, zero, suc, refl, true, false, Option, none, some, List, [], ◌∷◌, ◌++◌, String,
  if◌then◌else◌, find, remove_first, arith, is_some, get_or, inl, inr, Option-cases, Bool-cases,
  remove_at_last, length, length-append, ◌-◌, remove_at,
}
use teletrace.Search.Types.{Operator, SearchFilter}
use teletrace.Store.Filters.{like, has_structure}
use teletrace.Store.Filters.Refine.{create_or_update, delete_filter}
use teletrace.Store.Filters.Lookup.{
  IsUnique, like_self, like_sym, like_trans, find_alike, find-append, find-update_self, find-remove,
  find-update, remove-IsUnique, update-IsUnique, append-IsUnique,
}

module _ {N : Type 0} where
  pub find-create :
      (h f : SearchFilter N) (fs : List (SearchFilter N))
      → find (like h) (create_or_update f none fs) ≡ (if like h f then some f else find (like h) fs)
  unfolding create_or_update
  find-create h f fs = elim (Bool-cases (is_some (find (like f) fs))) [
    | inl e ↦ rw e (find-update_self h f fs e)
    | inr e ↦ rw e (ground (arith, find-append (like h) fs f, find_alike h f fs))
  ]

  pub find-edit :
      (h f g : SearchFilter N) (fs : List (SearchFilter N))
      → IsUnique fs
      → is_some (find (like g) fs) ≡ true
      → like g f ≡ false
      → find (like h) (create_or_update f (some g) fs)
        ≡ (if like h f then some f else if like h g then none else find (like h) fs)
  unfolding create_or_update
  find-edit h f g fs u e d =
      rw (e, d)
        (ground (
          arith,
          find-update h g f (remove_first (like f) fs) (remove-IsUnique f fs u),
          find-remove f f fs u,
          find-remove g f fs u,
          find-remove h f fs u,
          like_trans f f f,
          like_trans g f g,
          like_sym f g,
          like_self f,
        ))

  pub find-edit_same :
      (h f g : SearchFilter N) (fs : List (SearchFilter N))
      → IsUnique fs
      → is_some (find (like g) fs) ≡ true
      → like g f ≡ true
      → find (like h) (create_or_update f (some g) fs)
        ≡ (if like h f then none else find (like h) fs)
  unfolding create_or_update
  find-edit_same h f g fs u e d =
      rw (e, d) (ground (arith, find-remove h g fs u, like_sym h g, like_trans g f h, like_sym h f))

  pub find-edit_absent :
      (h f g : SearchFilter N) (fs : List (SearchFilter N))
      → is_some (find (like g) fs) ≡ false
      → create_or_update f (some g) fs ≡ fs ++ f ∷ []
  unfolding create_or_update
  find-edit_absent h f g fs e = rw e

  create-IsUnique :
      (f : SearchFilter N) (fs : List (SearchFilter N))
      → IsUnique fs
      → IsUnique (create_or_update f none fs)
  unfolding create_or_update
  create-IsUnique f fs u = elim (Option-cases (find (like f) fs)) [
    | inl e ↦ rw e (append-IsUnique f fs u e)
    | inr (_, e) ↦ rw e (update-IsUnique f f fs u (inr (like_self f)))
  ]

  edit-IsUnique :
      (f g : SearchFilter N) (fs : List (SearchFilter N))
      → IsUnique fs
      → is_some (find (like g) fs) ≡ true
      → IsUnique (create_or_update f (some g) fs)
  unfolding create_or_update
  edit-IsUnique f g fs u e = rw e (elim (Bool-cases (like g f)) [
    | inl d ↦ rw d (remove-IsUnique g fs u)
    | inr d ↦ rw d (
        update-IsUnique g f _ (remove-IsUnique f fs u)
          (inl (ground (arith, find-remove f f fs u, like_self f))))
  ])

  -- An edit whose target is gone adds its filter, and may then repeat a structure.
  pub create_or_update-IsUnique :
      (f : SearchFilter N) (previous : Option (SearchFilter N)) (fs : List (SearchFilter N))
      → IsUnique fs
      → (previous ≡ none) ⊎ (is_some (find (like (get_or previous f)) fs) ≡ true)
      → IsUnique (create_or_update f previous fs)
  create_or_update-IsUnique f none fs u h = create-IsUnique f fs u
  create_or_update-IsUnique f (some g) fs u h = edit-IsUnique f g fs u (ground arith)

  remove_at-absent :
      (h : SearchFilter N) (i : ℕ) (fs : List (SearchFilter N))
      → find (like h) fs ≡ none
      → find (like h) (remove_at fs i) ≡ none
  remove_at-absent h i [] n = refl
  remove_at-absent h zero (x ∷ fs) n = ground arith
  remove_at-absent h (suc i) (x ∷ fs) n = ground (arith, remove_at-absent h i fs)

  remove_at-IsUnique :
      (i : ℕ) (fs : List (SearchFilter N)) → IsUnique fs → IsUnique (remove_at fs i)
  remove_at-IsUnique i [] u = tt
  remove_at-IsUnique zero (x ∷ fs) u = u.1
  remove_at-IsUnique (suc i) (x ∷ fs) u = (remove_at-absent x i fs u.0, remove_at-IsUnique i fs u.1)

  -- The test of `deleteFilter` is that of any filter with the key and the operator.
  pub has_structure-like :
      (f : SearchFilter N)
      → has_structure f.key_value_filter.key f.key_value_filter.operator ≡ like f
  unfolding like
  has_structure-like f = refl

  pub delete-IsUnique :
      (f : SearchFilter N) (fs : List (SearchFilter N))
      → IsUnique fs
      → IsUnique (delete_filter f.key_value_filter.key f.key_value_filter.operator fs)
  unfolding delete_filter
  delete-IsUnique f fs u =
      rw (has_structure-like f) (elim (Bool-cases (is_some (find (like f) fs))) [
        | inl e ↦ rw e (remove-IsUnique f fs u)
        | inr e ↦ rw e (remove_at-IsUnique _ fs u)
      ])

  pub find-delete :
      (h f : SearchFilter N) (fs : List (SearchFilter N))
      → IsUnique fs
      → is_some (find (like f) fs) ≡ true
      → find (like h) (delete_filter f.key_value_filter.key f.key_value_filter.operator fs)
        ≡ (if like h f then none else find (like h) fs)
  unfolding delete_filter
  find-delete h f fs u e = rw (has_structure-like f, e) (find-remove h f fs u)

  pub delete_absent :
      (key : String) (operator : Operator) (fs : List (SearchFilter N)) (f : SearchFilter N)
      → find (has_structure key operator) (fs ++ f ∷ []) ≡ none
      → delete_filter key operator (fs ++ f ∷ []) ≡ fs
  unfolding delete_filter
  delete_absent key operator fs f e =
      let n : length (fs ++ f ∷ []) - 1 ≡ length fs = omega (arith, length-append fs (f ∷ [])) in
      rw (e, n) (remove_at_last fs f)
