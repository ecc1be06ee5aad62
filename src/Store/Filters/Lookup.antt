-- ===== src/Store/Filters/Lookup.antt =====
-- What is found in the filters after an operation of the slice, at every key and operator.
use teletrace.Base.{
  ◌≡◌, ◌⊎◌, refl, ap, Bool, true, false, none, some, List, [], ◌∷◌, ◌++◌, if◌then◌else◌, find,
  remove_first, update_first, arith, is_some, Bool-cases, inl, inr,
}
use teletrace.Search.Types.{SearchFilter}
use teletrace.Store.Filters.{like}
use teletrace.Store.Filters.Refine.{like_iff, like-eq}

module _ {N : Type 0} where
  -- No two filters have the same key and operator.
  abbrev pub IsUnique : List (SearchFilter N) → Type 0
  IsUnique [] = Unit
  IsUnique (f ∷ fs) = (find (like f) fs ≡ none) × IsUnique fs

  pub like_self : (f : SearchFilter N) → like f f ≡ true
  like_self f = (like_iff f f).1 (refl, refl)

  pub like_sym : (f g : SearchFilter N) → like f g ≡ like g f
  like_sym f g = ground (arith, like_iff f g, like_iff g f)

  pub like_trans : (f g h : SearchFilter N) → like f g ≡ true → like f h ≡ like g h
  like_trans f g h = ground (arith, like_iff f g, like_iff f h, like_iff g h)

  pub find_alike :
      (f g : SearchFilter N) (fs : List (SearchFilter N))
      → like f g ≡ true
      → find (like f) fs ≡ find (like g) fs
  find_alike f g fs h = ap (λ p. find p fs) (like-eq f g h)

  pub find-append :
      (p : SearchFilter N → Bool) (fs : List (SearchFilter N)) (f : SearchFilter N)
      → find p (fs ++ f ∷ [])
        ≡ (if is_some (find p fs) then find p fs else (if p f then some f else none))
  find-append p [] f = refl
  find-append p (g ∷ fs) f = ground (arith, find-append p fs f)

  pub find-update_self :
      (h f : SearchFilter N) (fs : List (SearchFilter N))
      → is_some (find (like f) fs) ≡ true
      → find (like h) (update_first (like f) f fs) ≡ (if like h f then some f else find (like h) fs)
  find-update_self h f [] e = cc
  find-update_self h f (g ∷ fs) e = ground (
    arith,
    find-update_self h f fs,
    like_sym f g,
    like_trans h f g,
    like_sym h f,
    like_trans f g h,
    like_sym h g,
  )

  pub find-remove :
      (h g : SearchFilter N) (fs : List (SearchFilter N))
      → IsUnique fs
      → find (like h) (remove_first (like g) fs) ≡ (if like h g then none else find (like h) fs)
  find-remove h g [] u = ground arith
  find-remove h g (f ∷ fs) u = ground (
    arith,
    find-remove h g fs u.1,
    like_trans h g f,
    find_alike h f fs,
    like_sym g f,
    like_trans g f h,
    like_sym h f,
    like_sym h g,
  )

  pub find-update :
      (h g f : SearchFilter N) (fs : List (SearchFilter N))
      → IsUnique fs
      → find (like f) fs ≡ none
      → is_some (find (like g) fs) ≡ true
      → like g f ≡ false
      → find (like h) (update_first (like g) f fs)
        ≡ (if like h f then some f else if like h g then none else find (like h) fs)
  find-update h g f [] u n e d = cc
  find-update h g f (x ∷ fs) u n e d = ground (
    arith,
    find-update h g f fs u.1,
    like_trans h g x,
    find_alike h x fs,
    like_trans h f x,
    like_sym g x,
    like_trans g x h,
    like_sym h x,
    like_sym h g,
  )

  pub remove-absent :
      (h g : SearchFilter N) (fs : List (SearchFilter N))
      → find (like h) fs ≡ none
      → find (like h) (remove_first (like g) fs) ≡ none
  remove-absent h g [] n = refl
  remove-absent h g (x ∷ fs) n = ground (arith, remove-absent h g fs)

  pub remove-IsUnique :
      (g : SearchFilter N) (fs : List (SearchFilter N))
      → IsUnique fs
      → IsUnique (remove_first (like g) fs)
  remove-IsUnique g [] u = tt
  remove-IsUnique g (x ∷ fs) u = elim (Bool-cases (like g x)) [
    | inl e ↦ rw e u.1
    | inr e ↦ rw e (remove-absent x g fs u.0, remove-IsUnique g fs u.1)
  ]

  update-absent :
      (h g f : SearchFilter N) (fs : List (SearchFilter N))
      → like h f ≡ false
      → find (like h) fs ≡ none
      → find (like h) (update_first (like g) f fs) ≡ none
  update-absent h g f [] d n = refl
  update-absent h g f (x ∷ fs) d n = ground (arith, update-absent h g f fs)

  -- An update by a filter whose structure occurs nowhere else keeps the structures distinct.
  pub update-IsUnique :
      (g f : SearchFilter N) (fs : List (SearchFilter N))
      → IsUnique fs
      → (find (like f) fs ≡ none) ⊎ (like g f ≡ true)
      → IsUnique (update_first (like g) f fs)
  update-IsUnique g f [] u h = tt
  update-IsUnique g f (x ∷ fs) u h = elim (Bool-cases (like g x)) [
    | inl e ↦ rw e (ground (arith, find_alike f x fs, like_trans g f x), u.1)
    | inr e ↦ rw e (
      update-absent x g f fs (ground (arith, like_sym x f, like_trans g f x, like_sym g f)) u.0,
      update-IsUnique g f fs u.1 (ground arith),
    )
  ]

  pub append-IsUnique :
      (f : SearchFilter N) (fs : List (SearchFilter N))
      → IsUnique fs
      → find (like f) fs ≡ none
      → IsUnique (fs ++ f ∷ [])
  append-IsUnique f [] u n = (refl, tt)
  append-IsUnique f (x ∷ fs) u n = (
    ground (arith, find-append (like x) fs f, like_sym x f),
    append-IsUnique f fs u.1 (ground arith),
  )
