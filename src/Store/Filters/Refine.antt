-- ===== src/Store/Filters/Refine.antt =====
-- The recipes without identities: what each does to the list of filters.
use teletrace.Base.{
  ℕ, zero, suc, ◌≤◌, ◌<◌, ◌≡◌, ◌↔◌, refl, ap, Bool, true, false, Option, none, some, List, [], ◌∷◌,
  ◌++◌, get_or, if◌then◌else◌, length, find, splice_one-find_index, splice_one-find_index_absent,
  find_index-find, inl, inr, remove_first, remove_at, update_first, arith, Bool-cases, eq_iff, ◌-◌,
  String, sym, subst, is_some, Option-cases,
}
use teletrace.Search.Types.{Operator, operator_eq_iff, KeyValueFilter, SearchFilter}
use teletrace.Store.Filters.{
  Draft, draft_from, finish, has_structure, like, like_draft, write,
  handle_pre_existing_filter_override, create_or_update_recipe, delete_recipe,
}

module _ {N : Type 0} where
  pub like_iff :
      (g f : SearchFilter N)
      → (like g f ≡ true) ↔ (
          (f.key_value_filter.key ≡ g.key_value_filter.key)
          × (f.key_value_filter.operator ≡ g.key_value_filter.operator))
  unfolding like
  like_iff g f = ground (
    arith,
    eq_iff f.key_value_filter.key g.key_value_filter.key,
    operator_eq_iff f.key_value_filter.operator g.key_value_filter.operator,
  )

  finish-draft : (n : ℕ) (fs : List (SearchFilter N)) → finish (draft_from n fs) ≡ fs
  finish-draft n [] = refl
  finish-draft n (f ∷ fs) = ap (◌∷◌ f) (finish-draft (suc n) fs)

  -- A draft's slots are numbered upwards, so a write below them changes nothing.
  write_below :
      (s n : ℕ) (v : KeyValueFilter N) (fs : List (SearchFilter N))
      → s < n
      → write s v (draft_from n fs) ≡ draft_from n fs
  write_below s n v [] h = refl
  write_below s n v (f ∷ fs) h = ground (arith, write_below s (suc n) v fs)

  abbrev test : (SearchFilter N → Bool) → Draft N → Bool
  test p d = p d.filter

  find-draft_le :
      (p : SearchFilter N → Bool) (n : ℕ) (fs : List (SearchFilter N)) (d : Draft N)
      → find (test p) (draft_from n fs) ≡ some d
      → n ≤ d.slot
  find-draft_le p n [] d h = cc
  find-draft_le p n (f ∷ fs) d h = ground (arith, find-draft_le p (suc n) fs d)

  find-draft_none :
      (p : SearchFilter N → Bool) (n : ℕ) (fs : List (SearchFilter N))
      → (find (test p) (draft_from n fs) ≡ none) ↔ (find p fs ≡ none)
  find-draft_none p n [] = ((λ h. refl), (λ h. refl))
  find-draft_none p n (f ∷ fs) = ground (arith, find-draft_none p (suc n) fs)

  -- Writing through the found object updates the first item that meets the test.
  finish-write :
      (p : SearchFilter N → Bool) (n : ℕ) (fs : List (SearchFilter N)) (v : KeyValueFilter N)
      (d : Draft N)
      → find (test p) (draft_from n fs) ≡ some d
      → finish (write d.slot v (draft_from n fs))
        ≡ update_first p (record { key_value_filter = v }) fs
  finish-write p n [] v d h = cc
  finish-write p n (f ∷ fs) v d h = ground (
    arith,
    write_below n (suc n) v fs,
    finish-write p (suc n) fs v d,
    find-draft_le p (suc n) fs d,
    finish-draft (suc n) fs,
  )

  finish-write_below-remove :
      (q : SearchFilter N → Bool) (s n : ℕ) (v : KeyValueFilter N) (fs : List (SearchFilter N))
      → s < n
      → finish (write s v (remove_first (test q) (draft_from n fs))) ≡ remove_first q fs
  finish-write_below-remove q s n v [] h = refl
  finish-write_below-remove q s n v (f ∷ fs) h = ground (
    arith,
    write_below s (suc n) v fs,
    finish-draft (suc n) fs,
    finish-write_below-remove q s (suc n) v fs,
  )

  -- Where the override takes out another item than the one found, the write still reaches it.
  finish-write-remove :
      (p q : SearchFilter N → Bool) (n : ℕ) (fs : List (SearchFilter N)) (v : KeyValueFilter N)
      (d : Draft N)
      → ((f : SearchFilter N) → p f ≡ true → q f ≡ false)
      → find (test p) (draft_from n fs) ≡ some d
      → finish (write d.slot v (remove_first (test q) (draft_from n fs)))
        ≡ update_first p (record { key_value_filter = v }) (remove_first q fs)
  finish-write-remove p q n [] v d a h = cc
  finish-write-remove p q n (f ∷ fs) v d a h = ground (
    arith,
    a f,
    finish-write p (suc n) fs v d,
    write_below n (suc n) v fs,
    finish-write-remove p q (suc n) fs v d a,
    finish-write_below-remove q n (suc n) v fs,
    find-draft_le p (suc n) fs d,
    finish-draft (suc n) fs,
  )

  -- Where it takes out the very item that was found, the write reaches nothing.
  finish-write-remove_self :
      (p : SearchFilter N → Bool) (n : ℕ) (fs : List (SearchFilter N)) (v : KeyValueFilter N)
      (d : Draft N)
      → find (test p) (draft_from n fs) ≡ some d
      → finish (write d.slot v (remove_first (test p) (draft_from n fs))) ≡ remove_first p fs
  finish-write-remove_self p n [] v d h = cc
  finish-write-remove_self p n (f ∷ fs) v d h = ground (
    arith,
    write_below n (suc n) v fs,
    finish-write-remove_self p (suc n) fs v d,
    find-draft_le p (suc n) fs d,
    finish-draft (suc n) fs,
  )

  finish-remove :
      (q : SearchFilter N → Bool) (n : ℕ) (fs : List (SearchFilter N))
      → finish (remove_first (test q) (draft_from n fs)) ≡ remove_first q fs
  finish-remove q n [] = refl
  finish-remove q n (f ∷ fs) = ground (arith, finish-draft (suc n) fs, finish-remove q (suc n) fs)

  finish-remove_at :
      (n i : ℕ) (fs : List (SearchFilter N))
      → finish (remove_at (draft_from n fs) i) ≡ remove_at fs i
  finish-remove_at n i [] = refl
  finish-remove_at n zero (f ∷ fs) = finish-draft (suc n) fs
  finish-remove_at n (suc i) (f ∷ fs) = ap (◌∷◌ f) (finish-remove_at (suc n) i fs)

  length-draft : (n : ℕ) (fs : List (SearchFilter N)) → length (draft_from n fs) ≡ length fs
  length-draft n [] = refl
  length-draft n (f ∷ fs) = ap suc (length-draft (suc n) fs)

  finish-append :
      (ds : List (Draft N)) (d : Draft N) → finish (ds ++ d ∷ []) ≡ finish ds ++ d.filter ∷ []
  finish-append [] d = refl
  finish-append (e ∷ ds) d = ap (◌∷◌ e.filter) (finish-append ds d)

  override-remove :
      (g : SearchFilter N) (ds : List (Draft N))
      → handle_pre_existing_filter_override g ds ≡ remove_first (like_draft g) ds
  unfolding handle_pre_existing_filter_override
  override-remove g ds = elim (find_index-find (like_draft g) ds) [
    | inl (_, i, same) ↦ rw i (sym same)
    | inr (i, found, _, removed) ↦ rw (found) removed
  ]

  -- The slice's contract, on plain lists: a filter replaces the one that its target finds, after
  -- the one of its own structure is gone, and a filter with no target is added at the end.
  unfoldable pub create_or_update :
      SearchFilter N → Option (SearchFilter N) → List (SearchFilter N) → List (SearchFilter N)
  create_or_update f previous fs =
      if is_some (find (like (get_or previous f)) fs)
      then (elim previous [
        | none ↦ update_first (like f) f fs
        | some g ↦
            (if like g f
              then remove_first (like g) fs
              else update_first (like g) f (remove_first (like f) fs))
      ])
      else fs ++ f ∷ []

  -- Two filters that a third is like find the same items.
  pub like-eq : (g f : SearchFilter N) → like g f ≡ true → like g ≡ like f
  unfolding like
  like-eq g f h = let (k, o) = (like_iff g f).0 h in rw (k, o)

  like_disjoint : (g f h : SearchFilter N) → like g f ≡ false → like g h ≡ true → like f h ≡ false
  like_disjoint g f h = ground (arith, like_iff g f, like_iff g h, like_iff f h)

  found-draft :
      (p : SearchFilter N → Bool) (fs : List (SearchFilter N)) (d : Draft N)
      → find (test p) (draft_from 0 fs) ≡ some d
      → is_some (find p fs) ≡ true
  found-draft p fs d h = ground (arith, find-draft_none p 0 fs)

  absent-draft :
      (g : SearchFilter N) (fs : List (SearchFilter N))
      → find (like_draft g) (draft_from 0 fs) ≡ none
      → is_some (find (like g) fs) ≡ false
  absent-draft g fs h = ground (arith, find-draft_none (like g) 0 fs)

  write-override_self :
      (f g : SearchFilter N) (fs : List (SearchFilter N)) (d : Draft N)
      → like g f ≡ true
      → find (like_draft g) (draft_from 0 fs) ≡ some d
      → finish (write d.slot f.key_value_filter (remove_first (like_draft f) (draft_from 0 fs)))
        ≡ remove_first (like g) fs
  write-override_self f g fs d same e =
      subst
        (λ (p : SearchFilter N → Bool).
          finish (write d.slot f.key_value_filter (remove_first (test p) (draft_from 0 fs)))
          ≡ remove_first (like g) fs)
        (like-eq g f same) (finish-write-remove_self (like g) 0 fs f.key_value_filter d e)

  added-draft :
      (f : SearchFilter N) (fs : List (SearchFilter N)) (n : ℕ)
      → finish (draft_from 0 fs ++ record { slot = n; filter = f } ∷ []) ≡ fs ++ f ∷ []
  added-draft f fs n = rw (finish-append, finish-draft)

  -- The recipe over drafts, references and all, does what the contract says.
  pub finish-create_or_update :
      (f : SearchFilter N) (previous : Option (SearchFilter N)) (fs : List (SearchFilter N))
      → finish (create_or_update_recipe f previous (draft_from 0 fs))
        ≡ create_or_update f previous fs
  unfolding create_or_update_recipe create_or_update
  finish-create_or_update f none fs = elim (Option-cases (find (like_draft f) (draft_from 0 fs))) [
    | inl e ↦ rw (e, create_or_update_recipe, absent-draft f fs e) (added-draft f fs _)
    | inr (d, e) ↦
        rw (e, create_or_update_recipe, found-draft (like f) fs d e)
          (finish-write (like f) 0 fs f.key_value_filter d e)
  ]
  finish-create_or_update f (some g) fs =
      elim (Option-cases (find (like_draft g) (draft_from 0 fs))) [
        | inl e ↦ rw (e, create_or_update_recipe, absent-draft g fs e) (added-draft f fs _)
        | inr (d, e) ↦
            rw (e, create_or_update_recipe, found-draft (like g) fs d e, override-remove)
              (elim (Bool-cases (like g f)) [
                | inl same ↦ rw same (write-override_self f g fs d same e)
                | inr differ ↦ rw differ (
                    finish-write-remove (like g) (like f) 0 fs f.key_value_filter d
                      (λ h. like_disjoint g f h differ) e)
              ])
      ]

  -- What `deleteFilter` does: the filter of the structure goes, and where there is none the last.
  unfoldable pub delete_filter : String → Operator → List (SearchFilter N) → List (SearchFilter N)
  delete_filter key operator fs =
      if is_some (find (has_structure key operator) fs)
      then remove_first (has_structure key operator) fs
      else remove_at fs (length fs - 1)

  pub finish-delete_filter :
      (key : String) (operator : Operator) (fs : List (SearchFilter N))
      → finish (delete_recipe key operator (draft_from 0 fs)) ≡ delete_filter key operator fs
  unfolding delete_recipe delete_filter
  finish-delete_filter key operator fs =
      let p = has_structure key operator in
      elim (Option-cases (find (test p) (draft_from 0 fs))) [
        | inl e ↦
            rw
              (
                splice_one-find_index_absent (test p) (draft_from 0 fs) e,
                (find-draft_none p 0 fs).0 e,
                length-draft,
              )
              (finish-remove_at 0 (length fs - 1) fs)
        | inr (d, e) ↦
            rw
              (
                splice_one-find_index (test p) (draft_from 0 fs) (ground arith),
                found-draft p fs d e,
              )
              (finish-remove p 0 fs)
      ]
