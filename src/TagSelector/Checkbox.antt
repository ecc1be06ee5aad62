-- ===== src/TagSelector/Checkbox.antt =====
-- `handleToggle` of CheckboxList.tsx.
use teletrace.Base.{
  ◌≡◌, refl, inl, inr, Bool, true, false, not, none, List, [], ◌∷◌, ◌++◌, if◌then◌else◌, arith,
  find, find_index, splice_one, find_index-find, eq_iff, remove_first, is_some, ℤ, negsuc, zero,
  Bool-cases,
}
use teletrace.Numbers.{Numbers}
use teletrace.Search.Types.{Scalar, str, num}
use teletrace.Search.Scalars.{scalar_eq}

abbrev is_missing : ℤ → Bool
is_missing (negsuc zero) = true
is_missing _ = false

module _ {N : Type 0} (js : Numbers N) where
  -- `value.indexOf(opt)`.
  unfoldable pub index_of : List (Scalar N) → Scalar N → ℤ
  unfolding scalar_eq find_index
  index_of value opt = find_index (λ v. scalar_eq js v opt) value

  -- `value.indexOf(opt.value) !== -1`.
  unfoldable pub is_checked : List (Scalar N) → Scalar N → Bool
  unfolding index_of
  is_checked value opt = not (is_missing (index_of value opt))

  -- The values that `onChange` gets.
  unfoldable pub handle_toggle : List (Scalar N) → Scalar N → List (Scalar N)
  unfolding index_of splice_one
  handle_toggle value opt =
      let current_index = index_of value opt in
      if is_missing current_index then value ++ opt ∷ [] else splice_one value current_index

  -- `===` is symmetric and transitive, also where it is not reflexive, at NaN.
  pub record IsEquality : Type 0 where
    pub symmetric : (a b : N) → js.equal a b ≡ js.equal b a
    pub transitive : (a b c : N) → js.equal a b ≡ true → js.equal b c ≡ true → js.equal a c ≡ true

  -- No value stands twice.
  abbrev pub IsDistinct : List (Scalar N) → Type 0
  IsDistinct [] = Unit
  IsDistinct (v ∷ vs) = (find (λ w. scalar_eq js w v) vs ≡ none) × IsDistinct vs

  abbrev pub holds : List (Scalar N) → Scalar N → Bool
  holds vs v = is_some (find (λ w. scalar_eq js w v) vs)

  is_checked-holds : (vs : List (Scalar N)) (v : Scalar N) → is_checked vs v ≡ holds vs v
  unfolding is_checked
  is_checked-holds vs v = elim (find_index-find (λ w. scalar_eq js w v) vs) [
    | inl (absent, index, _) ↦ rw (index, absent)
    | inr (i, index, found, _) ↦ rw index (ground arith)
  ]

  toggle-lem :
      (vs : List (Scalar N)) (o : Scalar N)
      → handle_toggle vs o
        ≡ (if holds vs o then remove_first (λ w. scalar_eq js w o) vs else vs ++ o ∷ [])
  unfolding handle_toggle
  toggle-lem vs o = elim (find_index-find (λ w. scalar_eq js w o) vs) [
    | inl (absent, index, _) ↦ rw (index, absent)
    | inr (i, index, found, removed) ↦ rw index (ground arith)
  ]

  module _ (law : IsEquality) where
    scalar_sym : (a b : Scalar N) → scalar_eq js a b ≡ scalar_eq js b a
    unfolding scalar_eq
    scalar_sym (str s) (str t) = ground (arith, eq_iff s t, eq_iff t s)
    scalar_sym (num n) (num m) = law.symmetric n m
    scalar_sym (str s) (num m) = refl
    scalar_sym (num n) (str t) = refl

    scalar_trans :
        (a b c : Scalar N)
        → scalar_eq js a b ≡ true
        → scalar_eq js b c ≡ true
        → scalar_eq js a c ≡ true
    unfolding scalar_eq
    scalar_trans (str s) (str t) (str u) h k = ground (arith, eq_iff s t, eq_iff t u, eq_iff s u)
    scalar_trans (num n) (num m) (num l) h k = law.transitive n m l h k
    scalar_trans _ _ _ h k = cc

    holds-append :
        (vs : List (Scalar N)) (o v : Scalar N)
        → holds (vs ++ o ∷ []) v ≡ (if holds vs v then true else scalar_eq js o v)
    holds-append [] o v = ground arith
    holds-append (w ∷ vs) o v = ground (arith, holds-append vs o v)

    holds_alike :
        (vs : List (Scalar N)) (a b : Scalar N) → scalar_eq js a b ≡ true → holds vs a ≡ holds vs b
    holds_alike [] a b h = refl
    holds_alike (w ∷ vs) a b h =
        ground (arith, holds_alike vs a b h, scalar_trans w a b, scalar_trans w b a, scalar_sym a b)

    holds-remove :
        (vs : List (Scalar N)) (o v : Scalar N)
        → IsDistinct vs
        → holds vs o ≡ true
        → holds (remove_first (λ w. scalar_eq js w o) vs) v
          ≡ (if scalar_eq js o v then false else holds vs v)
    holds-remove [] o v d h = cc
    holds-remove (w ∷ vs) o v d h = ground (
      arith,
      holds-remove vs o v d.1,
      holds_alike vs w v,
      holds_alike vs w o,
      scalar_trans w o v,
      scalar_trans o w v,
      scalar_trans o v w,
      scalar_sym w o,
      scalar_sym w v,
      scalar_sym o v,
      scalar_trans w v o,
    )

    -- Toggling an option that is not NaN checks it if it was not checked and else unchecks it, and
    -- changes no other option, where no value is in the list twice.
    is_checked-handle_toggle :
        (value : List (Scalar N)) (opt v : Scalar N)
        → IsDistinct value
        → scalar_eq js opt opt ≡ true
        → is_checked (handle_toggle value opt) v
          ≡ (if scalar_eq js opt v then not (is_checked value opt) else is_checked value v)
    is_checked-handle_toggle value opt v d h = elim (Bool-cases (holds value opt)) [
      | inl e ↦
          rw (is_checked-holds, is_checked-holds, is_checked-holds, toggle-lem, e)
            (holds-remove value opt v d e)
      | inr e ↦
          rw (is_checked-holds, is_checked-holds, is_checked-holds, toggle-lem, e)
            (ground (arith, holds-append value opt v, holds_alike value opt v))
    ]
