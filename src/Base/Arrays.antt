-- ===== src/Base/Arrays.antt =====
-- What the source uses of JavaScript's arrays: `findIndex`, `splice(i, 1)`, and their effect on
-- the first item that meets a test.
use Prim.Native.Nat.{ℕ, zero, suc, ◌-◌}
use mathlib.Core.Path.{◌≡◌, refl, ap}
use mathlib.Core.Bool.{Bool}
use mathlib.Core.Option.{none}
use mathlib.Core.Logic.{◌≢◌, ◌⊎◌, inl, inr}
use mathlib.Core.List.{List, [], ◌∷◌, ◌++◌}
use native.Mathlib.Omega.{arith}
use teletrace.Base.Tests.{if◌then◌else◌, Bool-cases}
use teletrace.Base.Lists.{length, find}

-- `negsuc n` is -(n + 1).
pub data ℤ : Type 0 where
  pos : ℕ → ℤ
  negsuc : ℕ → ℤ

abbrev pub shift : ℤ → ℤ
shift (pos n) = pos (suc n)
shift (negsuc n) = negsuc n

module _ {ℓ} {A : Type ℓ} where
  -- -1 where no item meets the test.
  unfoldable pub find_index : (A → Bool) → List A → ℤ
  find_index p [] = negsuc 0
  find_index p (x ∷ xs) = if p x then pos 0 else shift (find_index p xs)

  abbrev pub remove_at : List A → ℕ → List A
  remove_at [] i = []
  remove_at (x ∷ xs) zero = xs
  remove_at (x ∷ xs) (suc i) = x ∷ remove_at xs i

  -- `xs.splice(i, 1)`: a negative start counts from the end of the array, and not below 0.
  unfoldable pub splice_one : List A → ℤ → List A
  splice_one xs (pos i) = remove_at xs i
  splice_one xs (negsuc n) = remove_at xs (length xs - suc n)

  abbrev pub remove_first : (A → Bool) → List A → List A
  remove_first p [] = []
  remove_first p (x ∷ xs) = if p x then xs else x ∷ remove_first p xs

  abbrev pub update_first : (A → Bool) → A → List A → List A
  update_first p v [] = []
  update_first p v (x ∷ xs) = if p x then v ∷ xs else x ∷ update_first p v xs

  -- The index stands for the item that `find` finds, and is -1 where it finds none.
  pub find_index-find :
      (p : A → Bool) (xs : List A)
      → ((find p xs ≡ none) × (find_index p xs ≡ negsuc 0) × (remove_first p xs ≡ xs))
        ⊎ ((i : ℕ) × (find_index p xs ≡ pos i)
            × (find p xs ≢ none)
            × (remove_at xs i ≡ remove_first p xs))
  unfolding find_index
  find_index-find p [] = inl (refl, refl, refl)
  find_index-find p (x ∷ xs) = elim (Bool-cases (p x)) [
    | inl e ↦ inr (0, rw e, ground arith, rw e)
    | inr e ↦ elim (find_index-find p xs) [
      | inl (none_found, i, same) ↦ inl (ground arith, rw (e, i), rw (e, same))
      | inr (i, found, some_found, removed) ↦
          inr (suc i, rw (e, found), rw e some_found, rw (e, removed))
    ]
  ]

  pub splice_one-find_index :
      (p : A → Bool) (xs : List A)
      → find p xs ≢ none
      → splice_one xs (find_index p xs) ≡ remove_first p xs
  unfolding splice_one
  splice_one-find_index p xs h = elim (find_index-find p xs) [
    | inl (absent, _, _) ↦ absurd (h absent)
    | inr (i, found, _, removed) ↦ rw found removed
  ]

  pub splice_one-find_index_absent :
      (p : A → Bool) (xs : List A)
      → find p xs ≡ none
      → splice_one xs (find_index p xs) ≡ remove_at xs (length xs - 1)
  unfolding splice_one
  splice_one-find_index_absent p xs h = elim (find_index-find p xs) [
    | inl (_, i, _) ↦ rw i
    | inr (_, _, found, _) ↦ absurd (found h)
  ]

  pub remove_first_absent : (p : A → Bool) (xs : List A) → find p xs ≡ none → remove_first p xs ≡ xs
  remove_first_absent p [] h = refl
  remove_first_absent p (x ∷ xs) h = ground (arith, remove_first_absent p xs)

  pub remove_at_last : (xs : List A) (x : A) → remove_at (xs ++ x ∷ []) (length xs) ≡ xs
  remove_at_last [] x = refl
  remove_at_last (y ∷ ys) x = ap (◌∷◌ y) (remove_at_last ys x)
