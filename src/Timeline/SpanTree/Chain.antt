-- ===== src/Timeline/SpanTree/Chain.antt =====
-- A chain of ids, each the parent of the one before, up to one without a parent: no id stands twice
-- in it, so it is no longer than a list that has all its ids.
use teletrace.Base.{
  suc, ◌≡◌, ◌≤◌, refl, sym, ap, ◌∙◌, inl, inr, Bool, true, false, ◌||◌, String, Option, none, some,
  List, [], ◌∷◌, length, All, arith, str_eq, eq_iff, some_inj, subst, Bool-cases,
}
use teletrace.Texts.{has}
use teletrace.Timeline.Rows.{delete_id}
use teletrace.Timeline.Rows.Toggle.{has-delete_id}

abbrev IsDistinct : List String → Type 0
IsDistinct [] = Unit
IsDistinct (x ∷ xs) = (has xs x ≡ false) × IsDistinct xs

module _ (parent : String → Option String) where
  abbrev pub IsChain : String → List String → Type 0
  IsChain x [] = parent x ≡ none
  IsChain x (y ∷ ys) = (parent x ≡ some y) × IsChain y ys

  -- Two chains from the same id are of the same length.
  chain-length :
      (x : String) (ys zs : List String) → IsChain x ys → IsChain x zs → length ys ≡ length zs
  chain-length x [] [] p q = refl
  chain-length x [] (z ∷ zs) p (q, qs) = absurd (cc (sym p ∙ q))
  chain-length x (y ∷ ys) [] (p, ps) q = absurd (cc (sym q ∙ p))
  chain-length x (y ∷ ys) (z ∷ zs) (p, ps) (q, qs) =
      let same : y ≡ z = some_inj (sym p ∙ q) in
      ap suc (chain-length z ys zs (subst (λ w. IsChain w ys) same ps) qs)

  IsChain-from :
      (x y : String) (ys : List String)
      → IsChain y ys
      → has (y ∷ ys) x ≡ true
      → (zs : List String) × IsChain x zs × (length zs ≤ length ys)
  unfolding has
  IsChain-from x y [] c h = elim (Bool-cases (str_eq y x)) [
    | inl e ↦ ([], subst (λ w. IsChain w []) ((eq_iff y x).0 e) c, omega arith)
    | inr e ↦ absurd (cc (rw e at h))
  ]
  IsChain-from x y (z ∷ zs) (p, c) h = elim (Bool-cases (str_eq y x)) [
    | inl e ↦ (z ∷ zs, subst (λ w. IsChain w (z ∷ zs)) ((eq_iff y x).0 e) (p, c), omega arith)
    | inr e ↦ let (ws, chain, short) = IsChain-from x z zs c (rw e at h) in (ws, chain, omega arith)
  ]

  chain-fresh : (x : String) (ys : List String) → IsChain x ys → has ys x ≡ false
  chain-fresh x [] c = unfold has in refl
  chain-fresh x (y ∷ ys) (p, c) = elim (Bool-cases (has (y ∷ ys) x)) [
    | inl e ↦
        let (zs, chain, short) = IsChain-from x y ys c e in
        absurd (omega (arith, chain-length x (y ∷ ys) zs (p, c) chain))
    | inr e ↦ e
  ]

  chain-IsDistinct : (x : String) (ys : List String) → IsChain x ys → IsDistinct (x ∷ ys)
  chain-IsDistinct x [] c = (chain-fresh x [] c, tt)
  chain-IsDistinct x (y ∷ ys) (p, c) = (chain-fresh x (y ∷ ys) (p, c), chain-IsDistinct y ys c)

or-false : (a b : Bool) → (a || b) ≡ false → (a ≡ false) × (b ≡ false)
or-false a b e = (ground arith, ground arith)

eq_flip : (a b : String) → str_eq a b ≡ false → str_eq b a ≡ false
eq_flip a b e = ground (arith, eq_iff a b, eq_iff b a)

delete_id-le : (set : List String) (x : String) → length (delete_id set x) ≤ length set
unfolding delete_id
delete_id-le [] x = omega arith
delete_id-le (t ∷ set) x = ground (arith, delete_id-le set x)

length-delete_id :
    (set : List String) (x : String)
    → has set x ≡ true
    → suc (length (delete_id set x)) ≤ length set
unfolding delete_id has
length-delete_id [] x h = absurd (cc h)
length-delete_id (t ∷ set) x h = elim (Bool-cases (str_eq t x)) [
  | inl e ↦ rw e (omega (arith, delete_id-le set x))
  | inr e ↦ rw e (omega (arith, length-delete_id set x (rw e at h)))
]

-- The ids without `x`, for ids that are not `x`.
others-known :
    (set : List String) (x : String) (xs : List String)
    → has xs x ≡ false
    → All (λ t. has set t ≡ true) xs
    → All (λ t. has (delete_id set x) t ≡ true) xs
unfolding has
others-known set x [] f k = tt
others-known set x (t ∷ xs) f (k, ks) =
    let (apart, rest) = or-false (str_eq t x) (has xs x) f in
    (has-delete_id set x t ∙ rw (k, eq_flip t x apart) refl, others-known set x xs rest ks)

distinct-length :
    (xs set : List String) → IsDistinct xs → All (λ t. has set t ≡ true) xs → length xs ≤ length set
distinct-length [] set d k = omega arith
distinct-length (x ∷ xs) set (f, d) (k, ks) = omega (
  arith,
  distinct-length xs (delete_id set x) d (others-known set x xs f ks),
  length-delete_id set x k,
)

-- A chain of ids of a list is no longer than the list.
pub chain-le :
    (parent : String → Option String) (set : List String) (x : String) (ys : List String)
    → IsChain parent x ys
    → All (λ t. has set t ≡ true) (x ∷ ys)
    → suc (length ys) ≤ length set
chain-le parent set x ys c k = distinct-length (x ∷ ys) set (chain-IsDistinct parent x ys c) k
