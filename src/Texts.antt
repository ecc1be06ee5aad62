-- ===== src/Texts.antt =====
-- JavaScript's `Set` of texts: its elements in the order of insertion.
use teletrace.Base.{
  ◌≡◌, refl, Bool, ◌||◌, List, [], ◌∷◌, any, String, str_eq, if◌then◌else◌, arith, eq_iff,
}

unfoldable pub has : List String → String → Bool
has set s = any (λ t. str_eq t s) set

unfoldable pub add : List String → String → List String
unfolding has
add [] s = s ∷ []
add (t ∷ set) s = t ∷ (if str_eq t s then set else add set s)

unfoldable pub add_all : List String → List String → List String
unfolding add
add_all set [] = set
add_all set (s ∷ ss) = add_all (add set s) ss

-- `new Set(values)`.
unfoldable pub of_values : List String → List String
unfolding add_all
of_values values = add_all [] values

pub has-add : (set : List String) (s t : String) → has (add set s) t ≡ (has set t || str_eq s t)
unfolding has add
has-add [] s t = ground arith
has-add (u ∷ set) s t = ground (arith, has-add set s t, eq_iff u s, eq_iff u t, eq_iff s t)

has-add_all :
    (set values : List String) (t : String)
    → has (add_all set values) t ≡ (has set t || has values t)
unfolding add_all
has-add_all set [] t = unfold has in ground arith
has-add_all set (s ∷ ss) t =
    rw (has-add_all (add set s) ss t, has-add set s t) (unfold has in ground arith)

pub has-of_values : (values : List String) (t : String) → has (of_values values) t ≡ has values t
unfolding of_values has
has-of_values values t = rw (has-add_all [] values t) refl
