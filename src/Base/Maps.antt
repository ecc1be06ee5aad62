-- ===== src/Base/Maps.antt =====
-- JavaScript's `Map` with texts as keys: the entries in the order of their first insertion.
use Prim.Native.String.{String}
use mathlib.Core.Path.{◌≡◌, refl, ap₂, subst}
use mathlib.Core.Logic.{inl, inr}
use mathlib.Core.Option.{Option, none, some}
use mathlib.Core.List.{List, [], ◌∷◌, map}
use native.Mathlib.Omega.{arith}
use text.Mathlib.Text.{◌==◌}
use text.Mathlib.TextEquality.{eq_iff}
use teletrace.Base.Tests.{if◌then◌else◌, Bool-cases}
use teletrace.Base.Lists.{All}

abbrev pub Map {ℓ} : Type ℓ → Type ℓ
Map V = List (String × V)

module _ {ℓ} {V : Type ℓ} where
  unfoldable pub map_get : String → Map V → Option V
  map_get key [] = none
  map_get key ((k, v) ∷ m) = if k == key then some v else map_get key m

  unfoldable pub map_set : String → V → Map V → Map V
  map_set key v [] = (key, v) ∷ []
  map_set key v ((k, w) ∷ m) = if k == key then (key, v) ∷ m else (k, w) ∷ map_set key v m

  abbrev pub values : Map V → List V
  values = map (λ e. e.1)

  -- No key stands twice.
  abbrev pub HasDistinctKeys : Map V → Type ℓ
  HasDistinctKeys [] = Unit
  HasDistinctKeys ((k, v) ∷ m) = (map_get k m ≡ none) × HasDistinctKeys m

  pub map_get-set :
      (j key : String) (v : V) (m : Map V)
      → map_get j (map_set key v m) ≡ (if key == j then some v else map_get j m)
  unfolding map_get map_set
  map_get-set j key v [] = refl
  map_get-set j key v ((k, w) ∷ m) =
      ground (arith, eq_iff k key, eq_iff k j, eq_iff key j, map_get-set j key v m)

  pub map_set-HasDistinctKeys :
      (key : String) (v : V) (m : Map V) → HasDistinctKeys m → HasDistinctKeys (map_set key v m)
  unfolding map_get map_set
  map_set-HasDistinctKeys key v [] d = (refl, tt)
  map_set-HasDistinctKeys key v ((k, w) ∷ m) d = ground (
    arith,
    eq_iff k key,
    eq_iff key k,
    map_get-set k key v m,
    map_set-HasDistinctKeys key v m d.1,
  )

  -- What holds of every entry and of the new one holds after the write.
  pub map_set-All {κ} :
      (P : String × V → Type κ) (key : String) (v : V) (m : Map V)
      → All P m
      → P (key, v)
      → All P (map_set key v m)
  unfolding map_set
  map_set-All P key v [] h p = (p, tt)
  map_set-All P key v ((k, w) ∷ m) h p = elim (Bool-cases (k == key)) [
    | inl e ↦ rw e (p, h.1)
    | inr e ↦ rw e (h.0, map_set-All P key v m h.1 p)
  ]

  pub map_get-All {κ} :
      (P : String × V → Type κ) (key : String) (v : V) (m : Map V)
      → All P m
      → map_get key m ≡ some v
      → P (key, v)
  unfolding map_get
  map_get-All P key v [] h e = cc
  map_get-All P key v ((k, w) ∷ m) h e = elim (Bool-cases (k == key)) [
    | inl same ↦ subst P (ap₂ (λ a b. (a, b)) ((eq_iff k key).0 same) (ground arith)) h.0
    | inr other ↦ map_get-All P key v m h.1 (ground arith)
  ]
