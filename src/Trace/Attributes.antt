-- ===== src/Trace/Attributes.antt =====
-- Attributes as values of a dynamic language: truth, text, and a type for the span's resource
-- (web/src/features/trace/utils/span-resource-type.ts).
use teletrace.Base.{
  ◌≡◌, refl, Bool, true, false, not, Option, none, some, List, [], ◌∷◌, ◌++◌, String, str_eq,
  if◌then◌else◌, arith, is_some,
}
use teletrace.Numbers.{Numbers}
use teletrace.Trace.Span.{AttributeValue, number, text, boolean, Attributes, InternalSpan}

module _ {ℓ} {V : Type ℓ} where
  -- `o[key]`, none for `undefined`.
  unfoldable pub lookup : String → List (String × V) → Option V
  lookup key [] = none
  lookup key ((k, v) ∷ o) = if str_eq k key then some v else lookup key o

  pub lookup-append :
      (key : String) (o p : List (String × V))
      → lookup key (o ++ p) ≡ (if is_some (lookup key o) then lookup key o else lookup key p)
  unfolding lookup
  lookup-append key [] p = refl
  lookup-append key ((k, v) ∷ o) p = ground (arith, lookup-append key o p)

-- `{ ...o, ...p }`: an entry of `p` hides one of `o`.
unfoldable pub spread {ℓ} : {V : Type ℓ} → List (String × V) → List (String × V) → List (String × V)
spread o p = p ++ o

module _ {N : Type 0} (js : Numbers N) where
  unfoldable pub is_truthy : AttributeValue N → Bool
  is_truthy (number n) = js.is_truthy n
  is_truthy (text s) = not (str_eq s "")
  is_truthy (boolean b) = b

  unfoldable pub to_text : AttributeValue N → String
  to_text (number n) = js.to_text n
  to_text (text s) = s
  to_text (boolean true) = "true"
  to_text (boolean false) = "false"

  -- The value of an attribute, if it is truthy.
  unfoldable pub truthy_at : Attributes N → String → Option (AttributeValue N)
  unfolding lookup is_truthy
  truthy_at attributes key = elim (lookup key attributes) [
    | none ↦ none
    | some v ↦ (if is_truthy v then some v else none)
  ]

  -- The first truthy attribute of the keys.
  unfoldable pub first_truthy : Attributes N → List String → Option (AttributeValue N)
  unfolding truthy_at
  first_truthy attributes [] = none
  first_truthy attributes (key ∷ keys) = elim (truthy_at attributes key) [
    | some v ↦ some v
    | none ↦ first_truthy attributes keys
  ]

  abbrev resource_types : List String
  resource_types = "db.system" ∷ "db.type" ∷ "messaging.system" ∷ []

  unfoldable pub get_span_resource_type : InternalSpan N → String
  unfolding first_truthy to_text
  get_span_resource_type span = elim (first_truthy span.span.attributes resource_types) [
    | some v ↦ to_text v
    | none ↦ ""
  ]
