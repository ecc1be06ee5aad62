-- ===== src/Search/Scalars.antt =====
-- What the source does with a `string | number`: its text, its number, and `===`.
use teletrace.Base.{Bool, false, String, str_eq}
use teletrace.Numbers.{Numbers}
use teletrace.Search.Types.{Scalar, str, num}

module _ {N : Type 0} (js : Numbers N) where
  -- `v.toString()`, and the key that `v` is as a property.
  unfoldable pub to_text : Scalar N → String
  to_text (str s) = s
  to_text (num n) = js.to_text n

  -- `Number(v)`.
  unfoldable pub to_number : Scalar N → N
  to_number (str s) = js.of_text s
  to_number (num n) = n

  unfoldable pub scalar_eq : Scalar N → Scalar N → Bool
  scalar_eq (str s) (str t) = str_eq s t
  scalar_eq (num n) (num m) = js.equal n m
  scalar_eq _ _ = false
