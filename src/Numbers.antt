-- ===== src/Numbers.antt =====
-- JavaScript's numbers, where the program handles them as values (filter values, attributes,
-- coordinates, statistics): a type with the operations that the source uses. The language gives
-- them; they are a parameter here, since a double is no natural number.
pub mod Sample
pub mod Int
use teletrace.Base.{ℕ, Bool, String, Option}

pub record Numbers (N : Type 0) : Type 0 where
  -- `Boolean(n)`: neither 0 nor NaN
  pub is_truthy : N → Bool
  pub is_nan : N → Bool
  -- `n.toString()`
  pub to_text : N → String
  -- `Number(text)`, NaN for a text that is no number
  pub of_text : String → N
  -- `===`, `<`
  pub equal : N → N → Bool
  pub less : N → N → Bool
  pub minus : N → N → N
  pub half : N → N
  pub zero : N
