-- ===== src/Search/Types.antt =====
-- web/src/features/search/types: time frames, operators, filters, sort orders, tags, and the
-- requests and responses of the backend. `N` is the type of JavaScript's numbers where the program
-- handles them as values; a time stamp is a natural number of nanoseconds.
use teletrace.Base.{ℕ, ◌≡◌, ◌↔◌, Bool, true, List, [], ◌∷◌, String, ◌==◌, arith}

pub record Timeframe : Type 0 where
  pub start_time_unix_nano_sec : ℕ
  pub end_time_unix_nano_sec : ℕ

-- `is_in` is the source's "in".
pub data Operator : Type 0 where
  is_in not_in contains not_contains exists not_exists gt gte lt lte : Operator

abbrev pub operators_list : List Operator
operators_list =
    is_in ∷ not_in ∷ contains ∷ not_contains ∷ exists ∷ not_exists ∷ gt ∷ gte ∷ lt ∷ lte ∷ []

abbrev pub position : Operator → ℕ
position is_in = 0
position not_in = 1
position contains = 2
position not_contains = 3
position exists = 4
position not_exists = 5
position gt = 6
position gte = 7
position lt = 8
position lte = 9

-- `===` on two operators.
unfoldable pub operator_eq : Operator → Operator → Bool
operator_eq o1 o2 = position o1 == position o2

pub data OperatorCategory : Type 0 where
  text number boolean : OperatorCategory

unfoldable pub operators_by_category : OperatorCategory → List Operator
operators_by_category text = is_in ∷ not_in ∷ contains ∷ not_contains ∷ exists ∷ not_exists ∷ []
operators_by_category number = is_in ∷ not_in ∷ exists ∷ not_exists ∷ gt ∷ gte ∷ lt ∷ lte ∷ []
operators_by_category boolean = is_in ∷ not_in ∷ exists ∷ not_exists ∷ []

-- `string | number`.
pub data Scalar (N : Type 0) : Type 0 where
  str : String → Scalar N
  num : N → Scalar N

-- `string | number | Array<string | number>`.
pub data FilterValue (N : Type 0) : Type 0 where
  single : Scalar N → FilterValue N
  array : List (Scalar N) → FilterValue N

pub data ValueInputMode : Type 0 where
  select text none numeric : ValueInputMode

pub record KeyValueFilter (N : Type 0) : Type 0 where
  pub key : String
  pub value : FilterValue N
  pub operator : Operator

pub record SearchFilter (N : Type 0) : Type 0 where
  pub key_value_filter : KeyValueFilter N

pub record Sort : Type 0 where
  pub field : String
  pub ascending : Bool

pub record AvailableTag : Type 0 where
  pub name : String
  pub type : String

pub record TagValue (N : Type 0) : Type 0 where
  pub value : Scalar N
  pub count : ℕ

pub operator_eq_iff : (o1 o2 : Operator) → (operator_eq o1 o2 ≡ true) ↔ (o1 ≡ o2)
unfolding operator_eq
operator_eq_iff o1 o2 = ground arith
