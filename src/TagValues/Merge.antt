-- ===== src/TagValues/Merge.antt =====
-- The values of a tag in the time frame, merged with those of all time.
use teletrace.Base.{
  ◌≡◌, refl, Bool, not, Option, none, some, List, [], ◌∷◌, ◌++◌, String, ◌==◌, ltb, str_eq,
  if◌then◌else◌, arith, Map, map_get, map_set, map_get-set, values, HasDistinctKeys,
  map_set-HasDistinctKeys, get_or,
}
use teletrace.Numbers.{Numbers}
use teletrace.Search.Types.{Scalar, str, single, SearchFilter, Timeframe, TagValue, contains}
use teletrace.Search.Scalars.{to_text}

-- A request for a tag's values.
pub record TagValuesRequest (N : Type 0) : Type 0 where
  pub filters : List (SearchFilter N)
  pub timeframe : Option Timeframe

-- `at_least` is JavaScript's `>=` on two texts or numbers.
module _ {N : Type 0} (js : Numbers N) (at_least : Scalar N → Scalar N → Bool) where
  -- The two loops: `tagValuesMap[value] = …`.
  unfoldable pub set_all : List (TagValue N) → Map (TagValue N) → Map (TagValue N)
  unfolding map_set to_text
  set_all [] m = m
  set_all (t ∷ ts) m =
      set_all ts (map_set (to_text js t.value) (record { value = t.value; count = 0 }) m)

  unfoldable pub set_current : List (TagValue N) → Map (TagValue N) → Map (TagValue N)
  unfolding map_set to_text
  set_current [] m = m
  set_current (t ∷ ts) m =
      set_current ts (map_set (to_text js t.value) (record { value = t.value; count = t.count }) m)

  -- The comparator of the sort puts `a` before `b`: it is never 0 and negative exactly then.
  unfoldable pub comes_first : TagValue N → TagValue N → Bool
  comes_first a b =
      if b.count == a.count then not (at_least a.value b.value) else ltb b.count a.count

  unfoldable pub insert : TagValue N → List (TagValue N) → List (TagValue N)
  unfolding comes_first
  insert t [] = t ∷ []
  insert t (u ∷ us) = if comes_first t u then t ∷ u ∷ us else u ∷ insert t us

  unfoldable pub sort : List (TagValue N) → List (TagValue N)
  unfolding insert
  sort [] = []
  sort (t ∷ ts) = insert t (sort ts)

  unfoldable pub tag_values_map : (current all : List (TagValue N)) → Map (TagValue N)
  unfolding set_all set_current
  tag_values_map current all = set_current current (set_all all [])

  unfoldable pub merge_tag_values : (current all : List (TagValue N)) → List (TagValue N)
  unfolding tag_values_map sort
  merge_tag_values current all = sort (values (tag_values_map current all))

  unfoldable pub search_filter : (tag search : String) → Option (SearchFilter N)
  search_filter tag search =
      if str_eq search ""
      then none
      else some (record {
        key_value_filter = record { key = tag; operator = contains; value = single (str search) };
      })

  abbrev optional : Option (SearchFilter N) → List (SearchFilter N)
  optional none = []
  optional (some f) = f ∷ []

  unfoldable pub current_values_request :
      (tag search : String) → Timeframe → List (SearchFilter N) → TagValuesRequest N
  unfolding search_filter
  current_values_request tag search timeframe filters = record {
    filters = filters ++ optional (search_filter tag search);
    timeframe = some timeframe;
  }

  unfoldable pub all_values_request : (tag search : String) → TagValuesRequest N
  unfolding search_filter
  all_values_request tag search = record {
    filters = optional (search_filter tag search);
    timeframe = none;
  }

  -- `fetch` is the backend: the values of its response, none where it has none.
  unfoldable pub query_fn :
      (String → TagValuesRequest N → Option (List (TagValue N)))
      → (tag search : String) → Timeframe
      → List (SearchFilter N)
      → List (TagValue N)
  unfolding merge_tag_values current_values_request all_values_request
  query_fn fetch tag search timeframe filters =
      if str_eq tag ""
      then []
      else merge_tag_values
          (get_or (fetch tag (current_values_request tag search timeframe filters)) [])
          (get_or (fetch tag (all_values_request tag search)) [])

  -- The last of the values with a key.
  abbrev pub last_with : String → List (TagValue N) → Option (TagValue N)
  last_with key [] = none
  last_with key (t ∷ ts) = elim (last_with key ts) [
    | some u ↦ some u
    | none ↦ (if str_eq (to_text js t.value) key then some t else none)
  ]

  abbrev pub uncounted : TagValue N → TagValue N
  uncounted t = record { value = t.value; count = 0 }

  abbrev or_else : Option (TagValue N) → Option (TagValue N) → Option (TagValue N)
  or_else none b = b
  or_else (some a) b = some a

  abbrev pub zeroed : Option (TagValue N) → Option (TagValue N)
  zeroed none = none
  zeroed (some t) = some (uncounted t)

  map_get-set_current :
      (key : String) (ts : List (TagValue N)) (m : Map (TagValue N))
      → map_get key (set_current ts m) ≡ or_else (last_with key ts) (map_get key m)
  unfolding set_current
  map_get-set_current key [] m = refl
  map_get-set_current key (t ∷ ts) m =
      rw (map_get-set_current key ts (map_set (to_text js t.value) t m), map_get-set) (ground arith)

  map_get-set_all :
      (key : String) (ts : List (TagValue N)) (m : Map (TagValue N))
      → map_get key (set_all ts m) ≡ or_else (zeroed (last_with key ts)) (map_get key m)
  unfolding set_all
  map_get-set_all key [] m = refl
  map_get-set_all key (t ∷ ts) m =
      rw (map_get-set_all key ts (map_set (to_text js t.value) (uncounted t) m), map_get-set)
        (ground arith)

  -- The merge holds, under each value's text, the last count that the time frame gives for it; a
  -- value that only all time has is there with count 0, and no other text has an entry.
  pub map_get-tag_values_map :
      (key : String) (current all : List (TagValue N))
      → map_get key (tag_values_map current all)
        ≡ (elim (last_with key current) [ some t ↦ some t | none ↦ zeroed (last_with key all) ])
  unfolding tag_values_map map_get
  map_get-tag_values_map key current all =
      rw (map_get-set_current key current (set_all all []), map_get-set_all key all [])
        (ground arith)

  set_current-HasDistinctKeys :
      (ts : List (TagValue N)) (m : Map (TagValue N))
      → HasDistinctKeys m
      → HasDistinctKeys (set_current ts m)
  unfolding set_current
  set_current-HasDistinctKeys [] m d = d
  set_current-HasDistinctKeys (t ∷ ts) m d =
      set_current-HasDistinctKeys ts _ (map_set-HasDistinctKeys (to_text js t.value) t m d)

  set_all-HasDistinctKeys :
      (ts : List (TagValue N)) (m : Map (TagValue N))
      → HasDistinctKeys m
      → HasDistinctKeys (set_all ts m)
  unfolding set_all
  set_all-HasDistinctKeys [] m d = d
  set_all-HasDistinctKeys (t ∷ ts) m d =
      set_all-HasDistinctKeys ts _ (map_set-HasDistinctKeys (to_text js t.value) (uncounted t) m d)

  pub tag_values_map-HasDistinctKeys :
      (current all : List (TagValue N)) → HasDistinctKeys (tag_values_map current all)
  unfolding tag_values_map
  tag_values_map-HasDistinctKeys current all =
      set_current-HasDistinctKeys current _ (set_all-HasDistinctKeys all [] tt)
