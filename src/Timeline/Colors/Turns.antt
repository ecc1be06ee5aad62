-- ===== src/Timeline/Colors/Turns.antt =====
-- The keys get the colours in turn, and keep them.
use teletrace.Base.{
  Option, ℕ, zero, suc, ◌+◌, ◌%◌, ◌<◌, ◌≡◌, refl, sym, ap, ◌∙◌, inl, inr, String, true, false, none,
  some, List, [], ◌∷◌, length, map_get, map_set, map_get-set, arith, str_eq, eq_iff, Bool-cases,
  Option-cases, some_inj, subst,
}
use teletrace.Timeline.Colors.{
  ColorGenerator, cleared, colors_hex, get_color_index, get_color_by_key, color_at,
}

-- The entry `j` of the cache and those behind it have the colours in turn.
abbrev IsInTurn : ℕ → List (String × ℕ) → Type 0
IsInTurn j [] = Unit
IsInTurn j (e ∷ cache) = (e.1 ≡ j % 5) × IsInTurn (suc j) cache

-- The next colour is that of the next turn.
record IsTurning (s : ColorGenerator) : Type 0 where
  cached : IsInTurn 0 s.cache
  next : s.current_idx ≡ length s.cache % 5

IsInTurn-fresh :
    (key : String) (v : ℕ) (j : ℕ) (cache : List (String × ℕ))
    → map_get key cache ≡ none
    → v ≡ (j + length cache) % 5
    → IsInTurn j cache
    → IsInTurn j (map_set key v cache) × (length (map_set key v cache) ≡ suc (length cache))
unfolding map_get map_set
IsInTurn-fresh key v j [] n e r = ((e ∙ ap (λ k. k % 5) (omega arith), tt), refl)
IsInTurn-fresh key v j ((k, w) ∷ cache) n e (r, rs) = elim (Bool-cases (str_eq k key)) [
  | inl same ↦ absurd (cc (rw same at n))
  | inr other ↦
      let (turn, long) =
        IsInTurn-fresh key v (suc j) cache (rw other at n) (e ∙ ap (λ k. k % 5) (omega arith)) rs in
      rw other ((r, turn), omega (arith, long))
]

IsInTurn-get :
    (key : String) (i j : ℕ) (cache : List (String × ℕ))
    → map_get key cache ≡ some i
    → IsInTurn j cache
    → i < 5
unfolding map_get
IsInTurn-get key i j [] e r = absurd (cc e)
IsInTurn-get key i j ((k, w) ∷ cache) e (r, rs) = elim (Bool-cases (str_eq k key)) [
  | inl same ↦ let value : w ≡ i = some_inj (rw same at e) in omega arith
  | inr other ↦ IsInTurn-get key i (suc j) cache (rw other at e) rs
]

get_color_index-fresh :
    (key : String) (s : ColorGenerator)
    → map_get key s.cache ≡ none
    → get_color_index 5 key s ≡ (
      s.current_idx,
      record { cache = map_set key s.current_idx s.cache; current_idx = (s.current_idx + 1) % 5 },
    )
unfolding get_color_index
get_color_index-fresh key s e = rw (e, get_color_index) refl

get_color_index-found :
    (key : String) (s : ColorGenerator) (i : ℕ)
    → map_get key s.cache ≡ some i
    → get_color_index 5 key s ≡ (i, s)
unfolding get_color_index
get_color_index-found key s i e = rw (e, get_color_index) refl

IsTurning-fresh :
    (key : String) (s : ColorGenerator)
    → IsTurning s
    → map_get key s.cache ≡ none
    → IsTurning (record {
      cache = map_set key s.current_idx s.cache;
      current_idx = (s.current_idx + 1) % 5;
    })
IsTurning-fresh key s r e =
    let (turn, long) =
      IsInTurn-fresh key s.current_idx 0 s.cache e (r.next ∙ ap (λ k. k % 5) (omega arith))
        r.cached in
    record { cached = turn; next = let next = r.next in omega (arith, long) }

get_color_index-IsTurning :
    (key : String) (s : ColorGenerator)
    → IsTurning s
    → (i : ℕ) × (t : ColorGenerator) × (get_color_index 5 key s ≡ (i, t))
      × (i < 5)
      × IsTurning t
      × (map_get key t.cache ≡ some i)
      × ((k : String) (j : ℕ) → map_get k s.cache ≡ some j → map_get k t.cache ≡ some j)
get_color_index-IsTurning key s r = elim (Option-cases (map_get key s.cache)) [
  | inl fresh ↦
      let next = r.next in
      (
        s.current_idx,
        record { cache = map_set key s.current_idx s.cache; current_idx = (s.current_idx + 1) % 5 },
        get_color_index-fresh key s fresh,
        omega arith,
        IsTurning-fresh key s r fresh,
        map_get-set key key s.current_idx s.cache
            ∙ (let same : str_eq key key ≡ true = (eq_iff key key).1 refl in rw same refl),
        λ k j found. kept k j found fresh,
      )
  | inr (i, found) ↦ (
    i,
    s,
    get_color_index-found key s i found,
    IsInTurn-get key i 0 s.cache found r.cached,
    r,
    found,
    λ k j f. f,
  )
]
  where
    kept :
        (k : String) (j : ℕ)
        → map_get k s.cache ≡ some j
        → map_get key s.cache ≡ none
        → map_get k (map_set key s.current_idx s.cache) ≡ some j
    kept k j found fresh =
        let other : str_eq key k ≡ false = elim (Bool-cases (str_eq key k)) [
          | inl e ↦
              absurd
                (cc (sym found ∙ subst (λ u. map_get u s.cache ≡ none) ((eq_iff key k).0 e) fresh))
          | inr e ↦ e
        ] in
        map_get-set k key s.current_idx s.cache ∙ rw other found

color_at_lem : (i : ℕ) → i < 5 → (c : String) × (color_at colors_hex i ≡ some c)
color_at_lem zero p = ("#548CFF", refl)
color_at_lem (suc zero) p = ("#A3E4DB", refl)
color_at_lem (suc (suc zero)) p = ("#6E3CBC", refl)
color_at_lem (suc (suc (suc zero))) p = ("#4ABB8C", refl)
color_at_lem (suc (suc (suc (suc zero)))) p = ("#A2D2FF", refl)
color_at_lem (suc (suc (suc (suc (suc i))))) p = absurd (omega arith)

get_color_by_key_lem :
    (key : String) (s t : ColorGenerator) (i : ℕ)
    → get_color_index 5 key s ≡ (i, t)
    → get_color_by_key colors_hex key s ≡ (color_at colors_hex i, t)
unfolding get_color_by_key
get_color_by_key_lem key s t i e = ap (λ r. (color_at colors_hex r.0, r.1)) e

-- The generator after it was asked for the colours of some keys.
abbrev pub asked : List String → ColorGenerator → ColorGenerator
asked [] s = s
asked (key ∷ keys) s = asked keys (get_color_by_key colors_hex key s).1

asked-IsTurning :
    (keys : List String) (s : ColorGenerator)
    → IsTurning s
    → IsTurning (asked keys s)
      × ((k : String) (i : ℕ)
          → map_get k s.cache ≡ some i
          → map_get k (asked keys s).cache ≡ some i)
asked-IsTurning [] s r = (r, λ k i h. h)
asked-IsTurning (key ∷ keys) s r =
    let (i, t, e, p, turning, found, kept) = get_color_index-IsTurning key s r in
    let (later, kept') = asked-IsTurning keys t turning in
    let there =
      ap (λ (x : Option String × ColorGenerator). x.1) (get_color_by_key_lem key s t i e) in
    subst
      (λ (u : ColorGenerator).
        IsTurning (asked keys u)
        × ((k : String) (j : ℕ)
            → map_get k s.cache ≡ some j
            → map_get k (asked keys u).cache ≡ some j))
      (sym there) (later, λ k j h. kept' k j (kept k j h))

-- Whatever keys a new generator was asked for before, a key gets one of the five colours, never
-- `undefined`, and whatever keys it is asked for after that, the key gets the same colour again. A
-- key that it was not asked for before gets the colour whose turn it is: the number of the keys that
-- it knows, modulo five, is the colour's index.
pub get_color_by_key-asked :
    (before after : List String) (key : String)
    → let s = asked before cleared in
      (color : String) × (t : ColorGenerator) × (get_color_by_key colors_hex key s
        ≡ (some color, t))
      × ((get_color_by_key colors_hex key (asked after t)).0 ≡ some color)
      × (map_get key s.cache ≡ none → color_at colors_hex (length s.cache % 5) ≡ some color)
get_color_by_key-asked before after key =
    let s : ColorGenerator = asked before cleared in
    let r = (asked-IsTurning before cleared (record { cached = tt; next = refl })).0 in
    let (i, t, e, p, turning, found, kept) = get_color_index-IsTurning key s r in
    let (color, c) = color_at_lem i p in
    let u : ColorGenerator = asked after t in
    let again = get_color_index-found key u i ((asked-IsTurning after t turning).1 key i found) in
    (
      color,
      t,
      get_color_by_key_lem key s t i e ∙ ap (λ x. (x, t)) c,
      ap (λ (x : Option String × ColorGenerator). x.0) (get_color_by_key_lem key u u i again) ∙ c,
      λ fresh.
          let turn : i ≡ length s.cache % 5 =
            ap (λ (x : ℕ × ColorGenerator). x.0) (sym e ∙ get_color_index-fresh key s fresh)
            ∙ r.next in
          ap (color_at colors_hex) (sym turn) ∙ c,
    )
