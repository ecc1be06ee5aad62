-- ===== src/Timeline/ListView/Measure/Scan.antt =====
-- What the loop over the nodes finds: every height is known as observed, and the first and the last
-- of the changed rows are noted.
use teletrace.Base.{
  ℕ, suc, ◌≤◌, ◌<◌, ◌≡◌, ◌≢◌, refl, sym, ap, subst, ◌∙◌, inl, inr, String, true, false, Option,
  none, some, List, [], ◌∷◌, Map, map_get, map_set, map_get-set, arith, eq_iff, str_eq, Bool-cases,
}
use teletrace.Timeline.ListView.Measure.{Node, Scanning, is_known, or_key, scan_key, scan_nodes}

-- The nodes are those of rows from `lo` on and before `hi`, in their order; a node may have no key.
pub data AreRows (key : ℕ → String) (hi : ℕ) : (lo : ℕ) → List Node → Type 0 where
  ended : {lo : ℕ} → AreRows key hi lo []
  unkeyed :
      {lo height : ℕ} {nodes : List Node}
      → AreRows key hi lo nodes
      → AreRows key hi lo (record { item_key = none; observed = height } ∷ nodes)
  row :
      {lo i height : ℕ} {nodes : List Node}
      → lo ≤ i
      → i < hi
      → AreRows key hi (suc i) nodes
      → AreRows key hi lo (record { item_key = some (key i); observed = height } ∷ nodes)

-- Every node with a key has its observed height among the known ones.
pub data AreKnown (known : Map ℕ) : List Node → Type 0 where
  no_more : AreKnown known []
  skipped :
      {height : ℕ} {nodes : List Node}
      → AreKnown known nodes
      → AreKnown known (record { item_key = none; observed = height } ∷ nodes)
  measured :
      {key : String} {height : ℕ} {nodes : List Node}
      → map_get key known ≡ some height
      → AreKnown known nodes
      → AreKnown known (record { item_key = some key; observed = height } ∷ nodes)

-- What the scan of rows from `lo` on leaves: nothing has changed, or the rows from `a` to `b` may have,
-- and these two are noted.
pub data IsScanned (key : ℕ → String) (lo hi : ℕ) (s t : Scanning) : Type 0 where
  clean : t ≡ s → IsScanned key lo hi s t
  dirty :
      (a b : ℕ)
      → lo ≤ a
      → a ≤ b
      → b < hi
      → ((j : ℕ) → j < a → map_get (key j) t.known_heights ≡ map_get (key j) s.known_heights)
      → t.low_dirty_key ≡ or_key s.low_dirty_key (key a)
      → t.high_dirty_key ≡ some (key b)
      → IsScanned key lo hi s t

is_known-some : (o : Option ℕ) (h : ℕ) → is_known o h ≡ true → o ≡ some h
is_known-some none h e = cc
is_known-some (some k) h e = ground arith

set-own : (key : String) (h : ℕ) (m : Map ℕ) → map_get key (map_set key h m) ≡ some h
set-own key h m =
    let own : str_eq key key ≡ true = (eq_iff key key).1 refl in
    map_get-set key key h m ∙ rw own refl

scan_key-same :
    (key : String) (height : ℕ) (s : Scanning)
    → is_known (map_get key s.known_heights) height ≡ true
    → scan_key key height s ≡ s
unfolding scan_key
scan_key-same key height s e = rw e refl

module _ (key : ℕ → String) (hi : ℕ)
    (distinct : (i j : ℕ) → i < hi → j < hi → key i ≡ key j → i ≡ j) where
  IsScanned-kept :
      {lo : ℕ} {s t : Scanning} (j : ℕ)
      → IsScanned key lo hi s t
      → j < lo
      → map_get (key j) t.known_heights ≡ map_get (key j) s.known_heights
  IsScanned-kept j (clean e) p = ap (λ u. map_get (key j) u.known_heights) e
  IsScanned-kept j (dirty a b q r l same low high) p = same j (omega arith)

  IsScanned-from :
      {lo lo' : ℕ} {s t : Scanning} → lo ≤ lo' → IsScanned key lo' hi s t → IsScanned key lo hi s t
  IsScanned-from p (clean e) = clean e
  IsScanned-from p (dirty a b q r l same low high) = dirty a b (omega arith) r l same low high

  -- A round at a row whose height has changed.
  changed : ℕ → ℕ → Scanning → Scanning
  changed i height s = record {
    known_heights = map_set (key i) height s.known_heights;
    low_dirty_key = or_key s.low_dirty_key (key i);
    high_dirty_key = some (key i);
  }

  scan_key-changed :
      (i height : ℕ) (s : Scanning)
      → is_known (map_get (key i) s.known_heights) height ≡ false
      → scan_key (key i) height s ≡ changed i height s
  unfolding scan_key changed
  scan_key-changed i height s e = rw e refl

  set-kept :
      (i j height : ℕ) (m : Map ℕ)
      → j < i
      → i < hi
      → map_get (key j) (map_set (key i) height m) ≡ map_get (key j) m
  set-kept i j height m p q =
      let other : key i ≢ key j = λ e. absurd (omega (arith, distinct i j q (omega arith) e)) in
      let differ : str_eq (key i) (key j) ≡ false = ground (arith, eq_iff (key i) (key j)) in
      map_get-set (key j) (key i) height m ∙ rw differ refl

  or_key-twice : (o : Option String) (k l : String) → or_key (or_key o k) l ≡ or_key o k
  or_key-twice none k l = refl
  or_key-twice (some m) k l = refl

  changed-IsScanned :
      (lo i height : ℕ) (s t : Scanning)
      → lo ≤ i
      → i < hi
      → IsScanned key (suc i) hi (changed i height s) t
      → IsScanned key lo hi s t
  unfolding changed
  changed-IsScanned lo i height s t p q (clean e) =
      dirty i i p (omega arith) q
        (λ j l.
          ap (λ u. map_get (key j) u.known_heights) e ∙ set-kept i j height s.known_heights l q)
        (ap (λ u. u.low_dirty_key) e) (ap (λ u. u.high_dirty_key) e)
  changed-IsScanned lo i height s t p q (dirty a b r l m same low high) =
      dirty i b p (omega arith) m
        (λ j k. same j (omega arith) ∙ set-kept i j height s.known_heights k q)
        (low ∙ or_key-twice s.low_dirty_key (key i) (key a)) high

  pub scan_nodes-IsScanned :
      (lo : ℕ) (nodes : List Node) (s : Scanning)
      → AreRows key hi lo nodes
      → IsScanned key lo hi s (scan_nodes nodes s)
        × AreKnown (scan_nodes nodes s).known_heights nodes
  unfolding scan_nodes changed
  scan_nodes-IsScanned lo [] s ended = (clean refl, no_more)
  scan_nodes-IsScanned lo (node ∷ nodes) s (unkeyed rows) =
      let (scanned, known) = scan_nodes-IsScanned lo nodes s rows in (scanned, skipped known)
  scan_nodes-IsScanned lo (node ∷ nodes) s (row {i = i} p q rows) =
      let after : Scanning → Type 0 = λ s'.
        IsScanned key lo hi s (scan_nodes nodes s')
        × AreKnown (scan_nodes nodes s').known_heights
            (record { item_key = some (key i); observed = node.observed } ∷ nodes) in
      elim (Bool-cases (is_known (map_get (key i) s.known_heights) node.observed)) [
        | inl same ↦
            let (scanned, known) = scan_nodes-IsScanned (suc i) nodes s rows in
            subst after (sym (scan_key-same (key i) node.observed s same)) (
              IsScanned-from (omega arith) scanned,
              measured
                  (IsScanned-kept i scanned (omega arith)
                    ∙ is_known-some (map_get (key i) s.known_heights) node.observed same)
                  known,
            )
        | inr other ↦
            let (scanned, known) =
              scan_nodes-IsScanned (suc i) nodes (changed i node.observed s) rows in
            subst after (sym (scan_key-changed i node.observed s other)) (
              changed-IsScanned lo i node.observed s _ p q scanned,
              measured
                  (IsScanned-kept i scanned (omega arith)
                    ∙ set-own (key i) node.observed s.known_heights)
                  known,
            )
      ]
