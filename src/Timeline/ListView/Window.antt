-- ===== src/Timeline/ListView/Window.antt =====
-- The rows that are drawn cover those in view.
use teletrace.Base.{
  ◌+◌, ◌-◌, ◌≡◌, ◌≤◌, ◌<◌, ◌⊎◌, refl, sym, ap, ◌∙◌, inl, inr, true, false, ◌||◌, some,
  if◌then◌else◌, ltb, leb, arith, Bool-cases, Option-cases,
}
use teletrace.Timeline.ListView.{Props, DrawnRange, View, needed, needs_update, window, render}

-- The rows of `r` are rows of the data, cover those of `n`, and those in view.
abbrev pub Covers : Props → View → DrawnRange → DrawnRange → Type 0
Covers p v n r =
    (r.first ≤ n.first)
    × (n.last ≤ r.last)
    × (r.last < p.data_length)
    × (r.first ≤ v.start_index)
    × (v.end_index ≤ r.last)

-- The rows that a drawing from nothing takes.
fresh : Props → View → DrawnRange
fresh p v = record {
  first = if ltb v.start_index p.view_buffer then 0 else v.start_index - p.view_buffer;
  last =
      if leb p.data_length (v.end_index + p.view_buffer)
      then p.data_length - 1
      else v.end_index + p.view_buffer;
}

clipped : Props → DrawnRange → DrawnRange
clipped p d = record {
  first = d.first;
  last = if ltb (p.data_length - 1) d.last then p.data_length - 1 else d.last;
}

window_lem :
    (p : Props) (v : View)
    → (window true p v ≡ fresh p v)
      ⊎ (d : DrawnRange) × (v.drawn ≡ some d)
        × (needs_update p v ≡ false)
        × (window true p v ≡ clipped p d)
unfolding window fresh clipped
window_lem p v = elim (Option-cases v.drawn) [
  | inl e ↦ inl (simp e refl)
  | inr (d, e) ↦ elim (Bool-cases (needs_update p v)) [
    | inl more ↦ inl (simp (e, more) refl)
    | inr enough ↦ inr (d, e, enough, simp (e, enough) refl)
  ]
]

needs_update-drawn :
    (p : Props) (v : View) (d : DrawnRange)
    → v.drawn ≡ some d
    → needs_update p v ≡ (ltb (needed p v).first d.first || ltb d.last (needed p v).last)
unfolding needs_update
needs_update-drawn p v d e = rw (e, needs_update) refl

kept-enough :
    (p : Props) (v : View) (d : DrawnRange)
    → v.drawn ≡ some d
    → needs_update p v ≡ false
    → (d.first ≤ (needed p v).first) × ((needed p v).last ≤ d.last)
kept-enough p v d e enough =
    let shown : (ltb (needed p v).first d.first || ltb d.last (needed p v).last) ≡ false =
      sym (needs_update-drawn p v d e) ∙ enough in
    (ground arith, ground arith)

module _ (p : Props) (v : View) where
  fresh-Covers :
      v.start_index ≤ v.end_index
      → v.end_index < p.data_length
      → p.view_buffer_min ≤ p.view_buffer
      → Covers p v (needed p v) (fresh p v)
  unfolding fresh needed
  fresh-Covers a b c = (ground arith, ground arith, ground arith, ground arith, ground arith)

  clipped-Covers :
      (d : DrawnRange)
      → v.start_index ≤ v.end_index
      → v.end_index < p.data_length
      → d.first ≤ (needed p v).first
      → (needed p v).last ≤ d.last
      → Covers p v (needed p v) (clipped p d)
  unfolding clipped needed
  clipped-Covers d a b c e = (ground arith, ground arith, ground arith, ground arith, ground arith)

pub window-Covers :
    (p : Props) (v : View)
    → v.start_index ≤ v.end_index
    → v.end_index < p.data_length
    → p.view_buffer_min ≤ p.view_buffer
    → Covers p v (needed p v) (window true p v)
window-Covers p v a b c = elim (window_lem p v) [
  | inl e ↦ rw e (fresh-Covers p v a b c)
  | inr (d, drawn, enough, e) ↦
      let (first, last) = kept-enough p v d drawn enough in
      rw e (clipped-Covers p v d a b first last)
]

covered-stops :
    (p : Props) (v : View) (r : DrawnRange)
    → Covers p v (needed p v) r
    → needs_update p (record v { drawn = some r }) ≡ false
unfolding needs_update needed
covered-stops p v r (a, b, c, d, e) = ground arith

window-kept :
    (p : Props) (v : View) (r : DrawnRange)
    → needs_update p (record v { drawn = some r }) ≡ false
    → r.last < p.data_length
    → window true p (record v { drawn = some r }) ≡ r
unfolding window
window-kept p v r e l =
    let inside : ltb (p.data_length - 1) r.last ≡ false = ground arith in simp (e, inside) refl

-- While the rows in view are rows of the data, `render` draws rows of the data only, and all rows in
-- view with `viewBufferMin` rows before and after them, as far as there are any; it does so whether it
-- draws afresh or keeps what was drawn. After it `_positionList` does not ask for another update, and
-- another `render` of the same view draws the same.
pub render-Covers :
    (p : Props) (v : View)
    → v.start_index ≤ v.end_index
    → v.end_index < p.data_length
    → p.view_buffer_min ≤ p.view_buffer
    → Covers p v (needed p v) (window true p v)
      × (needs_update p (render true p v) ≡ false)
      × (render true p (render true p v) ≡ render true p v)
unfolding render
render-Covers p v a b c =
    let covers = window-Covers p v a b c in
    let stops = covered-stops p v (window true p v) covers in
    (
      covers,
      stops,
      ap (λ r. record v { drawn = some r }) (window-kept p v (window true p v) stops (covers.2)),
    )
