-- ===== src/Timeline/Rows/Toggle.antt =====
-- The state of TraceTimeline.js: collapsing spans, hovering, and a new trace.
use teletrace.Base.{
  ◌≡◌, refl, sym, ap, subst, ℕ, suc, ◌+◌, inl, inr, String, true, false, not, ◌||◌, ◌&&◌, Option,
  none, some, List, [], ◌∷◌, if◌then◌else◌, arith, str_eq, eq_iff, Bool-cases,
}
use teletrace.Texts.{has, has-add}
use teletrace.Timeline.Rows.{
  TraceSpan, TimelineState, delete_id, row_loop, generate_row_states, children_toggle,
  add_hover_indent_guide_id, remove_hover_indent_guide_id, set_trace, same_trace,
}

pub has-delete_id :
    (set : List String) (s t : String) → has (delete_id set s) t ≡ (has set t && not (str_eq s t))
unfolding has delete_id
has-delete_id [] s t = refl
has-delete_id (u ∷ set) s t =
    ground (arith, has-delete_id set s t, eq_iff u s, eq_iff u t, eq_iff s t)

has-children_toggle :
    (id t : String) (s : TimelineState)
    → has (children_toggle id s).children_hidden_ids t
      ≡ (if str_eq id t then not (has s.children_hidden_ids t) else has s.children_hidden_ids t)
unfolding children_toggle
has-children_toggle id t s = elim (Bool-cases (has s.children_hidden_ids id)) [
  | inl e ↦
      let there : (str_eq id t ≡ true) → has s.children_hidden_ids t ≡ true =
        (λ q. subst (λ u. has s.children_hidden_ids u ≡ true) ((eq_iff id t).0 q) e) in
      rw (e, has-delete_id s.children_hidden_ids id t) (ground arith)
  | inr e ↦
      let there : (str_eq id t ≡ true) → has s.children_hidden_ids t ≡ false =
        (λ q. subst (λ u. has s.children_hidden_ids u ≡ false) ((eq_iff id t).0 q) e) in
      rw (e, has-add s.children_hidden_ids id t) (ground arith)
]

-- The rows depend on which spans are collapsed only.
row_loop-agree :
    (a b details : List String) (spans : List TraceSpan) (i : ℕ) (c : Option ℕ)
    → ((t : String) → has a t ≡ has b t)
    → row_loop a details spans i c ≡ row_loop b details spans i c
unfolding row_loop
row_loop-agree a b details [] i c e = refl
row_loop-agree a b details (span ∷ spans) i c e =
    rw
      (
        e span.span_id,
        row_loop-agree a b details spans (suc i) c e,
        row_loop-agree a b details spans (suc i) (some (span.depth + 1)) e,
        row_loop-agree a b details spans (suc i) none e,
      )
      refl

-- Toggling a span twice gives the same rows again, and a toggle of one span does not touch whether
-- another is collapsed.
children_toggle_again :
    (spans : List TraceSpan) (id : String) (s : TimelineState)
    → (generate_row_states
          (some spans)
          (children_toggle id (children_toggle id s)).children_hidden_ids
          s.detail_states
        ≡ generate_row_states (some spans) s.children_hidden_ids s.detail_states)
      × ((t : String)
          → str_eq id t ≡ false
          → has (children_toggle id s).children_hidden_ids t ≡ has s.children_hidden_ids t)
unfolding generate_row_states
children_toggle_again spans id s = (
  row_loop-agree _ s.children_hidden_ids s.detail_states spans 0 none (λ t.
      ground (arith, has-children_toggle id t (children_toggle id s), has-children_toggle id t s)),
  λ t other. ground (arith, has-children_toggle id t s),
)

set_trace-id :
    (id : String) (s : TimelineState)
    → ((set_trace id s).trace_id ≡ some id)
      × ((set_trace id s).span_name_column_width ≡ s.span_name_column_width)
unfolding set_trace
set_trace-id id s = elim (Bool-cases (same_trace s.trace_id id)) [
  | inl e ↦ rw e (known s.trace_id e, refl)
  | inr e ↦ rw e (refl, refl)
]
  where
    known : (t : Option String) → same_trace t id ≡ true → t ≡ some id
    known none e = cc
    known (some t) e = ap some (sym ((eq_iff id t).0 e))

set_trace_again : (id : String) (s : TimelineState) → set_trace id (set_trace id s) ≡ set_trace id s
set_trace_again id s =
    let same : same_trace (set_trace id s).trace_id id ≡ true =
      rw ((set_trace-id id s).0) ((eq_iff id id).1 refl) in
    unfold set_trace in (rw same refl)

-- A span's indent guide is highlighted from `addHoverIndentGuideId` to `removeHoverIndentGuideId`,
-- and neither touches another's. A new trace opens all its spans and keeps the column's width, and
-- the same trace again changes nothing.
hover-set_trace :
    (id t : String) (s : TimelineState)
    → (has (add_hover_indent_guide_id id s).hover_indent_guide_ids t
        ≡ (has s.hover_indent_guide_ids t || str_eq id t))
      × (has (remove_hover_indent_guide_id id s).hover_indent_guide_ids t
          ≡ (has s.hover_indent_guide_ids t && not (str_eq id t)))
      × ((set_trace id s).trace_id ≡ some id)
      × ((set_trace id s).span_name_column_width ≡ s.span_name_column_width)
      × (set_trace id (set_trace id s) ≡ set_trace id s)
unfolding add_hover_indent_guide_id remove_hover_indent_guide_id
hover-set_trace id t s = (
  has-add s.hover_indent_guide_ids id t,
  has-delete_id s.hover_indent_guide_ids id t,
  (set_trace-id id s).0,
  (set_trace-id id s).1,
  set_trace_again id s,
)
