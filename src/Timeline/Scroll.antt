-- ===== src/Timeline/Scroll.antt =====
-- utils/ScrollManager.js: which span the keys scroll to. As in Positions, an index that may be -1 has
-- one added to it. The ids of spans are not empty, and the accessors are those of the list of spans,
-- whose set of collapsed spans is always there.
pub mod Hidden
pub mod Next
pub mod Target
mod Tests
use teletrace.Base.{
  ℕ, zero, suc, ◌+◌, ◌-◌, ◌*◌, ◌==◌, String, Bool, true, false, not, ◌&&◌, ◌||◌, Option, none, some,
  List, [], ◌∷◌, if◌then◌else◌, length, Map, map_get,
}
use teletrace.Numbers.Int.{ℤ, pos, ◌+ℤ◌, ◌*ℤ◌, ltb_ℤ, eqb_ℤ}
use teletrace.Texts.{has, add}
use teletrace.Timeline.Dragging.{one}

-- A reference of a span; its `parentSpanId` is none if it is missing or empty.
pub record Reference : Type 0 where
  pub parent_span_id : Option String
  pub span_id : String

-- What is read of a span; missing references are an empty list.
pub record ScrollSpan : Type 0 where
  pub span_id : String
  pub start_time : ℕ
  pub duration : ℕ
  pub references : List Reference

-- What a round of `isSpanHidden` finds: a hidden parent, the last parent, and all parents so far.
pub record Checked : Type 0 where
  pub is_hidden : Bool
  pub parent_id : Option String
  pub parent_ids : List String

-- `references.some(checkRef)`, from the state of the round.
unfoldable pub check_refs : (children_are_hidden : List String) → List Reference → Checked → Checked
unfolding has add
check_refs children_are_hidden [] c = c
check_refs children_are_hidden (ref ∷ refs) c =
    let found : Checked = record {
      is_hidden = has children_are_hidden ref.span_id;
      parent_id = some ref.span_id;
      parent_ids = add c.parent_ids ref.span_id;
    } in
    let skipped = check_refs children_are_hidden refs c in
    let followed = check_refs children_are_hidden refs found in
    elim ref.parent_span_id [
      | none ↦ skipped
      | some parent ↦ (if has children_are_hidden ref.span_id then found else followed)
    ]

-- The loop of `isSpanHidden` on fuel, none where it runs out: whether the span is hidden, and the
-- parents that were seen.
unfoldable pub hidden_loop :
    (fuel : ℕ)
    → (children_are_hidden : List String) → (spans_map : Map ScrollSpan) → List Reference
    → (parent_ids : List String) → Option (Bool × List String)
unfolding check_refs map_get
hidden_loop zero children_are_hidden spans_map references parent_ids = none
hidden_loop (suc fuel) children_are_hidden spans_map references parent_ids =
    let c =
      check_refs children_are_hidden references
        (record { is_hidden = false; parent_id = none; parent_ids = parent_ids }) in
    elim c.is_hidden [
      | true ↦ some (true, c.parent_ids)
      | false ↦ (elim c.parent_id [
        | none ↦ some (false, c.parent_ids)
        | some parent_id ↦ (elim (map_get parent_id spans_map) [
          | none ↦ some (false, c.parent_ids)
          | some parent ↦
              hidden_loop fuel children_are_hidden spans_map parent.references c.parent_ids
        ])
      ])
    ]

-- `isSpanHidden`.
unfoldable pub is_span_hidden :
    (fuel : ℕ)
    → ScrollSpan
    → (children_are_hidden : List String) → Map ScrollSpan
    → Option (Bool × List String)
is_span_hidden fuel span children_are_hidden spans_map =
    hidden_loop fuel children_are_hidden spans_map span.references []

-- `childrenAreHidden.add(...parentIDs)`: `add` takes its first argument only.
abbrev pub add_first : List String → List String → List String
add_first [] set = set
add_first (id ∷ ids) set = add set id

abbrev pub span_at : List ScrollSpan → ℕ → Option ScrollSpan
span_at [] i = none
span_at (span ∷ spans) zero = none
span_at (span ∷ spans) (suc zero) = some span
span_at (span ∷ spans) (suc (suc i)) = span_at spans (suc i)

-- What `_scrollToVisibleSpan` works with: the trace, the range of the view, and the direction.
pub record Scrolling : Type 0 where
  pub spans : List ScrollSpan
  pub spans_map : Map ScrollSpan
  pub trace_start_time : ℕ
  pub trace_duration : ℕ
  pub view_start : ℤ
  pub view_end : ℤ
  pub is_up : Bool

-- A step in the direction, and one against it.
abbrev pub step_on : Bool → ℕ → ℕ
step_on is_up i = if is_up then i - 1 else i + 1

abbrev pub step_back : Bool → ℕ → ℕ
step_back is_up i = if is_up then i + 1 else i - 1

abbrev pub boundary_of : Scrolling → ℕ
boundary_of w = if w.is_up then 0 else length w.spans + 1

-- `traceStartTime + duration * view`, in billionths of a microsecond.
abbrev pub view_time : Scrolling → ℤ → ℤ
view_time w view = pos (w.trace_start_time * one) +ℤ pos w.trace_duration *ℤ view

-- A span that does not reach into the range of the view, if that is not the whole.
unfoldable pub is_out_of_view : Scrolling → ScrollSpan → Bool
is_out_of_view w span =
    (not (eqb_ℤ w.view_start (pos 0)) || not (eqb_ℤ w.view_end (pos one)))
    && (ltb_ℤ (view_time w w.view_end) (pos (span.start_time * one))
        || ltb_ℤ (pos ((span.start_time + span.duration) * one)) (view_time w w.view_start))

-- A round of the loop over the spans: it goes on with a set, or finds a span.
pub data Look : Type 0 where
  passes : (children_are_hidden : List String) → Look
  finds : Look

unfoldable pub look : (fuel : ℕ) → Scrolling → List String → ScrollSpan → Option Look
unfolding is_out_of_view is_span_hidden
look fuel w children_are_hidden span =
    if is_out_of_view w span
    then some (passes children_are_hidden)
    else (elim (is_span_hidden fuel span children_are_hidden w.spans_map) [
      | none ↦ none
      | some (is_hidden, parent_ids) ↦
          (if is_hidden
            then some (passes (add_first parent_ids children_are_hidden))
            else some finds)
    ])

-- The loop from the index `i`: the index found, if there is one, and the set after it; none is a
-- TypeError, or too little fuel.
unfoldable pub next_loop :
    (rounds fuel : ℕ) → Scrolling → (i : ℕ) → List String → Option (Option ℕ × List String)
unfolding look
next_loop zero fuel w i children_are_hidden = none
next_loop (suc rounds) fuel w i children_are_hidden = elim (i == boundary_of w) [
  | true ↦ some (none, children_are_hidden)
  | false ↦ (elim (span_at w.spans i) [
    | none ↦ none
    | some span ↦ (elim (look fuel w children_are_hidden span) [
      | none ↦ none
      | some found ↦ (elim found [
        | passes set ↦ next_loop rounds fuel w (step_on w.is_up i) set
        | finds ↦ some (some i, children_are_hidden)
      ])
    ])
  ])
]

-- The `do … while` that goes back to a span that is not hidden.
unfoldable pub fallback_loop : (rounds fuel : ℕ) → Scrolling → (i : ℕ) → List String → Option ℕ
unfolding is_span_hidden
fallback_loop zero fuel w i children_are_hidden = none
fallback_loop (suc rounds) fuel w i children_are_hidden = elim (span_at w.spans i) [
  | none ↦ none
  | some span ↦ (elim (is_span_hidden fuel span children_are_hidden w.spans_map) [
    | none ↦ none
    | some (is_hidden, parent_ids) ↦ (elim is_hidden [
      | true ↦ fallback_loop rounds fuel w (i - 1) (add_first parent_ids children_are_hidden)
      | false ↦ some i
    ])
  ])
]

-- From what the loop leaves: the first span counts as none found (`!nextSpanIndex`).
unfoldable pub settle : (rounds fuel : ℕ) → Scrolling → Option ℕ × List String → Option ℕ
unfolding fallback_loop
settle rounds fuel w (found, children_are_hidden) =
    let back =
      fallback_loop rounds fuel w (step_back w.is_up (boundary_of w)) children_are_hidden in
    elim found [ none ↦ back | some i ↦ (if i == 1 then back else some i) ]

-- The index where the loop starts, one row inside the window unless it is at an end of the trace.
unfoldable pub start_index : Scrolling → (span_index : ℕ) → ℕ
start_index w span_index = step_on w.is_up (
    if span_index == 1 || span_index == length w.spans
    then span_index
    else step_back w.is_up span_index)

-- `_scrollToVisibleSpan` up to its `nextSpanIndex`, after which the source calls `this.scrollPast`,
-- which does not exist (line 193): where this goes to a span, the source ends in a TypeError. From the index of the span at the edge of the
-- view: it stays where it is at that end of the trace, or goes to a span.
pub data ScrollTarget : Type 0 where
  stays : ScrollTarget
  goes : ℕ → ScrollTarget

unfoldable pub scroll_target :
    (rounds fuel : ℕ)
    → Scrolling
    → (collapsed : List String) → (span_index : ℕ) → Option ScrollTarget
unfolding next_loop settle start_index
scroll_target rounds fuel w collapsed span_index =
    if (span_index == 1 && w.is_up) || (span_index == length w.spans && not w.is_up)
    then some stays
    else (elim (next_loop rounds fuel w (start_index w span_index) collapsed) [
      | none ↦ none
      | some left ↦ (elim (settle rounds fuel w left) [ none ↦ none | some i ↦ some (goes i) ])
    ])
