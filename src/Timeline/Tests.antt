-- ===== src/Timeline/Tests.antt =====
-- The timeline on a small trace: "a" with the children "b", which has "c", and "d".
use teletrace.Base.{
  ◌%◌, ℕ, zero, suc, ◌+◌, ◌≡◌, ◌<◌, refl, inl, inr, String, Bool, true, false, Option, none, some,
  List, [], ◌∷◌, arith, length, str_eq, All, map, map_get,
}
use teletrace.Texts.{has}
use teletrace.Timeline.Tree.{
  TreeNode, node, Forest, nil, cons, walk_loop, walk, count, depth, find, get_path,
}
use teletrace.Timeline.Tree.Walk.{preorder, preorder_forest, walk_lem}
use teletrace.Timeline.Tree.Search.{first_visited, IsPathTo, find-get_path}
use teletrace.Timeline.Positions.{
  Positions, create, profile_data, get_row_position, find_floor_index,
}
use teletrace.Timeline.Positions.Sums.{IsSummed, prefix}
use teletrace.Timeline.Positions.Confirm.{confirmed, get_row_position-IsSummed}
use teletrace.Timeline.Positions.Floor.{IsFloor, find_floor_index_lem}
use teletrace.Timeline.Rows.{TraceSpan, TimelineState, generate_row_states}
use teletrace.Timeline.Rows.Hidden.{spans_of, shown_forest, generate_row_states-shown_forest}
use teletrace.Timeline.Rows.Index.{IsAt, bar_row, generate_row_states-IsAt}
use teletrace.Numbers.Int.{pos}
use teletrace.Timeline.Dragging.{Bounds, create as manager, dispose, mousedown, mousemove, mouseup}
use teletrace.Timeline.Dragging.Phases.{
  Happening, drag, minor, last, calls, IsTidy, IsInOrder, IsDisposed, handle_drag_event-IsInOrder,
}
use teletrace.Timeline.ViewRange.Minimap.{reframes, sets_handler}
use teletrace.Timeline.Colors.{ColorGenerator, colors_hex, color_at, cleared, get_color_by_key}
use teletrace.Timeline.Colors.Turns.{asked, get_color_by_key-asked}
use teletrace.Timeline.Tween.{create as tween, cancel}
use teletrace.Timeline.Tween.Frames.{run, completions, IsOver, create-completes}
use teletrace.Timeline.ListView.{
  Props, View, needed, needs_update, window, render, calc_view_indexes,
}
use teletrace.Timeline.ListView.Pixels.{CoversPixels, calc_view_indexes-window}
use teletrace.Timeline.ListView.Window.{Covers, render-Covers}
use teletrace.Timeline.Transform.{TransformedSpan, Walked, scan_start, scan_spans}
use teletrace.Timeline.Transform.Range.{IsInRange, IsAttained, HasDistinctIds, scan_spans_lem}
use teletrace.Timeline.Transform.Shown.{row_span}
use teletrace.Timeline.SpanTree.{get_trace_span_ids_as_tree, transform_trace_data}
use teletrace.Timeline.SpanTree.Descend.{IsIn, IsOrphan, IsDescent, visits_id}
use teletrace.Timeline.SpanTree.Complete.{transform_trace_data_lem}

abbrev trees : Forest String
trees = cons (node "a" (cons (node "b" (cons (node "c" nil) nil)) (cons (node "d" nil) nil))) nil

abbrev root : TreeNode String
root = node "__root__" trees

walk_lem_example :
    (walk_loop 9 (record { depth = 0; tree = root } ∷ []) ≡ some (preorder 0 root))
    × (walk root 0 ≡ some (preorder 0 root))
walk_lem_example = walk_lem 9 0 root (unfold count in omega arith)

abbrev is_c : TreeNode String → Bool
is_c (node id cs) = str_eq id "c"

find-get_path_example :
    (find is_c root ≡ first_visited is_c (preorder 0 root))
    × (get_path is_c root ≡ none → find is_c root ≡ none)
    × ((path : List (TreeNode String))
        → get_path is_c root ≡ some path
        → IsPathTo [] root (find is_c root) path)
find-get_path_example = find-get_path is_c root

-- Rows of 30 pixels, and the second of 50.
abbrev plain : ℕ → ℕ
plain i = 30

abbrev grown : ℕ → ℕ
grown i = elim i [ zero ↦ 30 | suc j ↦ (elim j [ zero ↦ 50 | suc k ↦ 30 ]) ]

abbrev profiled : Positions
profiled = profile_data 4 (create 1)

get_row_position-IsSummed_example :
    ((buffer_len n : ℕ) → IsSummed plain n (profile_data n (create buffer_len)))
    × ((n m : ℕ) (s : Positions) → IsSummed plain n s → IsSummed plain m (profile_data m s))
    × ((h : ℕ → ℕ) (n i : ℕ) (s : Positions)
        → IsSummed plain n s
        → i < n
        → ((get_row_position i h s).0 ≡ (some (h i), some (prefix (confirmed plain h s.known i) i)))
          × IsSummed (confirmed plain h s.known i) n (get_row_position i h s).1)
get_row_position-IsSummed_example = get_row_position-IsSummed plain

profiled-IsSummed : IsSummed grown 4 profiled
profiled-IsSummed = (get_row_position-IsSummed grown).0 1 4

find_floor_index_lem_example :
    (r : ℕ) × (t : Positions) × (find_floor_index 9 70 grown profiled ≡ some (r, t))
    × IsFloor grown 4 70 r
    × IsSummed grown 4 t
    × (t.buffer_len ≡ profiled.buffer_len)
find_floor_index_lem_example =
    find_floor_index_lem grown 4 9 70 profiled profiled-IsSummed
      (unfold profile_data in unfold create in omega arith) (omega arith) (omega arith)
      (omega arith)

generate_row_states-shown_forest_example :
    generate_row_states
      (some (spans_of (λ id. false) (preorder_forest 0 trees)))
      ("b" ∷ [])
      ("a" ∷ [])
    ≡ shown_forest (λ id. false) ("b" ∷ []) ("a" ∷ []) 0 0 trees
generate_row_states-shown_forest_example =
    generate_row_states-shown_forest (λ id. false) ("b" ∷ []) ("a" ∷ []) trees

abbrev span_at : String → ℕ → TraceSpan
span_at id depth = record { span_id = id; depth = depth; has_logs = false }

abbrev spans : List TraceSpan
spans = span_at "a" 0 ∷ span_at "b" 1 ∷ span_at "c" 2 ∷ span_at "d" 1 ∷ []

-- With "b" collapsed, the third row is that of "d".
generate_row_states-IsAt_example :
    IsAt spans (generate_row_states (some spans) ("b" ∷ []) []) 2 0 (bar_row (span_at "d" 1) 3)
unfolding has
generate_row_states-IsAt_example =
    generate_row_states-IsAt spans ("b" ∷ []) [] 2 (bar_row (span_at "d" 1) 3)
      (unfold generate_row_states in refl)

abbrev state : TimelineState
state = record {
  children_hidden_ids = "b" ∷ [];
  detail_states = [];
  hover_indent_guide_ids = [];
  jump_to_span = none;
  span_name_column_width = 25;
  trace_id = none;
}

abbrev bounds : Bounds
bounds = record { client_x_left = pos 0; width = 10; min_value = none; max_value = none }

-- A drag of the minimap's frame, with a move of the mouse that is of no interest while it lasts.
abbrev dragging : List Happening
dragging =
    drag bounds (record { event_type = mousedown; left_button = true; client_x = pos 5 })
    ∷ minor bounds (record { event_type = mousemove; left_button = true; client_x = pos 6 })
    ∷ drag bounds (record { event_type = mousemove; left_button = true; client_x = pos 6 })
    ∷ drag bounds (record { event_type = mouseup; left_button = true; client_x = pos 7 })
    ∷ []

handle_drag_event-IsInOrder_example :
    IsTidy (last dragging (manager true (sets_handler reframes)))
    × IsInOrder false
        (calls dragging (manager true (sets_handler reframes)))
        (last dragging (manager true (sets_handler reframes))).is_dragging
    × IsDisposed (dispose (last dragging (manager true (sets_handler reframes))))
handle_drag_event-IsInOrder_example =
    handle_drag_event-IsInOrder true (sets_handler reframes) dragging refl refl refl

abbrev linear : ℕ → ℕ → ℕ → ℕ → ℕ
linear t from to duration = from + t

create-completes_example :
    (completions (run linear (100 ∷ 150 ∷ 320 ∷ 400 ∷ []) (tween 100 200 0 7 9 true true)).0
      ≡ 9 ∷ [])
    × IsOver (run linear (100 ∷ 150 ∷ 320 ∷ 400 ∷ []) (tween 100 200 0 7 9 true true)).1
    × ((s : _) → run linear (100 ∷ 150 ∷ 320 ∷ 400 ∷ []) (cancel s) ≡ ([], cancel s))
create-completes_example =
    create-completes linear 100 200 0 7 9 true (100 ∷ 150 ∷ 320 ∷ 400 ∷ [])
      (inr (inr (inl (unfold tween in (omega arith, omega arith)))))

abbrev props : Props
props = record { data_length = 50; initial_draw = 20; view_buffer = 10; view_buffer_min = 5 }

abbrev view : View
view = record { start_index = 30; end_index = 44; drawn = some (record { first = 4; last = 32 }) }

render-Covers_example :
    Covers props view (needed props view) (window true props view)
    × (needs_update props (render true props view) ≡ false)
    × (render true props (render true props view) ≡ render true props view)
render-Covers_example = render-Covers props view (omega arith) (omega arith) (omega arith)

-- A list of 50 rows, scrolled to 700 pixels.
abbrev long : Positions
long = profile_data 50 (create 200)

calc_view_indexes-window_example :
    (w : View) × (u : Positions) × (calc_view_indexes 51 700 300 plain view long ≡ some (w, u))
    × IsSummed plain 50 u
    × CoversPixels plain 50 (window true props w).first (window true props w).last 700 1000
calc_view_indexes-window_example =
    calc_view_indexes-window plain 50 51 700 300 props view long
      ((get_row_position-IsSummed plain).0 200 50)
      (unfold profile_data in unfold create in omega arith) (omega arith) (omega arith)
      (inl (omega arith)) (omega arith) refl (omega arith)

abbrev raw : String → ℕ → Option String → TransformedSpan
raw id start parent = record {
  span_id = id;
  start_time = start;
  duration = 10;
  parent_span_id = parent;
  operation_name = "op";
  service_name = some "svc";
}

abbrev trace : List TransformedSpan
trace =
    raw "a" 100 none ∷ raw "b" 101 (some "a") ∷ raw "c" 102 (some "b") ∷ raw "d" 103 (some "a") ∷ []

abbrev show : ℕ → String
show n = "1"

scan_spans_lem_example :
    IsInRange (scan_spans show trace scan_start)
    × IsAttained (scan_spans show trace scan_start)
    × (length (scan_spans show trace scan_start).spans ≡ 4)
    × (HasDistinctIds trace
        → ((scan_spans show trace scan_start).spans ≡ trace)
          × All (λ a. map_get a.span_id (scan_spans show trace scan_start).span_map ≡ some a) trace)
scan_spans_lem_example = scan_spans_lem show trace

transform_trace_data_lem_example :
    (cs : Forest String) × (w : Walked) × (get_trace_span_ids_as_tree 4 trace
      ≡ some (node "__root__" cs))
    × (transform_trace_data 4 show trace ≡ some (scan_spans show trace scan_start, w))
    × ((hidden details : List String)
        → generate_row_states (some (map row_span w.spans)) hidden details
          ≡ shown_forest (λ id. false) hidden details 0 0 cs)
    × ((top last : TransformedSpan) (path : List TransformedSpan)
        → IsIn top trace
        → IsOrphan trace top
        → IsDescent trace top path last
        → visits_id last.span_id (preorder_forest 1 cs) ≡ true)
transform_trace_data_lem_example =
    transform_trace_data_lem show 4 trace
      ((refl, (refl, (refl, tt))), ((refl, (refl, tt)), ((refl, tt), (tt, tt))))
      (refl, (refl, (refl, (refl, tt)))) (omega arith)

abbrev services : List String
services = "cart" ∷ "shop" ∷ "cart" ∷ []

get_color_by_key-asked_example :
    let s = asked services cleared in
    (color : String) × (t : ColorGenerator) × (get_color_by_key colors_hex "mail" s
      ≡ (some color, t))
    × ((get_color_by_key colors_hex "mail" (asked services t)).0 ≡ some color)
    × (map_get "mail" s.cache ≡ none → color_at colors_hex (length s.cache % 5) ≡ some color)
get_color_by_key-asked_example = get_color_by_key-asked services services "mail"
