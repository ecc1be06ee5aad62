-- ===== src/Timeline/ViewRange/Tests.antt =====
-- The range of the view on a minimap of 1000 pixels.
use teletrace.Base.{
  ◌≡◌, ◌≢◌, refl, true, false, Option, none, some, [], ◌∷◌, ◌>>=◌, if◌then◌else◌, arith, ap,
  some_inj,
}
use teletrace.Numbers.Int.{
  ℤ, pos, negsuc, pos_part, neg_part, ◌+ℤ◌, ◌-ℤ◌, ◌*ℤ◌, ◌≤ℤ◌, ◌<ℤ◌, div_ℤ, ltb_ℤ,
}
use teletrace.Timeline.Dragging.{
  one, Rect, Bounds, MouseEvent, mouseenter, create, get_bounds, get_position, call_handler,
  handle_drag_event, handle_minor_mouse_event, stop_dragging, reset_bounds,
}
use teletrace.Timeline.ViewRange.{
  TimeRange, update_view_range_time, update_next_view_range_time, adjust_view_range,
  shortcut_handler, shortcut_config, zoom_in,
}
use teletrace.Timeline.ViewRange.Minimap.{
  DragType, reframes, shifts_start, shifts_end, Layer, create_layer, get_dragging_bounds, drag_on,
  move_on, reframe_drag_update, reframe_drag_end, frame_of, widened, from_zero, to_one, after,
  call_scrubber, scrubber_drag_end, scrubber_enter_leave, scrubber_drag_update,
}
use teletrace.Timeline.ViewRange.Minimap.Layout.{Fill, reframe_fill, reframe_fill-reframe_drag_end}
use teletrace.Timeline.ViewRange.Gesture.{gesture, IsReady}
use teletrace.Timeline.ViewRange.Framing.{IsFrame, gesture-IsFrame}
use teletrace.Timeline.ViewRange.Scrubbers.{IsOrdered, gesture-IsOrdered}
use teletrace.Timeline.ViewRange.Header.{
  map_from_view_sub_range, header_drag_end, get_next_view_layout,
}
use teletrace.Timeline.ViewRange.Header.Zoom.{IsAnchored, IsWithin, header_drag_end_lem}
use teletrace.Timeline.ViewRange.Header.Layout.{Shows, get_next_view_layout-Shows}

abbrev clamped : ℤ → ℤ → ℤ → ℤ
clamped n lo hi = if ltb_ℤ n lo then lo else if ltb_ℤ hi n then hi else n

-- The middle half, and the whole.
abbrev middle : TimeRange
middle = record {
  view_start = pos 250000000;
  view_end = pos 750000000;
  cursor = none;
  shift_start = none;
  shift_end = none;
  reframe = none;
}

abbrev whole : TimeRange
whole = record middle { view_start = pos 0; view_end = pos one }

-- A range that is narrower than the least leaves the trace when it is zoomed in.
abbrev narrow : TimeRange
narrow = record whole { view_end = pos 4000000 }

zooms_out_of_trace : (shortcut_handler clamped zoom_in narrow).view_start ≡ negsuc 2999999
unfolding shortcut_handler shortcut_config adjust_view_range update_view_range_time ◌+ℤ◌ ◌-ℤ◌ div_ℤ
zooms_out_of_trace = refl

abbrev root : Rect
root = record { left = pos 0; width = 1000 }

abbrev minimap : Layer
minimap = create_layer whole

minimap-IsReady : (tag : DragType) → IsReady tag minimap
unfolding create_layer create
minimap-IsReady reframes = record {
  is_free = refl;
  starts = refl;
  moves = refl;
  ends = refl;
  unframed = refl;
}
minimap-IsReady shifts_start = record {
  is_free = refl;
  starts = refl;
  moves = refl;
  ends = refl;
  unframed = refl;
}
minimap-IsReady shifts_end = record {
  is_free = refl;
  starts = refl;
  moves = refl;
  ends = refl;
  unframed = refl;
}

whole-IsOrdered : IsOrdered whole
whole-IsOrdered = record { starts = omega arith; ordered = omega arith; ends = omega arith }

middle-IsOrdered : IsOrdered middle
middle-IsOrdered = record { starts = omega arith; ordered = omega arith; ends = omega arith }

abbrev unit_bounds : Bounds
unit_bounds = record {
  client_x_left = pos 0;
  width = 1000;
  min_value = some (pos 0);
  max_value = some (pos one);
}

minimap_bounds :
    get_bounds (get_dragging_bounds root minimap.time reframes) minimap.dragger_reframe
    ≡ unit_bounds
unfolding get_bounds get_dragging_bounds create_layer create
minimap_bounds = refl

gesture-IsFrame_example :
    (l' : Layer) × (gesture root reframes (pos 600) (pos 300 ∷ pos 100 ∷ []) (pos 200) minimap
      ≡ some l')
    × IsFrame
        (get_position (pos 200) unit_bounds).value
        (get_position (pos 600) unit_bounds).value
        (l'.time.view_start, l'.time.view_end)
    × (l'.dragger_reframe.is_dragging ≡ false)
gesture-IsFrame_example =
    gesture-IsFrame root (pos 600) (pos 200) (pos 300 ∷ pos 100 ∷ []) minimap unit_bounds
      (minimap-IsReady reframes) minimap_bounds refl refl

gesture-IsOrdered_example :
    (l' : Layer) × (gesture root shifts_start (pos 0) (pos 900 ∷ []) (pos 400) minimap ≡ some l')
    × IsOrdered l'.time
    × (shifts_start ≡ shifts_start → l'.time.view_end ≡ minimap.time.view_end)
    × (shifts_start ≡ shifts_end → l'.time.view_start ≡ minimap.time.view_start)
unfolding create_layer create
gesture-IsOrdered_example =
    gesture-IsOrdered root shifts_start (pos 0) (pos 400) (pos 900 ∷ []) minimap
      (minimap-IsReady shifts_start) refl whole-IsOrdered

-- The mouse at a scrubber keeps the bounds of that time: the other scrubber is dragged, and then
-- this one beyond it.
abbrev at_scrubber : MouseEvent
at_scrubber = record { event_type = mouseenter; left_button = true; client_x = pos 0 }

abbrev crossed : Option Layer
crossed =
    move_on root shifts_start at_scrubber minimap
    >>= gesture root shifts_end (pos 1000) [] (pos 300)
    >>= gesture root shifts_start (pos 0) [] (pos 500)

abbrev ends_of : Option Layer → Option (ℤ × ℤ)
ends_of none = none
ends_of (some l) = some (l.time.view_start, l.time.view_end)

scrubbers_cross : ends_of crossed ≡ some (pos 500000000, pos 300000000)
unfolding drag_on move_on create_layer create get_dragging_bounds after call_scrubber call_handler
    handle_drag_event handle_minor_mouse_event get_bounds get_position stop_dragging reset_bounds
    scrubber_enter_leave scrubber_drag_update scrubber_drag_end update_view_range_time
    update_next_view_range_time ◌-ℤ◌ ◌*ℤ◌ div_ℤ
scrubbers_cross = refl

different : pos 750000000 ≢ pos 250000000
different same = absurd (omega (arith, ap pos_part same))

abbrev framed : TimeRange
framed = record middle { reframe = some (record { anchor = pos 250000000; shift = pos 300000000 }) }

reframe_fill-reframe_drag_end_example :
    (fill : Fill) × (reframe_fill (reframe_drag_update (pos 750000000) framed) ≡ some fill)
    × (fill.x
        ≡ (reframe_drag_end
            (pos 750000000)
            (reframe_drag_update (pos 750000000) framed)).view_start)
    × (fill.x +ℤ fill.width
        ≡ (reframe_drag_end (pos 750000000) (reframe_drag_update (pos 750000000) framed)).view_end)
reframe_fill-reframe_drag_end_example =
    reframe_fill-reframe_drag_end (pos 750000000) framed (omega arith) (omega arith) (omega arith)
      (omega arith) different

framed-IsAnchored : IsAnchored framed
framed-IsAnchored = record {
  holds = λ r is_r.
      let anchor_is : pos 250000000 ≡ r.anchor = ap (λ o. o.anchor) (some_inj is_r) in
      (
        omega (arith, ap pos_part anchor_is, ap neg_part anchor_is),
        omega (arith, ap pos_part anchor_is, ap neg_part anchor_is),
      );
}

framed-IsOrdered : IsOrdered framed
framed-IsOrdered = record { starts = omega arith; ordered = omega arith; ends = omega arith }

-- Let go in the middle of the header, which shows the middle half.
abbrev shift : ℤ
shift = map_from_view_sub_range framed.view_start framed.view_end (pos 500000000)

abbrev zoomed : TimeRange
zoomed = header_drag_end (pos 500000000) framed

header_drag_end_lem_example :
    IsFrame shift (pos 250000000) (zoomed.view_start, zoomed.view_end)
    × (shift ≢ pos 250000000
        → IsWithin (pos 250000000) (pos 750000000) (zoomed.view_start, zoomed.view_end))
header_drag_end_lem_example =
    header_drag_end_lem (pos 500000000) framed framed-IsOrdered framed-IsAnchored (omega arith)
      (omega arith)

-- Let go left of the header, with the whole trace shown: the frame forgets its anchor.
abbrev half_drawn : TimeRange
half_drawn = record whole {
  reframe = some (record { anchor = pos 500000000; shift = pos 300000000 });
}

anchor_is_lost : (header_drag_end (negsuc 99999999) half_drawn).view_end ≡ pos 10000000
unfolding header_drag_end map_from_view_sub_range frame_of widened from_zero to_one
    update_view_range_time ◌+ℤ◌ ◌-ℤ◌ ◌*ℤ◌ div_ℤ
anchor_is_lost = refl

get_next_view_layout-Shows_example :
    (negsuc 4 <ℤ pos 400000000
      → Shows
          (ltb_ℤ (pos 400000000) (negsuc 4))
          (negsuc 4)
          (pos 400000000)
          (get_next_view_layout (negsuc 4) (pos 400000000)))
    × (pos 400000000 ≤ℤ negsuc 4
        → Shows
            (ltb_ℤ (pos 400000000) (negsuc 4))
            (pos 400000000)
            (negsuc 4)
            (get_next_view_layout (negsuc 4) (pos 400000000)))
get_next_view_layout-Shows_example = get_next_view_layout-Shows (negsuc 4) (pos 400000000)
