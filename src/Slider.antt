-- ===== src/Slider.antt =====
-- The slider of a numeric tag
-- (web/src/features/search/components/NumericTagSlider/NumericTagSlider.tsx): its React state, the
-- range that the statistics give, and the filters that it sets in the store.
pub mod Filters
pub mod Range
mod Tests
use teletrace.Base.{
  ◌≡◌, Bool, true, false, not, ◌&&◌, ◌||◌, Option, none, some, List, [], ◌∷◌, map, String, str_eq,
  if◌then◌else◌, find, any, is_some, get_or,
}
use teletrace.Numbers.{Numbers}
use teletrace.Search.Types.{Operator, gte, lte, single, num, SearchFilter, Timeframe}
use teletrace.Search.Statistics.{TagStatistic, TagStatisticsRequest, TagStatistics}
use teletrace.Store.State.{State, Zustand}
use teletrace.Store.Filters.{Immer, has_structure}
use teletrace.Store.Slices.{create_or_update_filter, delete_filter}

pub record SliderState (N : Type 0) : Type 0 where
  pub slider_values : List N
  pub absolute_min : Option N
  pub absolute_max : Option N

-- The keys of utils/tagsUtils.ts whose values are shown in milliseconds.
abbrev pub converted_timestamp_keys : List String
converted_timestamp_keys =
    "externalFields.durationNano" ∷ "span.startTimeUnixNanoSec" ∷ "span.endTimeUnixNanoSec" ∷ []

unfoldable pub is_converted_timestamp : String → Bool
is_converted_timestamp tag = any (λ k. str_eq k tag) converted_timestamp_keys

module _ {N : Type 0} where
  unfoldable pub initial_slider_state : SliderState N
  initial_slider_state = record { slider_values = []; absolute_min = none; absolute_max = none }

  unfoldable pub statistics_request : State N → TagStatisticsRequest N
  statistics_request s = record {
    filters = s.filters;
    timeframe = record {
      start_time_unix_nano_sec = s.current_timeframe.start_time_unix_nano_sec;
      end_time_unix_nano_sec = s.current_timeframe.end_time_unix_nano_sec;
    };
    desired_statistics = TagStatistic.min ∷ TagStatistic.max ∷ [];
  }

  unfoldable pub convert_display_value : String → N → (N → N) → N
  unfolding is_converted_timestamp
  convert_display_value tag v convert_fn = if is_converted_timestamp tag then convert_fn v else v

  unfoldable pub filter_exists : String → Operator → List (SearchFilter N) → Bool
  unfolding has_structure
  filter_exists tag operator filters = is_some (find (has_structure tag operator) filters)

  abbrev pub bound_filter : String → Operator → N → SearchFilter N
  bound_filter tag operator v = record {
    key_value_filter = record { key = tag; operator = operator; value = single (num v) };
  }

  abbrev pub is_empty : List N → Bool
  is_empty [] = true
  is_empty (v ∷ vs) = false

  -- What a text box shows; none is the dash.
  unfoldable pub get_text_box_value : String → N → (nano_to_ms : N → N) → SliderState N → Option N
  unfolding convert_display_value
  get_text_box_value tag v nano_to_ms s =
      if is_empty s.slider_values then none else some (convert_display_value tag v nano_to_ms)

  unfoldable pub disable_slider : (is_on is_fetching : Bool) → SliderState N → Bool
  disable_slider is_on is_fetching s = not is_on && (is_empty s.slider_values || is_fetching)

-- `undefined` is what a missing entry of an array or an empty object gives where TypeScript says
-- number.
module _ {N : Type 0} (js : Numbers N) (undefined : N) where
  -- `sliderValues[0]`, `sliderValues[1]`.
  abbrev pub lower : List N → N
  lower [] = undefined
  lower (v ∷ vs) = v

  abbrev pub upper : List N → N
  upper [] = undefined
  upper (v ∷ vs) = lower vs

  -- The warnings above the text boxes.
  unfoldable pub is_below_min : SliderState N → Bool
  is_below_min s = elim s.absolute_min [ none ↦ false | some b ↦ js.less (lower s.slider_values) b ]

  unfoldable pub is_above_max : SliderState N → Bool
  is_above_max s = elim s.absolute_max [ none ↦ false | some b ↦ js.less b (upper s.slider_values) ]

  -- What a handler sets; `seen` is the state of the rendering that the handler belongs to.
  unfoldable pub initialize_slider_values :
      (seen : SliderState N) → Option (TagStatistics N) → SliderState N → SliderState N
  initialize_slider_values seen res s =
      if is_empty seen.slider_values
      then (elim res [
        | none ↦ s
        | some r ↦ record {
          slider_values = r.min ∷ r.max ∷ [];
          absolute_min = some r.min;
          absolute_max = some r.max;
        }
      ])
      else s

  -- `bound && test(bound)`.
  abbrev when : Option N → (N → Bool) → Bool
  when none test = false
  when (some b) test = js.is_truthy b && test b

  unfoldable pub update_min_max :
      (seen : SliderState N) → (min max : N) → SliderState N → SliderState N
  update_min_max seen min max s = record s {
    absolute_min = if when seen.absolute_min (λ b. js.less min b) then some min else s.absolute_min;
    absolute_max = if when seen.absolute_max (λ b. js.less b max) then some max else s.absolute_max;
  }

  abbrev pub min_of : Option (TagStatistics N) → N
  min_of none = undefined
  min_of (some r) = r.min

  abbrev pub max_of : Option (TagStatistics N) → N
  max_of none = undefined
  max_of (some r) = r.max

  unfoldable pub update_slider_state : Option (TagStatistics N) → SliderState N → SliderState N
  unfolding initialize_slider_values update_min_max
  update_slider_state res s =
      update_min_max s (min_of res) (max_of res) (initialize_slider_values s res s)

  -- Typing into the two boxes, and moving the slider.
  unfoldable pub type_lower : String → (ms_to_nano : N → N) → String → SliderState N → SliderState N
  unfolding convert_display_value
  type_lower tag ms_to_nano text s = if js.is_nan (js.of_text text) then s else record s {
    slider_values =
        convert_display_value tag (js.of_text text) ms_to_nano ∷ upper s.slider_values ∷ [];
  }

  unfoldable pub type_upper : String → (ms_to_nano : N → N) → String → SliderState N → SliderState N
  unfolding convert_display_value
  type_upper tag ms_to_nano text s = if js.is_nan (js.of_text text) then s else record s {
    slider_values =
        lower s.slider_values ∷ convert_display_value tag (js.of_text text) ms_to_nano ∷ [];
  }

  unfoldable pub slide : String → (ms_to_nano : N → N) → List N → SliderState N → SliderState N
  unfolding convert_display_value
  slide tag ms_to_nano new_values s = record s {
    slider_values = map (λ v. convert_display_value tag v ms_to_nano) new_values;
  }

  -- The effect of a change of the number of filters.
  unfoldable pub reset_slider_value_on_filter_removed :
      String → List (SearchFilter N) → SliderState N → SliderState N
  unfolding filter_exists
  reset_slider_value_on_filter_removed tag filters s =
      if is_empty s.slider_values then s else record s {
        slider_values =
            (if filter_exists tag gte filters
              then lower s.slider_values
              else get_or s.absolute_min js.zero)
            ∷ (if filter_exists tag lte filters
                then upper s.slider_values
                else get_or s.absolute_max js.zero)
            ∷ [];
      }

module _ {N : Type 0} (z : Zustand N) (m : Immer N) where
  -- `deleteGteIfExists` and `deleteLteIfExists`; `seen` are the filters of the rendering.
  unfoldable pub delete_if_exists :
      String → Operator → (seen : List (SearchFilter N)) → State N → State N
  unfolding filter_exists delete_filter
  delete_if_exists tag operator seen s =
      if filter_exists tag operator seen then delete_filter z m tag operator s else s

module _ {N : Type 0} (js : Numbers N) (undefined : N) (z : Zustand N) (m : Immer N) where
  -- One side of the range: no filter at the absolute bound, else a filter of the value.
  unfoldable pub set_bound :
      String → Operator → (value bound : N) → (seen : List (SearchFilter N)) → State N → State N
  unfolding delete_if_exists create_or_update_filter
  set_bound tag operator value bound seen s =
      if js.equal value bound
      then delete_if_exists z m tag operator seen s
      else create_or_update_filter z m (bound_filter tag operator value) none s

  -- `handleFilters`, when both absolute bounds are known.
  unfoldable pub handle_filters_within :
      String → (min max : N) → SliderState N × State N → SliderState N × State N
  unfolding set_bound delete_if_exists
  handle_filters_within tag min max (s, store) =
      let v0 = lower js undefined s.slider_values in
      let v1 = upper js undefined s.slider_values in
      if js.less v0 min || js.less max v0
      then (
        record s { slider_values = min ∷ v1 ∷ [] },
        delete_if_exists z m tag gte store.filters store,
      )
      else if js.less max v1 || js.less v1 min
      then (
        record s { slider_values = v0 ∷ max ∷ [] },
        delete_if_exists z m tag lte store.filters store,
      )
      else if is_empty s.slider_values
      then (s, store)
      else (
        s,
        set_bound tag lte v1 max store.filters (set_bound tag gte v0 min store.filters store),
      )

  unfoldable pub handle_filters : String → SliderState N × State N → SliderState N × State N
  unfolding handle_filters_within
  handle_filters tag (s, store) = elim s.absolute_min [
    | none ↦ (s, store)
    | some min ↦ elim s.absolute_max [
      | none ↦ (s, store)
      | some max ↦ handle_filters_within tag min max (s, store)
    ]
  ]
