-- ===== src/FilterBuilder/Tests.antt =====
-- The dialog on concrete states.
use teletrace.Base.{ℕ, ◌≡◌, ◌≢◌, refl, true, false, Option, none, some, [], ◌∷◌, if◌then◌else◌}
use teletrace.Numbers.Sample.{sample}
use teletrace.Search.Types.{
  is_in, gt, operator_eq, str, num, array, single, SearchFilter, AvailableTag,
}
use teletrace.Store.State.{State, assign, Zustand}
use teletrace.Store.Filters.{Immer, draft_from, finish, like, has_structure}
use teletrace.Store.Slices.Run.{lookup}
use teletrace.FilterBuilder.Form.{
  DialogState, Applied, refused, submitted, validate_form, handle_apply, tag_type, tag_name,
  initial_form_errors,
}
use teletrace.FilterBuilder.Form as Form
use teletrace.FilterBuilder.Submit.{handle_apply_submitted, IsComplete, is_valued}
use teletrace.FilterBuilder.Edit.{entered, apply_to_store, lookup-apply_value}

abbrev Num : Type 0
Num = Option ℕ

abbrev zustand : Zustand Num
zustand = record { set = λ u s. assign (u s).0 (u s).1; set_lem = λ u s. refl }

abbrev immer : Immer Num
immer = record {
  produce = λ recipe fs. finish (recipe (draft_from 0 fs));
  produce_lem = λ recipe fs. refl;
}

abbrev latency : AvailableTag
latency = record { name = "latency"; type = "Int" }

abbrev opened : SearchFilter Num
opened = record {
  key_value_filter = record { key = "latency"; operator = gt; value = single (num (some 3)) };
}

abbrev store : State Num
store = record {
  live_spans_state = record { is_on = false; interval_in_millis = 2000 };
  current_timeframe = record {
    start_time_unix_nano_sec = 1;
    end_time_unix_nano_sec = 2;
    is_relative = true;
  };
  filters = opened ∷ [];
  sort = [];
}

-- The dialog after the user typed 7.
abbrev typed : DialogState Num
typed = record {
  tag = some latency;
  form_error = initial_form_errors;
  value = single (str "7");
  operator = gt;
}

abbrev listed : DialogState Num
listed = record typed { operator = is_in; value = array (str "7" ∷ []) }

program : Unit {0}
unfolding handle_apply apply_to_store like has_structure operator_eq
program = tt

typed_submits :
    handle_apply sample none (some opened.key_value_filter) typed
    ≡ submitted
        (entered sample typed).key_value_filter
        (Form.initial_state sample none (some opened.key_value_filter))
unfolding program
typed_submits = refl

handle_apply_submitted_example :
    ((entered sample typed).key_value_filter.key ≢ "")
    × ((entered sample typed).key_value_filter.key ≡ tag_name sample typed.tag)
    × ((entered sample typed).key_value_filter.operator ≡ typed.operator)
    × (is_valued sample typed.operator ≡ true
        → IsComplete sample
            (tag_type sample typed.tag)
            (entered sample typed).key_value_filter.value)
    × (Form.initial_state sample none (some opened.key_value_filter)
        ≡ Form.initial_state sample none (some opened.key_value_filter))
handle_apply_submitted_example =
    handle_apply_submitted sample none (some opened.key_value_filter) typed
      (Form.initial_state sample none (some opened.key_value_filter))
      (entered sample typed).key_value_filter typed_submits

lookup-apply_value_example :
    lookup "latency" gt
      (apply_to_store sample zustand immer none (some opened.key_value_filter) typed store)
    ≡ (if has_structure "latency" gt opened then none else lookup "latency" gt store)
unfolding program
lookup-apply_value_example =
    lookup-apply_value sample zustand immer "latency" gt none opened typed store (refl, tt) refl
      refl refl refl
