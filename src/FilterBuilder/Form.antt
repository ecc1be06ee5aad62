-- ===== src/FilterBuilder/Form.antt =====
-- The dialog's state and its handlers.
use teletrace.Base.{
  Bool, true, false, ◌||◌, Option, none, some, List, [], ◌∷◌, String, str_eq, if◌then◌else◌, find,
  any, get_or,
}
use teletrace.Numbers.{Numbers}
use teletrace.Search.Types.{
  Operator, is_in, ValueInputMode, str, num, FilterValue, single, array, KeyValueFilter,
  AvailableTag,
}
use teletrace.FilterBuilder.Value.{
  value_type_by_operators, mode_eq, is_blank, convert_value, is_nan, as_list,
}

pub record FormErrors : Type 0 where
  pub tag : Bool
  pub value : Bool

pub record DialogState (N : Type 0) : Type 0 where
  pub tag : Option AvailableTag
  pub form_error : FormErrors
  pub value : FilterValue N
  pub operator : Operator

abbrev pub initial_form_errors : FormErrors
initial_form_errors = record { tag = false; value = false }

-- What `handleApply` does: it shows the errors, or it hands a filter to the store and closes.
pub data Applied (N : Type 0) : Type 0 where
  refused : DialogState N → Applied N
  submitted : KeyValueFilter N → DialogState N → Applied N

module _ {N : Type 0} (js : Numbers N) where
  -- `value || []`.
  unfoldable pub value_or_empty : FilterValue N → FilterValue N
  value_or_empty (single (str s)) = if str_eq s "" then array [] else single (str s)
  value_or_empty (single (num n)) = if js.is_truthy n then single (num n) else array []
  value_or_empty (array vs) = array vs

  -- The state that the dialog opens in: for a new filter, or for one to edit, whose tag is looked
  -- up among the tags that the backend knows.
  unfoldable pub initial_state :
      Option (List AvailableTag) → Option (KeyValueFilter N) → DialogState N
  unfolding value_or_empty
  initial_state tags none = record {
    tag = none;
    form_error = initial_form_errors;
    value = array [];
    operator = is_in;
  }
  initial_state tags (some f) = record {
    tag = find (λ t. str_eq t.name f.key) (get_or tags []);
    form_error = initial_form_errors;
    value = value_or_empty f.value;
    operator = f.operator;
  }

  -- A value that is missing: a blank text or no item.
  unfoldable pub is_missing : FilterValue N → Bool
  unfolding is_blank
  is_missing (single (str s)) = is_blank s
  is_missing (single (num n)) = false
  is_missing (array []) = true
  is_missing (array (v ∷ vs)) = false

  abbrev pub tag_type : Option AvailableTag → Option String
  tag_type none = none
  tag_type (some t) = some t.type

  abbrev pub tag_name : Option AvailableTag → String
  tag_name none = ""
  tag_name (some t) = t.name

  unfoldable pub validate_form : DialogState N → FormErrors
  unfolding value_type_by_operators mode_eq is_missing convert_value is_nan
  validate_form state = record {
    tag = str_eq (tag_name state.tag) "";
    value =
        if mode_eq (value_type_by_operators state.operator) ValueInputMode.none
        then false
        else if is_missing state.value
        then true
        else any (is_nan js) (as_list js (convert_value js (tag_type state.tag) state.value));
  }

  unfoldable pub on_operator_change : Operator → DialogState N → DialogState N
  unfolding value_type_by_operators mode_eq
  on_operator_change operator prev = record prev {
    operator = operator;
    value =
        if mode_eq (value_type_by_operators prev.operator) (value_type_by_operators operator)
        then prev.value
        else array [];
    form_error = record { tag = prev.form_error.tag; value = false };
  }

  unfoldable pub on_tag_change : Option AvailableTag → DialogState N → DialogState N
  unfolding validate_form
  on_tag_change tag prev =
      let new_state : DialogState N = record prev {
        tag = tag;
        value = array [];
        operator = is_in;
      } in
      if prev.form_error.tag
      then record new_state {
        form_error = record { tag = (validate_form new_state).tag; value = false };
      }
      else new_state

  unfoldable pub on_value_change : FilterValue N → DialogState N → DialogState N
  unfolding validate_form
  on_value_change value prev =
      let new_state : DialogState N = record prev { value = value } in
      if prev.form_error.value
      then record new_state {
        form_error = record { tag = prev.form_error.tag; value = (validate_form new_state).value };
      }
      else new_state

  unfoldable pub handle_apply :
      Option (List AvailableTag) → Option (KeyValueFilter N) → DialogState N → Applied N
  unfolding validate_form convert_value initial_state
  handle_apply tags initial_filter state =
      let errors = validate_form state in
      if errors.tag || errors.value
      then refused (record state { form_error = errors })
      else submitted
          (record {
            key = tag_name state.tag;
            operator = state.operator;
            value = convert_value js (tag_type state.tag) state.value;
          })
          (initial_state tags initial_filter)
