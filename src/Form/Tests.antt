-- ===== src/Form/Tests.antt =====
-- useAdvanced.ts: a folded form of four fields, one of which is not shown; useFormValues.ts: a range.
use mathlib.Core.Option
use kerthus.Base.{ℕ, ◌≤◌, ◌≡◌, refl, String, Bool, true, false, List, [], ◌∷◌, none, some}
use kerthus.Value.{
  Value, text, number, date, array, no_values, more, Fields, no_fields, with_field, has,
}
use kerthus.Form.Values.{Range, handle_range, handle_range_time_value}
use kerthus.Form.Values.Ranges.{handle_range_time_value_lem}
use kerthus.Form.Advanced.{Col, Props, Schema, AdvanceState, number, lay_out, is_seen, col_width}
use kerthus.Form.Advanced.Folding.{IsFolded, lay_out-IsFolded}

abbrev col : ℕ → Col
col span = record { span = span; xs = 0; sm = 0; md = 0; lg = 0; xl = 0; xxl = 0 }

abbrev props : Props
props = record {
  empty_span = number 0;
  base_col_props = col 8;
  action_col_options = none;
  always_show_lines = 1;
  auto_advanced_line = 3;
}

abbrev schema : String → Bool → ℕ → Schema
schema field is_show span = record { field = field; is_show = is_show; col_props = col span }

abbrev schemas : List Schema
schemas =
    schema "name" true 0
    ∷ schema "phone" false 0
    ∷ schema "state" true 12
    ∷ schema "time" true 8
    ∷ []

abbrev folded : AdvanceState
folded = record { is_advanced = false; hide_advance_btn = false; is_load = true; action_span = 0 }

lay_out-IsFolded_example :
    IsFolded (lay_out props 1400 folded schemas 0 0).fields
    × ((lay_out props 1400 folded schemas 0 0).real_item_col_sum ≤ 24)
lay_out-IsFolded_example = lay_out-IsFolded props 1400 folded refl schemas

lay_out-fields :
    (lay_out props 1400 folded schemas 0 0).fields
    ≡ ("name", true) ∷ ("state", true) ∷ ("time", false) ∷ []
unfolding lay_out is_seen col_width
lay_out-fields = refl

-- The values of a form with two dates.
abbrev period : Range
period = record {
  field = "period";
  start_key = "from";
  end_key = "to";
  start_format = "YYYY";
  end_format = "YYYY";
}

abbrev two_dates : Fields
two_dates = with_field "period" (array (more (date 1) (more (date 2) no_values))) no_fields

abbrev year : Value → String → String
year v format = "2024"

handle_range_time_value_lem_example :
    (g : Fields) × (handle_range_time_value year (period ∷ []) two_dates ≡ some g)
    × (has "period" g ≡ false)
handle_range_time_value_lem_example =
    handle_range_time_value_lem year (period ∷ []) two_dates "period" (refl, tt) refl refl

taken_apart :
    handle_range_time_value year (period ∷ []) two_dates
    ≡ some (with_field "from" (text "2024") (with_field "to" (text "2024") no_fields))
unfolding handle_range_time_value handle_range Option.bind
taken_apart = refl

-- A number in place of the dates is an exception.
number_throws :
    handle_range_time_value year (period ∷ []) (with_field "period" (number 1) no_fields) ≡ none
unfolding handle_range_time_value handle_range Option.bind
number_throws = refl
