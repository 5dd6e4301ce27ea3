-- ===== src/Form/Events/Tests.antt =====
-- A form of a name and a state, with a button that a schema is put behind.
use kerthus.Base.{◌≡◌, refl, String, true, false, List, [], ◌∷◌, some, none}
use kerthus.Value.{Value, undefined, text, number, Fields, no_fields, with_field, get, has}
use kerthus.Form.Events.{Env, Form, get_schema, set_fields_value, write_keys}
use kerthus.Form.Events.Schemas.{
  get_fields_value, remove_schema_by_field, append_schema_by_field, set_default_value,
}
use kerthus.Form.Events.Submit.{invalid, reset_fields}
use kerthus.Form.Events.Kept.{set_fields_value_lem}
use kerthus.Form.Events.Removed.{remove_schema_by_field_lem}
use kerthus.Form.Events.Basic.{Basic, schema_changed, init_form, set_form_model}
use kerthus.Form.Events.Basic.Edited.{edit_reset_lem}
use kerthus.Form.Events.Appended.{append_schema_by_field_lem}

abbrev env : Env
env = record {
  date_util = λ v. v;
  call = λ n f. undefined;
  inner = λ v k. undefined;
  handle = some;
  indices = λ v. no_fields;
  uniq_by = λ ss. ss;
  show = λ n. "7";
}

abbrev schema : String → String → Value → Fields
schema field component value =
    with_field "field" (text field)
      (with_field "component" (text component) (with_field "defaultValue" value no_fields))

abbrev schemas : List Fields
schemas = schema "name" "Input" undefined ∷ schema "state" "Select" (number 1) ∷ []

abbrev model : Fields
model = with_field "name" (text "Ann") (with_field "state" (number 2) no_fields)

abbrev form : Form
form = record {
  schemas = schemas;
  show_advanced_button = false;
  schema_ref = none;
  model = model;
  defaults = with_field "state" (number 1) no_fields;
  has_element = true;
  is_cleared = false;
  events = [];
}

shown : get_schema env form ≡ schemas
unfolding get_schema
shown = refl

set_fields_value_lem_example :
    get "name" (set_fields_value env (with_field "name" (number 7) no_fields) form).model ≡ text "7"
unfolding get_schema
set_fields_value_lem_example =
    set_fields_value_lem env (with_field "name" (number 7) no_fields) form "name" refl refl

remove_schema_by_field_lem_example :
    ((remove_schema_by_field env ("name" ∷ []) form).schema_ref
      ≡ some (schema "state" "Select" (number 1) ∷ []))
    × (has "name" (remove_schema_by_field env ("name" ∷ []) form).model ≡ false)
unfolding get_schema
remove_schema_by_field_lem_example =
    remove_schema_by_field_lem env ("name" ∷ []) form "name" (refl, (refl, tt))

model_handled : get_fields_value env form ≡ some model
unfolding get_fields_value
model_handled = refl

abbrev city : Fields
city = schema "city" "Select" (number 3)

-- The form behind the first change of its schemas.
abbrev inited : Basic
inited = record { form = form; is_inited_default = true }

-- The form behind the append and the watcher.
abbrev with_city : Form
with_city =
    (schema_changed env (record inited {
      form = (append_schema_by_field env (city ∷ []) (some "name") false form).0;
    })).form

-- The schema is there, and its default is not.
append_schema_by_field_lem_example :
    (with_city.schema_ref
      ≡ some (schema "name" "Input" undefined ∷ city ∷ schema "state" "Select" (number 1) ∷ []))
    × (get "city" with_city.model ≡ undefined)
unfolding get_schema
append_schema_by_field_lem_example =
    append_schema_by_field_lem env (city ∷ []) (some "name") inited 0 model "city" refl refl refl
      model_handled refl refl

-- Behind the last schema the default is written.
appended_last :
    get "city" (append_schema_by_field env (city ∷ []) none false form).0.model ≡ number 3
unfolding append_schema_by_field set_default_value get_fields_value get_schema set_fields_value
    write_keys
appended_last = refl

-- The user's edit of the state is taken back.
edit_reset_lem_example :
    get "state"
      (reset_fields env none none false
        (invalid undefined undefined)
        (set_form_model "state" (number 5) no_fields (init_form env form))).model
    ≡ number 1
unfolding get_schema
edit_reset_lem_example =
    edit_reset_lem env false (invalid undefined undefined) form "state" (number 5) no_fields
      (schema "state" "Select" (number 1)) refl (refl, (refl, tt)) refl refl
