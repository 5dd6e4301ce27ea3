-- ===== src/Form/Events/Basic.antt =====
-- BasicForm.vue: what the form does when it is mounted, when a property of it changes and when the user
-- edits a field or presses a key.
pub mod Edited
use kerthus.Base.{
  String, Bool, true, false, not, ◌&&◌, List, [], ◌∷◌, Option, none, some, str_eq, if◌then◌else◌,
}
use kerthus.Value.{Value, Fields, no_fields, get, put, is_true}
use kerthus.Form.Values.{as_fields, init_default}
use kerthus.Form.Events.{
  Env, Form, field_value_change, get_schema, emit, put_model, validate_fields, set_fields_value,
}
use kerthus.Form.Events.Schemas.{reset_schema}
use kerthus.Form.Events.Submit.{Validation, handle_submit}

-- The form, and `isInitedDefaultRef`.
pub record Basic : Type 0 where
  pub form : Form
  pub is_inited_default : Bool

-- `initDefault` of the hook for the values, on the schemas of the form.
unfoldable pub init_form : Env → Form → Form
init_form env form =
    let r = init_default (get_schema env form) no_fields form.model in
    record form { defaults = r.0; model = r.1 }

-- `onMounted`, but for the registration.
abbrev pub mounted : Env → Basic → Basic
mounted env b = record b { form = init_form env b.form }

abbrev pub is_some_schema : List Fields → Bool
is_some_schema [] = false
is_some_schema (s ∷ ss) = true

-- The watcher of `getSchema`.
unfoldable pub schema_changed : Env → Basic → Basic
schema_changed env b =
    if not b.is_inited_default && is_some_schema (get_schema env b.form)
    then record { form = init_form env b.form; is_inited_default = true }
    else b

-- The watchers of the properties `model` and `schemas`.
abbrev pub model_changed : Env → Option Fields → Form → Form
model_changed env none form = form
model_changed env (some model) form = set_fields_value env model form

abbrev pub schemas_changed : Env → Option (List Fields) → Form → Form
schemas_changed env none form = reset_schema env [] form
schemas_changed env (some ss) form = reset_schema env ss form

-- An edit of the user; a field that is not linked is validated.
unfoldable pub set_form_model : String → Value → Fields → Form → Form
set_form_model key value schema form =
    let form' = emit (field_value_change key value) (put_model key value form) in
    let item_props = get "itemProps" schema in
    if is_true item_props && not (is_true (get "autoLink" (as_fields item_props)))
    then validate_fields (key ∷ []) form'
    else form'

-- The key that is pressed, and the upper-case name of the tag of its target, where that is an element.
unfoldable pub handle_enter_press :
    Env → Option (Form → Form) → Validation → Bool → String → Option String → Form → Form × Bool
handle_enter_press env submit_func answer auto_submit key none form = (form, true)
handle_enter_press env submit_func answer auto_submit key (some tag) form =
    if (auto_submit && str_eq key "Enter") && str_eq tag "INPUT"
    then handle_submit env submit_func answer form
    else (form, true)
