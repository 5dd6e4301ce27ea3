-- ===== src/Form/Events/Submit.antt =====
-- useFormEvents.ts: `resetFields` and `handleSubmit`. `submit_func` and `reset_func` are the properties
-- of the form, and `answer` what the validation ends with.
use kerthus.Base.{
  String, Bool, true, false, not, ◌&&◌, List, [], ◌∷◌, Option, none, some, find, if◌then◌else◌,
}
use kerthus.Value.{Value, bool, text, Fields, get, keys, is_true}
use kerthus.Form.Events.{
  Env, Form, reset, submitted, custom_submit, is_field, is_input, get_schema, emit, put_model,
}

-- The values, or the error with `outOfDate` and `errorFields`.
pub data Validation : Type 0 where
  valid : Fields → Validation
  invalid : Value → Value → Validation

abbrev pub is_false : Value → Bool
is_false (bool b) = not b
is_false v = false

-- The `catch` branch: the error of a validation that is not out of date goes no further.
abbrev pub is_settled : Validation → Bool
is_settled (valid f) = true
is_settled (invalid out_of_date error_fields) = is_false out_of_date && is_true error_fields

abbrev pub submit_values : Form → Option Fields → Form × Bool
submit_values form none = (form, false)
submit_values form (some f) = (emit (submitted f) form, true)

abbrev pub submit_answer : Env → Form → Validation → Form × Bool
submit_answer env form (valid f) = submit_values form (env.handle f)
submit_answer env form (invalid out_of_date error_fields) =
    (form, is_settled (invalid out_of_date error_fields))

-- The flag is false where the promise is rejected.
unfoldable pub handle_submit : Env → Option (Form → Form) → Validation → Form → Form × Bool
handle_submit env none answer form =
    if form.has_element then submit_answer env form answer else (form, true)
handle_submit env (some submit_func) answer form = (emit custom_submit (submit_func form), true)

-- `isInput ? defaultValue || '' : defaultValue`, for the schema that is found.
abbrev pub chosen : Option Fields → Value → Value
chosen none value = value
chosen (some s) value = if is_input s && not (is_true value) then text "" else value

abbrev pub reset_value : List Fields → Fields → String → Value
reset_value ss defaults key = chosen (find (is_field key) ss) (get key defaults)

unfoldable pub reset_keys : Env → List String → Form → Form
reset_keys env [] form = form
reset_keys env (k ∷ ks) form =
    reset_keys env ks (put_model k (reset_value (get_schema env form) form.defaults k) form)

-- Behind `resetFunc`.
abbrev pub reset_form : Env → Form → Form
reset_form env form =
    let form' = reset_keys env (keys form.model) form in
    emit (reset form'.model) (record form' { is_cleared = true })

abbrev pub after_reset_func : Option (Form → Form) → Form → Form
after_reset_func none form = form
after_reset_func (some reset_func) form = reset_func form

-- The submission is not awaited, so its rejection is not that of the reset.
unfoldable pub reset_fields :
    Env → Option (Form → Form) → Option (Form → Form) → Bool → Validation → Form → Form
reset_fields env reset_func submit_func submit_on_reset answer form =
    let form' = after_reset_func reset_func form in
    if not form'.has_element
    then form'
    else if submit_on_reset
    then (handle_submit env submit_func answer (reset_form env form')).0
    else reset_form env form'
