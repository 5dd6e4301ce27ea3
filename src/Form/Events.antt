-- ===== src/Form/Events.antt =====
-- useFormEvents.ts, `setFieldsValue` and what it reads, with `getSchema` of BasicForm.vue and
-- `handleInputNumberValue` of helper.ts. The mutations of one call are one step.
pub mod Schemas
pub mod Submit
pub mod Kept
pub mod Reset
pub mod Appended
pub mod Removed
pub mod Basic
pub mod Tests
pub mod Once
use Prim.Native.Char.{Char, code}
use kerthus.Base.{
  ℕ, String, Bool, true, false, not, ◌&&◌, ◌||◌, ◌==◌, List, [], ◌∷◌, ◌++◌, map, Option, none, some,
  or_else, is_empty, str_eq, includes, any, find, filter, if◌then◌else◌, split_on,
}
use kerthus.Value.{
  Value, undefined, null, text, number, func, array, object, Values, no_values, more, Fields, get,
  put, keys, is_true, is_text, is_def,
}
use kerthus.Form.Values.{text_of, field_of, as_fields, map_values}

-- The code outside of the hook: `dateUtil`, a function of `componentProps` and its result, a member of
-- a value that is no plain object, `handleFormValues`, the elements of an array by index, `uniqBy` of
-- lodash-es by the field, and the text of a number.
pub record Env : Type 0 where
  pub date_util : Value → Value
  pub call : ℕ → Fields → Value
  pub inner : Value → String → Value
  pub handle : Fields → Option Fields
  pub indices : Value → Fields
  pub uniq_by : List Fields → List Fields
  pub show : ℕ → String

pub data Event : Type 0 where
  changed : String → Value → Event
  validated : List String → Event
  missing_field : Event
  custom_submit : Event
  reset : Fields → Event
  submitted : Fields → Event
  field_value_change : String → Value → Event

-- `schema_ref` has the schemas that took the place of the property `schemas`; `has_element` is the
-- reference to the form, and `is_cleared` the tick that clears the validation.
pub record Form : Type 0 where
  pub schemas : List Fields
  pub show_advanced_button : Bool
  pub schema_ref : Option (List Fields)
  pub model : Fields
  pub defaults : Fields
  pub has_element : Bool
  pub is_cleared : Bool
  pub events : List Event

abbrev pub component_of : Fields → String
component_of s = text_of (get "component" s)

-- `schema.field === key`
abbrev pub is_field : String → Fields → Bool
is_field key s = is_text (get "field" s) && str_eq (field_of s) key

abbrev date_item_type : List String
date_item_type = "DatePicker" ∷ "MonthPicker" ∷ "WeekPicker" ∷ "TimePicker" ∷ "RangePicker" ∷ []

abbrev default_value_components : List String
default_value_components = "Input" ∷ "InputPassword" ∷ "InputSearch" ∷ "InputTextArea" ∷ []

abbrev pub is_date_component : Fields → Bool
is_date_component s = includes (component_of s) date_item_type

abbrev pub is_input : Fields → Bool
is_input s = includes (component_of s) default_value_components

abbrev pub is_divider : Fields → Bool
is_divider s = str_eq (component_of s) "Divider"

-- A property with the default `true`.
abbrev pub is_on : Value → Bool
is_on undefined = true
is_on v = is_true v

abbrev pub dated : (Value → Value) → Value → Value
dated g (array vs) = array (map_values g vs)
dated g v = g v

-- The loop of `getSchema` on one schema; it writes the date into the schema itself, and `dateUtil` of
-- a date is that date.
abbrev pub with_date : Env → Fields → Fields
with_date env s =
    if (is_on (get "isHandleDateDefaultValue" s) && is_true (get "defaultValue" s))
      && is_date_component s
    then put "defaultValue" (dated env.date_util (get "defaultValue" s)) s
    else s

unfoldable pub get_schema : Env → Form → List Fields
get_schema env form =
    let dates = map (with_date env) (or_else form.schema_ref form.schemas) in
    if form.show_advanced_button then filter (λ s. not (is_divider s)) dates else dates

abbrev pub number_text : Env → Value → Value
number_text env (number n) = if n == 0 then number n else text (env.show n)
number_text env v = v

abbrev pub handle_input_number_value : Env → Option Fields → Value → Value
handle_input_number_value env none v = v
handle_input_number_value env (some s) v = if is_input s then number_text env v else v

-- `componentProps`, or what it answers.
abbrev pub props_of : Env → Fields → Value → Value
props_of env model (func n) = env.call n model
props_of env model v = v

abbrev pub component_props : Env → Fields → Option Fields → Value
component_props env model none = undefined
component_props env model (some s) = props_of env model (get "componentProps" s)

abbrev pub date_or_null : Env → Value → Value
date_or_null env v = if is_true v then env.date_util v else null

abbrev pub date_value : Env → Value → Value → Value
date_value env props (array vs) = array (map_values (date_or_null env) vs)
date_value env props v =
    if is_true v
    then (if is_true (get "valueFormat" (as_fields props)) then v else env.date_util v)
    else null

-- `nestKey.split('.').reduce((out, item) => out[item], values)`, or `none` where that throws.
abbrev pub member : Env → Value → String → Option Value
member env undefined k = none
member env null k = none
member env (object f) k = some (get k f)
member env v k = some (env.inner v k)

abbrev pub read_path : Env → List String → Option Value → Option Value
read_path env [] o = o
read_path env (k ∷ ks) none = none
read_path env (k ∷ ks) (some v) = read_path env ks (member env v k)

abbrev pub has_dot : String → Bool
has_dot String.[] = false
has_dot (String.◌∷◌ c s) = code c == b'.' || has_dot s

-- The fields of the form, and those with a path for a name.
abbrev pub fields_of : List Fields → List String
fields_of ss = filter (λ k. not (is_empty k)) (map field_of ss)

abbrev pub nest_keys : List Fields → List String
nest_keys ss = filter has_dot (fields_of ss)

-- The form, and the keys to validate.
abbrev pub Writing : Type 0
Writing = Form × List String

abbrev pub put_model : String → Value → Form → Form
put_model k v form = record form { model = put k v form.model }

abbrev pub emit : Event → Form → Form
emit e form = record form { events = form.events ++ e ∷ [] }

abbrev pub write_nest : Env → String → Option Value → Writing → Writing
write_nest env k none (form, valid) =
    if is_def (get k form.defaults)
    then (put_model k (get k form.defaults) form, valid)
    else (form, valid)
write_nest env k (some v) (form, valid) =
    if is_def v then (put_model k v form, valid ++ k ∷ []) else (form, valid)

abbrev pub write_nests : Env → Fields → List String → Writing → Writing
write_nests env values [] w = w
write_nests env values (k ∷ ks) w =
    write_nests env values ks
      (write_nest env k (read_path env (split_on b'.' k) (some (object values))) w)

-- The write of a field of the form, and the call of its `onChange`.
abbrev pub write_own : Env → List Fields → String → Value → Value → Writing → Writing
write_own env ss key value props (form, valid) =
    let is_date = any (λ s. is_field key s && is_date_component s) ss in
    let form' = put_model key (if is_date then date_value env props value else value) form in
    (
      if is_true (get "onChange" (as_fields props)) then emit (changed key value) form' else form',
      valid ++ key ∷ [],
    )

abbrev pub write_key : Env → List Fields → Fields → String → Writing → Writing
write_key env ss values key w =
    let schema = find (is_field key) ss in
    let value = handle_input_number_value env schema (get key values) in
    if includes key (fields_of ss)
    then write_own env ss key value (component_props env w.0.model schema) w
    else write_nests env values (nest_keys ss) w

unfoldable pub write_keys : Env → List Fields → Fields → List String → Writing → Writing
write_keys env ss values [] w = w
write_keys env ss values (k ∷ ks) w = write_keys env ss values ks (write_key env ss values k w)

abbrev pub validate_fields : List String → Form → Form
validate_fields valid form = if form.has_element then emit (validated valid) form else form

unfoldable pub set_fields_value : Env → Fields → Form → Form
set_fields_value env values form =
    let w = write_keys env (get_schema env form) values (keys values) (form, []) in
    validate_fields w.1 w.0
