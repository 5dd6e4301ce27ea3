-- ===== src/Form/Events/Schemas.antt =====
-- useFormEvents.ts: the schemas of a form change, and the defaults of new ones are written. The flag
-- beside the form is false behind an exception.
use kerthus.Base.{
  ℕ, suc, String, Bool, true, false, not, ◌&&◌, ◌||◌, List, [], ◌∷◌, ◌++◌, map, Option, none, some,
  is_empty, str_eq, any, find_index, erase_idx, take, drop, if◌then◌else◌,
}
use kerthus.Value.{
  Value, undefined, null, text, Fields, no_fields, get, has, put, erase, is_true, is_null_or_un_def,
  is_empty_value,
}
use kerthus.Value.Merge.{deep_merge}
use kerthus.Form.Values.{field_of}
use kerthus.Form.Events.{
  Env, Form, missing_field, is_field, is_divider, get_schema, emit, set_fields_value,
}

-- `_removeSchemaByFeild` on the copies of the schemas and the model.
abbrev pub remove_at : String → Option ℕ → List Fields × Fields → List Fields × Fields
remove_at field none (ss, model) = (ss, model)
remove_at field (some i) (ss, model) = (erase_idx ss i, erase field model)

abbrev pub remove_one : String → List Fields × Fields → List Fields × Fields
remove_one field r = remove_at field (find_index (is_field field) r.0) r

abbrev pub remove_all : List String → List Fields × Fields → List Fields × Fields
remove_all [] r = r
remove_all (k ∷ ks) r = remove_all ks (remove_one k r)

unfoldable pub remove_schema_by_field : Env → List String → Form → Form
remove_schema_by_field env fields form =
    let r = remove_all fields (get_schema env form, form.model) in
    record form { schema_ref = some r.0; model = r.1 }

unfoldable pub get_fields_value : Env → Form → Option Fields
get_fields_value env form = if form.has_element then env.handle form.model else some no_fields

-- The condition on a schema in `_setDefaultValue`.
abbrev pub is_wanted : Fields → Fields → Bool
is_wanted current s =
    (((not (is_divider s) && has "field" s) && is_true (get "field" s))
      && not (is_null_or_un_def (get "defaultValue" s)))
    && ((not (has (field_of s) current) || is_null_or_un_def (get (field_of s) current))
        || is_empty_value (get (field_of s) current))

abbrev pub default_values : Fields → List Fields → Fields → Fields
default_values current [] obj = obj
default_values current (s ∷ ss) obj =
    let obj' = put (field_of s) (get "defaultValue" s) obj in
    default_values current ss (if is_wanted current s then obj' else obj)

abbrev pub with_defaults : Env → List Fields → Form → Option Fields → Form × Bool
with_defaults env ss form none = (form, false)
with_defaults env ss form (some current) =
    (set_fields_value env (default_values current ss no_fields) form, true)

unfoldable pub set_default_value : Env → List Fields → Form → Form × Bool
set_default_value env ss form = with_defaults env ss form (get_fields_value env form)

-- `schemaRef.value = ss` behind a call that may have thrown.
abbrev pub then_schemas : List Fields → Form × Bool → Form × Bool
then_schemas ss (form, ok) =
    if ok then (record form { schema_ref = some ss }, true) else (form, false)

abbrev pub is_prefix : Option String → Fields → Bool
is_prefix none s = false
is_prefix (some k) s = is_field k s

abbrev pub has_prefix : Option String → Bool
has_prefix none = false
has_prefix (some k) = not (is_empty k)

abbrev pub append_at : Env → List Fields → List Fields → Bool → Form → Option ℕ → Form × Bool
append_at env new ss first form none =
    set_default_value env new
      (record form { schema_ref = some (if first then new ++ ss else ss ++ new) })
append_at env new ss first form (some i) =
    then_schemas (take (suc i) ss ++ new ++ drop (suc i) ss) (set_default_value env new form)

unfoldable pub append_schema_by_field :
    Env → List Fields → Option String → Bool → Form → Form × Bool
append_schema_by_field env new prefix first form =
    let ss = get_schema env form in
    append_at env new ss first form
      (if not (has_prefix prefix) || first then none else find_index (is_prefix prefix) ss)

-- `item.component === 'Divider' || (Reflect.has(item, 'field') && item.field)`
abbrev pub is_named : Fields → Bool
is_named s = is_divider s || (has "field" s && is_true (get "field" s))

abbrev pub all_named : List Fields → Bool
all_named ss = not (any (λ s. not (is_named s)) ss)

unfoldable pub reset_schema : Env → List Fields → Form → Form
reset_schema env us form =
    if all_named us then record form { schema_ref = some us } else emit missing_field form

-- `===` on two fields.
abbrev pub same_field : Value → Value → Bool
same_field (text s) (text t) = str_eq s t
same_field undefined undefined = true
same_field null null = true
same_field v w = false

-- `_val` behind the loop over the updates.
abbrev pub last_update : Fields → List Fields → Option Fields → Option Fields
last_update s [] o = o
last_update s (u ∷ us) o =
    last_update s us (if same_field (get "field" s) (get "field" u) then some u else o)

abbrev pub updated : Env → List Fields → Fields → Fields
updated env us s = elim (last_update s us none) [ none ↦ s | some u ↦ deep_merge env.indices u s ]

unfoldable pub update_schema : Env → List Fields → Form → Form × Bool
update_schema env us form =
    if all_named us
    then (let ss = map (updated env us) (get_schema env form) in
        then_schemas (env.uniq_by ss) (set_default_value env ss form))
    else (emit missing_field form, true)
