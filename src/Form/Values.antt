-- ===== src/Form/Values.antt =====
-- useFormValues.ts: the values of a form as they are handed out, and the defaults of its fields.
-- `set_path` is `set` of lodash-es, `transform` the property `transformDateFunc`, and `format_date`
-- writes a value by a format of dayjs. A key has no line break, and `none` is an exception.
pub mod Ranges
use Prim.Native.Char.{Char, code}
use mathlib.Core.Option
use kerthus.Base.{
  ℕ, String, Bool, true, false, not, ◌&&◌, ◌||◌, ◌==◌, List, [], ◌∷◌, Option, none, some, is_empty,
  if◌then◌else◌, split_on,
}
use kerthus.Value.{
  Value, undefined, text, date, func, array, object, Values, no_values, more, Fields, no_fields,
  with_field, get, put, erase, is_true, is_object, is_def, is_null_or_un_def,
}
use kerthus.Routes.Url.{trim}

-- The text without its last character, where that has the code.
abbrev pub until_last : ℕ → String → Option String
until_last p String.[] = none
until_last p (String.◌∷◌ c String.[]) = if code c == p then some "" else none
until_last p (String.◌∷◌ c (String.◌∷◌ d s)) =
    Option.map (String.◌∷◌ c) (until_last p (String.◌∷◌ d s))

abbrev pub if_some_text : Option String → Option String
if_some_text none = none
if_some_text (some s) = if is_empty s then none else some s

-- `/^\[(.+)\]$/` and `/^\{(.+)\}$/`, by the codes of the brackets
abbrev pub inside : ℕ → ℕ → String → Option String
inside p q String.[] = none
inside p q (String.◌∷◌ c s) = if code c == p then if_some_text (until_last q s) else none

-- The date parts of a mapping: `[field, [startTimeKey, endTimeKey], format]`.
pub record Range : Type 0 where
  pub field : String
  pub start_key : String
  pub end_key : String
  pub start_format : String
  pub end_format : String

abbrev pub has_format : Value → Bool
has_format (date d) = true
has_format (object f) = is_true (get "format" f)
has_format v = false

abbrev pub is_range : Values → Bool
is_range (more v (more w vs)) = has_format v && has_format w
is_range vs = false

abbrev pub map_values : (Value → Value) → Values → Values
map_values g no_values = no_values
map_values g (more v vs) = more (g v) (map_values g vs)

abbrev pub as_values : Value → Values
as_values (array vs) = vs
as_values v = more v no_values

abbrev pub as_fields : Value → Fields
as_fields (object f) = f
as_fields v = no_fields

abbrev pub is_skipped : Value → Bool
is_skipped (array no_values) = true
is_skipped (func n) = true
is_skipped v = false

module _ (transform : Option (Value → Value)) where
  -- `transformDateFunc?.(value)`
  abbrev pub transformed : Value → Value
  transformed v = elim transform [ none ↦ undefined | some g ↦ g v ]

  abbrev pub cleaned_text : Value → Value
  cleaned_text (text s) = if is_empty s then undefined else text (trim s)
  cleaned_text (array vs) = if is_range vs then array (map_values transformed vs) else array vs
  cleaned_text v = v

  -- The value behind the transformations of one entry; no text is made of an array.
  abbrev pub cleaned : Value → Value
  cleaned v = cleaned_text (if is_object v then transformed v else v)

  module _ (set_path : String → Value → Fields → Fields) where
    abbrev pub set_values : List String → Values → Fields → Fields
    set_values [] vs res = res
    set_values (k ∷ ks) no_values res = set_values ks no_values (set_path (trim k) undefined res)
    set_values (k ∷ ks) (more v vs) res = set_values ks vs (set_path (trim k) v res)

    abbrev pub set_fields : List String → Fields → Fields → Fields
    set_fields [] f res = res
    set_fields (k ∷ ks) f res = set_fields ks f (set_path (trim k) (get (trim k) f) res)

    -- `tryDeconstructArray`, then `tryDeconstructObject`, then the plain write.
    abbrev pub deconstruct_object : String → Value → Option String → Fields → Fields
    deconstruct_object key v none res = set_path key v res
    deconstruct_object key v (some s) res = set_fields (split_on b',' s) (as_fields v) res

    abbrev pub deconstruct : String → Value → Option String → Fields → Fields
    deconstruct key v none res = deconstruct_object key v (inside b'{' b'}' key) res
    deconstruct key v (some s) res = set_values (split_on b',' s) (as_values v) res

    abbrev pub handle_entry : String → Value → Fields → Fields
    handle_entry key v res =
        if is_empty key || is_skipped v
        then res
        else deconstruct key (cleaned v) (inside b'[' b']' key) res

    unfoldable pub handle_entries : Fields → Fields → Fields
    handle_entries no_fields res = res
    handle_entries (with_field k v f) res = handle_entries f (handle_entry k v res)

abbrev pub nth : Values → ℕ → Value
nth no_values i = undefined
nth (more v vs) ℕ.zero = v
nth (more v vs) (ℕ.suc i) = nth vs i

abbrev pub texts : String → Values
texts String.[] = no_values
texts (String.◌∷◌ c s) = more (text (String.◌∷◌ c "")) (texts s)

-- `const [startTime, endTime] = value`, which throws for what is not iterable.
abbrev pub two_of : Value → Option Values
two_of (array vs) = some vs
two_of (text s) = some (texts s)
two_of v = none

module _ (format_date : Value → String → String) where
  abbrev pub with_times : Range → Fields → Option Values → Option Fields
  with_times r f none = none
  with_times r f (some vs) = some (
      erase r.field (
        put r.end_key (text (format_date (nth vs 1) r.end_format))
          (put r.start_key (text (format_date (nth vs 0) r.start_format)) f)))

  unfoldable pub handle_range : Range → Fields → Option Fields
  handle_range r f =
      if is_empty r.field || is_empty r.start_key || is_empty r.end_key
      then some f
      else if not (is_true (get r.field f))
      then some (erase r.field f)
      else with_times r f (two_of (get r.field f))

  unfoldable pub handle_range_time_value : List Range → Fields → Option Fields
  handle_range_time_value [] f = some f
  handle_range_time_value (r ∷ rs) f = Option.bind (handle_range r f) (handle_range_time_value rs)

  unfoldable pub handle_form_values :
      Option (Value → Value)
      → (String → Value → Fields → Fields)
      → List Range
      → Value
      → Option Fields
  handle_form_values transform set_path ranges values =
      if is_object values
      then handle_range_time_value ranges
          (handle_entries transform set_path (as_fields values) no_fields)
      else some no_fields

-- A schema is an object with the fields `field`, `component` and `defaultValue`.
abbrev pub text_of : Value → String
text_of (text s) = s
text_of v = ""

abbrev pub field_of : Fields → String
field_of schema = text_of (get "field" schema)

-- The defaults and the model of the form behind the loop of `initDefault`.
unfoldable pub init_default : List Fields → Fields → Fields → Fields × Fields
init_default [] obj model = (obj, model)
init_default (s ∷ ss) obj model =
    let value = get "defaultValue" s in
    let model' =
      if not (is_def (get (field_of s) model)) then put (field_of s) value model else model in
    init_default ss (if is_null_or_un_def value then obj else put (field_of s) value obj)
      (if is_null_or_un_def value then model else model')
