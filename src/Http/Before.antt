-- ===== src/Http/Before.antt =====
-- web/admin/src/utils/http/axios: `beforeRequestHook` of index.ts, with helper.ts.
pub mod Headers
pub mod Dates
pub mod Sent
pub mod Tests
use Prim.Native.Char.{Char, code}
use Prim.Native.String as Text
use kerthus.Base.{
  ℕ, String, Bool, true, false, not, ◌&&◌, ◌||◌, ◌==◌, ltb, List, [], ◌∷◌, Option, none, some,
  is_empty, str_eq, if◌then◌else◌,
}
use kerthus.Value.{
  Value, undefined, null, bool, number, text, date, blob, func, array, object, Values, no_values,
  more, Fields, no_fields, with_field, get, has, put, is_true, is_text,
}
use kerthus.Value.Merge.{put_all}
use kerthus.Http.Query.{set_obj_to_url_params}
use kerthus.Routes.Url.{trim, after}

-- The code outside of these files: the text of a date in the format of helper.ts, what the `format`
-- function of an object answers, `encodeURIComponent` of a value, the elements of an array or a text
-- by index, `instanceof FormData`, `qs.stringify` and the time.
pub record Env : Type 0 where
  pub format_date : ℕ → String
  pub format_by : ℕ → String
  pub encode : Value → String
  pub indices : Value → Fields
  pub is_form_data : Value → Bool
  pub stringify : Value → String
  pub now : ℕ

-- The fields of a request that the hooks read or write: `body` is its `data`, and `has_data` is
-- `Reflect.has(config, 'data')`.
pub record Config : Type 0 where
  pub url : String
  pub method : Option String
  pub params : Value
  pub body : Value
  pub has_data : Bool
  pub headers : Option Fields

pub record Options : Type 0 where
  pub api_url : Value
  pub url_prefix : String
  pub join_prefix : Bool
  pub join_params_to_url : Bool
  pub format_date : Bool
  pub join_time : Bool

abbrev pub is_func : Value → Bool
is_func (func n) = true
is_func v = false

abbrev pub called : Env → Value → Value
called env (func n) = text (trim (env.format_by n))
called env v = v

-- `formatRequestDate` on the fields of an object; arrays are left as they are.
unfoldable mutual
  pub format_value : Env → Value → Value
  format_value env (date n) = text (trim (env.format_date n))
  format_value env (text s) = text (trim s)
  format_value env (object f) =
      let rest = format_fields env f in
      if is_func (get "format" f) then called env (get "format" f) else object rest
  format_value env undefined = undefined
  format_value env null = null
  format_value env (bool b) = bool b
  format_value env (number n) = number n
  format_value env (blob n) = blob n
  format_value env (func n) = func n
  format_value env (array vs) = array vs

  pub format_fields : Env → Fields → Fields
  format_fields env no_fields = no_fields
  format_fields env (with_field k v f) = with_field k (format_value env v) (format_fields env f)

-- A call of `formatRequestDate`; dates and arrays in place of an object of parameters are left out.
abbrev pub format_request_date : Env → Value → Value
format_request_date env (object f) = object (format_fields env f)
format_request_date env v = v

abbrev pub is_end : Option String → Bool
is_end none = false
is_end (some s) = is_empty s

-- `config.method?.toUpperCase() === 'GET'`
abbrev pub is_get_method : Option String → Bool
is_get_method none = false
is_get_method (some m) = is_end (after (b'g' ∷ b'e' ∷ b't' ∷ []) m)

abbrev pub text_or_empty : Value → String
text_or_empty (text s) = s
text_or_empty v = ""

abbrev pub fields_or_empty : Value → Fields
fields_or_empty (object f) = f
fields_or_empty v = no_fields

-- The own fields that `Object.assign` reads.
abbrev pub own_fields : Env → Value → Fields
own_fields env (object f) = f
own_fields env (array vs) = env.indices (array vs)
own_fields env (text s) = env.indices (text s)
own_fields env v = no_fields

-- `value || other`
abbrev pub or_value : Value → Value → Value
or_value v w = if is_true v then v else w

abbrev pub put_url : String → Config → Config
put_url url config = record config { url = url }

-- `${urlPrefix}` and then `${apiUrl}` before the URL.
abbrev pub prefixed : Options → String → String
prefixed o url =
    let inner = if o.join_prefix then Text.◌++◌ o.url_prefix url else url in
    if is_true o.api_url && is_text o.api_url
    then Text.◌++◌ (text_or_empty o.api_url) inner
    else inner

-- `Object.assign(params, joinTimestamp(joinTime, false))`; of an array the elements only.
abbrev pub stamped : Env → Bool → Value → Value
stamped env join (object f) = object (if join then put "_t" (number env.now) f else f)
stamped env join v = v

abbrev pub stamp_text : Env → Bool → (ℕ → String) → String
stamp_text env join show = if join then Text.◌++◌ "?_t=" (show env.now) else ""

-- `Object.keys(data).length > 0 || data instanceof FormData`
abbrev pub has_keys : Env → Value → Bool
has_keys env (date n) = true
has_keys env v = has_any (own_fields env v) || env.is_form_data v
  where
    has_any : Fields → Bool
    has_any no_fields = false
    has_any (with_field k w f) = true

-- The parameters of a request that is none of `GET`, beside its data.
abbrev pub placed : Env → Value → Config → Config
placed env params config =
    if (config.has_data && is_true config.body) && has_keys env config.body
    then record config { params = params }
    else record config { params = undefined; body = params; has_data = true }

abbrev pub joined_url : Env → Config → Config
joined_url env config =
    put_url
      (set_obj_to_url_params env.encode config.url (
        put_all env.indices (own_fields env config.body)
          (put_all env.indices (own_fields env config.params) no_fields)))
      config

-- The hook behind the prefixes and the dates of the data, for the parameters `params`.
abbrev pub hook_get : Env → (ℕ → String) → Options → Value → Config → Config
hook_get env show o (text s) config = record config {
  url = Text.◌++◌ config.url (Text.◌++◌ s (stamp_text env o.join_time show));
  params = undefined;
}
hook_get env show o params config = record config { params = stamped env o.join_time params }

abbrev pub hook_send : Env → Options → Value → Config → Config
hook_send env o (text s) config = record config { url = Text.◌++◌ config.url s; params = undefined }
hook_send env o params config =
    let config' =
      placed env (if o.format_date then format_request_date env params else params) config in
    if o.join_params_to_url then joined_url env config' else config'

abbrev pub with_dates : Env → Options → Config → Config
with_dates env o config = record config {
  body = if o.format_date then format_request_date env config.body else config.body;
}

unfoldable pub before_request_hook : Env → (ℕ → String) → Options → Config → Config
before_request_hook env show o config =
    let params = or_value config.params (object no_fields) in
    let config' = with_dates env o (put_url (prefixed o config.url) config) in
    if is_get_method config.method
    then hook_get env show o params config'
    else hook_send env o params config'
