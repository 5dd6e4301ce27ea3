-- ===== src/Http/Before/Headers.antt =====
-- web/admin/src/utils/http/axios: `supportFormData` of Axios.ts, `requestInterceptors` of index.ts and
-- requestHeaders.ts.
use kerthus.Base.{
  String, Bool, false, not, ◌&&◌, ◌||◌, Option, none, some, is_empty, str_eq, if◌then◌else◌,
}
use kerthus.Value.{Value, undefined, null, bool, text, object, Fields, no_fields, get, put, is_true}
use kerthus.Value.Merge.{put_all}
use kerthus.Http.Before.{Env, Config, is_get_method, or_value}

abbrev form_urlencoded : String
form_urlencoded = "application/x-www-form-urlencoded;charset=UTF-8"

abbrev pub text_is : String → Value → Bool
text_is s (text t) = str_eq t s
text_is s v = false

-- `config.headers || this.options.headers`
abbrev pub headers_of : Option Fields → Option Fields → Fields
headers_of (some f) o = f
headers_of none (some f) = f
headers_of none none = no_fields

-- `supportFormData`; `defaults` are the headers of the instance.
unfoldable pub support_form_data : Env → Option Fields → Config → Config
support_form_data env defaults config =
    let headers = headers_of config.headers defaults in
    let content_type = or_value (get "Content-Type" headers) (get "content-type" headers) in
    if (not (text_is form_urlencoded content_type) || not config.has_data)
      || is_get_method config.method
    then config
    else record config { body = text (env.stringify config.body) }

-- `set` of `getAuthHeaders`, where `show` is `String(value)`.
abbrev pub set_header : (Value → String) → String → Value → Fields → Fields
set_header show name undefined headers = headers
set_header show name null headers = headers
set_header show name (text s) headers =
    if is_empty s then headers else put name (text (show (text s))) headers
set_header show name v headers = put name (text (show v)) headers

-- `conf[camel] || conf[snake] || token[snake]`
abbrev pub first_id : String → String → Fields → Fields → Value
first_id camel snake conf token =
    or_value (or_value (get camel conf) (get snake conf)) (get snake token)

-- The token and the configuration are objects, or `{}` where they are falsy.
unfoldable pub get_auth_headers : (Value → String) → Fields → Fields → Fields
get_auth_headers show token conf = set_header show "app-id" (first_id "appId" "app_id" conf token) (
    set_header show "section-id" (first_id "sectionId" "section_id" conf token) (
      set_header show "unit-id" (first_id "unitId" "unit_id" conf token) (
        set_header show "tenant-id" (first_id "tenantId" "tenant_id" conf token)
          (set_header show "access-token" (get "access_token" token) no_fields))))

abbrev pub object_of : Value → Fields
object_of (object f) = f
object_of v = no_fields

-- `requestInterceptors`: `with_token` is the option, and `token` what `getToken` answers.
unfoldable pub request_interceptors :
    Env → (Value → String) → Value → Value → Value → Fields → Fields
request_interceptors env show with_token token conf headers =
    if is_true token && not (is_no with_token)
    then put_all env.indices (get_auth_headers show (object_of token) (object_of conf)) headers
    else headers
  where
    is_no : Value → Bool
    is_no (bool b) = not b
    is_no v = false
