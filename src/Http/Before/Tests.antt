-- ===== src/Http/Before/Tests.antt =====
-- Requests with parameters: one that is read, and one that is sent.
use kerthus.Base.{ℕ, ◌≡◌, refl, String, true, false, [], ◌∷◌, map, some, none, split_on}
use kerthus.Value.{Value, undefined, text, number, date, object, Fields, no_fields, with_field}
use kerthus.Http.Before.{Env, Config, Options, before_request_hook, format_fields, is_get_method}
use kerthus.Routes.Url.{after, lower, trim_start, trim_end, is_space}
use kerthus.Http.Query.{parameters, drop_last, ends_in, set_obj_to_url_params}
use kerthus.Http.Query.Texts.{is_plain}
use kerthus.Http.Query.Back.{set_obj_to_url_params_lem}
use kerthus.Http.Before.Sent.{carries, before_request_hook-carries}

abbrev env : Env
env = record {
  format_date = λ n. "2024-01-01 00:00:00";
  format_by = λ n. "";
  encode = λ v. "x";
  indices = λ v. no_fields;
  is_form_data = λ v. false;
  stringify = λ v. "";
  now = 17;
}

abbrev search : Fields
search = with_field "page" (number 1) (with_field "since" (date 5) no_fields)

x_is_plain : (w : Value) → is_plain (env.encode w) ≡ true
x_is_plain w = refl

set_obj_to_url_params_lem_example :
    (q : String) × (split_on b'?' (set_obj_to_url_params env.encode "/users/" search)
      ≡ drop_last b'/' "/users/" ∷ q ∷ [])
    × (map (split_on b'=') (split_on b'&' q) ≡ ("page" ∷ "x" ∷ []) ∷ ("since" ∷ "x" ∷ []) ∷ [])
set_obj_to_url_params_lem_example =
    set_obj_to_url_params_lem env.encode "/users/" "page" (number 1)
      (with_field "since" (date 5) no_fields) x_is_plain refl refl

joined : set_obj_to_url_params env.encode "/users/" search ≡ "/users?page=x&since=x"
unfolding set_obj_to_url_params parameters drop_last ends_in
joined = refl

-- A base that has parameters gets a second question mark.
two_marks : set_obj_to_url_params env.encode "/users?id=1" search ≡ "/users?id=1?page=x&since=x"
unfolding set_obj_to_url_params parameters drop_last ends_in
two_marks = refl

abbrev options : Options
options = record {
  api_url = text "/api";
  url_prefix = "/v1";
  join_prefix = true;
  join_params_to_url = false;
  format_date = true;
  join_time = true;
}

abbrev show : ℕ → String
show n = "17"

abbrev reading : Config
reading = record {
  url = "/users";
  method = some "get";
  params = object search;
  body = undefined;
  has_data = false;
  headers = none;
}

abbrev sending : Config
sending = record {
  url = "/users";
  method = some "POST";
  params = object search;
  body = object (with_field "name" (text " Ann ") no_fields);
  has_data = true;
  headers = none;
}

reading-is_get_method : is_get_method reading.method ≡ true
unfolding after lower
reading-is_get_method = refl

sending-is_get_method : is_get_method sending.method ≡ false
unfolding after lower
sending-is_get_method = refl

before_request_hook-carries_example :
    carries "name" (before_request_hook env show options sending) ≡ true
before_request_hook-carries_example =
    before_request_hook-carries env show options sending search
      (with_field "name" (text " Ann ") no_fields) "name" sending-is_get_method refl refl refl

sent_body :
    (before_request_hook env show options sending).body
    ≡ object (with_field "name" (text "Ann") no_fields)
unfolding before_request_hook format_fields after lower trim_start trim_end is_space
sent_body = refl
