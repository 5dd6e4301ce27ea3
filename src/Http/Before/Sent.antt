-- ===== src/Http/Before/Sent.antt =====
-- index.ts, `beforeRequestHook`: what is sent.
use mathlib.Core.Path.{ap₂}
use kerthus.Base.{
  ◌≡◌, refl, ap, ◌∙◌, ℕ, String, Bool, true, false, ◌&&◌, ◌||◌, str_eq, if◌then◌else◌, if_true,
  if_false, arith,
}
use kerthus.Value.{
  Value, undefined, number, object, Fields, no_fields, with_field, get, has, is_true,
}
use kerthus.Value.Maps.{get-put}
use kerthus.Http.Before.{
  Env, Config, Options, is_get_method, fields_or_empty, has_keys, prefixed, put_url, stamped,
  placed, format_fields, format_request_date, joined_url, hook_get, hook_send, with_dates,
  before_request_hook, or_value,
}
use kerthus.Http.Before.Dates.{has-format_fields}

-- The request behind the prefixes and the dates of its data.
abbrev prepared : Env → Options → Config → Config
prepared env o config = with_dates env o (put_url (prefixed o config.url) config)

hook-branches :
    (env : Env) (show : ℕ → String) (o : Options) (config : Config) (f : Fields)
    → config.params ≡ object f
    → before_request_hook env show o config ≡ (
        if is_get_method config.method
        then hook_get env show o (object f) (prepared env o config)
        else hook_send env o (object f) (prepared env o config))
unfolding before_request_hook
hook-branches env show o config f e =
    ap
      (λ p.
        if is_get_method config.method
        then hook_get env show o (or_value p (object no_fields)) (prepared env o config)
        else hook_send env o (or_value p (object no_fields)) (prepared env o config))
      e

get-stamped :
    (env : Env) (join : Bool) (f : Fields) (k : String)
    → get k (fields_or_empty (stamped env join (object f)))
      ≡ (if join && str_eq "_t" k then number env.now else get k f)
get-stamped env true f k = get-put k "_t" (number env.now) f
get-stamped env false f k = refl

-- A `GET` request has its URL behind the prefixes, and its parameters as they were, dates included,
-- but for the time where it is joined.
pub before_request_hook-get :
    (env : Env) (show : ℕ → String) (o : Options) (config : Config) (f : Fields) (k : String)
    → is_get_method config.method ≡ true
    → config.params ≡ object f
    → ((before_request_hook env show o config).url ≡ prefixed o config.url)
      × (get k (fields_or_empty (before_request_hook env show o config).params)
          ≡ (if o.join_time && str_eq "_t" k then number env.now else get k f))
before_request_hook-get env show o config f k g e =
    let run = hook-branches env show o config f e ∙ if_true _ _ _ g in
    (
      ap (λ c. c.url) run,
      ap (λ c. get k (fields_or_empty c.params)) run ∙ get-stamped env o.join_time f k,
    )

-- What a request carries at a key, in its parameters or in its body.
abbrev pub carries : String → Config → Bool
carries k config = has k (fields_or_empty config.params) || has k (fields_or_empty config.body)

has-formatted :
    (env : Env) (b : Bool) (k : String) (f : Fields)
    → (h : Fields) × ((if b then format_request_date env (object f) else object f) ≡ object h)
      × (has k h ≡ has k f)
has-formatted env true k f = (format_fields env f, refl, has-format_fields env k f)
has-formatted env false k f = (f, refl, refl)

abbrev beside : Value → Config → Config
beside params config = record config { params = params }

abbrev in_place : Value → Config → Config
in_place params config = record config { params = undefined; body = params; has_data = true }

placed-branches :
    (env : Env) (params : Value) (config : Config) (g : Fields)
    → config.body ≡ object g
    → config.has_data ≡ true
    → placed env params config
      ≡ (if has_keys env (object g) then beside params config else in_place params config)
placed-branches env params config g b h =
    ap₂
      (λ d v.
        if (d && is_true v) && has_keys env v then beside params config else in_place params config)
      h b

carries-beside :
    (k : String) (config : Config) (f g : Fields)
    → config.body ≡ object g
    → carries k (beside (object f) config) ≡ (has k f || has k g)
carries-beside k config f g b = ap (λ v. has k f || has k (fields_or_empty v)) b

carries-placed :
    (env : Env) (k : String) (config : Config) (f g : Fields)
    → config.body ≡ object g
    → config.has_data ≡ true
    → carries k (placed env (object f) config) ≡ (has k f || has k g)
carries-placed env k config f no_fields b h =
    ap (carries k) (placed-branches env (object f) config no_fields b h)
    ∙ either (has_keys env (object no_fields)) (carries-beside k config f no_fields b)
  where
    either :
        (d : Bool)
        → carries k (beside (object f) config) ≡ (has k f || false)
        → carries k (if d then beside (object f) config else in_place (object f) config)
          ≡ (has k f || false)
    either true e = e
    either false e = ground arith
carries-placed env k config f (with_field q v g) b h =
    ap (carries k) (placed-branches env (object f) config (with_field q v g) b h)
    ∙ carries-beside k config f (with_field q v g) b

-- The hook without the dates of the parameters.
abbrev sent : Env → Options → Config → Config
sent env o config = if o.join_params_to_url then joined_url env config else config

carries-sent :
    (env : Env) (o : Options) (k : String) (config : Config)
    → carries k (sent env o config) ≡ carries k config
carries-sent env o k config = either o.join_params_to_url
  where
    either : (b : Bool) → carries k (if b then joined_url env config else config) ≡ carries k config
    either true = refl
    either false = refl

carries-send :
    (env : Env) (o : Options) (k : String) (config : Config) (f g : Fields)
    → config.body ≡ object g
    → config.has_data ≡ true
    → carries k (hook_send env o (object f) config) ≡ (has k f || has k g)
carries-send env o k config f g b h =
    let (f', e, i) = has-formatted env o.format_date k f in
    ap (λ p. carries k (sent env o (placed env p config))) e
    ∙ carries-sent env o k (placed env (object f') config)
    ∙ carries-placed env k config f' g b h
    ∙ ap (λ c. c || has k g) i

-- A request that is no `GET`, with objects for its parameters and its body, carries the keys of the
-- two, whatever the options are.
pub before_request_hook-carries :
    (env : Env) (show : ℕ → String) (o : Options) (config : Config) (f g : Fields) (k : String)
    → is_get_method config.method ≡ false
    → config.params ≡ object f
    → config.body ≡ object g
    → config.has_data ≡ true
    → carries k (before_request_hook env show o config) ≡ (has k f || has k g)
before_request_hook-carries env show o config f g k m e b h =
    let (g', d, i) = has-formatted env o.format_date k g in
    ap (carries k) (hook-branches env show o config f e ∙ if_false _ _ _ m)
    ∙ carries-send env o k (prepared env o config) f g'
        (ap (λ v. if o.format_date then format_request_date env v else v) b ∙ d) h
    ∙ ap (λ c. has k f || c) i
