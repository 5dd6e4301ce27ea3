-- ===== src/Http/Query.antt =====
-- `setObjToUrlParams` of web/admin/src/utils/index.ts; `encode` is `encodeURIComponent` of a value.
pub mod Back
pub mod Texts
use Prim.Native.Char.{Char, code}
use Prim.Native.String as Text
use kerthus.Base.{ℕ, String, Bool, false, ◌&&◌, ◌==◌, is_empty, if◌then◌else◌}
use kerthus.Value.{Value, Fields, no_fields, with_field}

-- `key + '=' + encodeURIComponent(obj[key]) + '&'` for every key
unfoldable pub parameters : (Value → String) → Fields → String
parameters encode no_fields = ""
parameters encode (with_field k v f) =
    Text.◌++◌ k (Text.◌++◌ "=" (Text.◌++◌ (encode v) (Text.◌++◌ "&" (parameters encode f))))

-- The text without a last character of this code.
unfoldable pub drop_last : ℕ → String → String
drop_last p String.[] = ""
drop_last p (String.◌∷◌ c s) =
    let rest = drop_last p s in if is_empty s && code c == p then "" else String.◌∷◌ c rest

unfoldable pub ends_in : ℕ → String → Bool
ends_in p String.[] = false
ends_in p (String.◌∷◌ c s) = if is_empty s then code c == p else ends_in p s

abbrev pub with_mark : String → String
with_mark base = if ends_in b'?' base then base else Text.◌++◌ (drop_last b'/' base) "?"

unfoldable pub set_obj_to_url_params : (Value → String) → String → Fields → String
set_obj_to_url_params encode base obj =
    Text.◌++◌ (with_mark base) (drop_last b'&' (parameters encode obj))
