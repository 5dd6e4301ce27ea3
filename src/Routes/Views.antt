-- ===== src/Routes/Views.antt =====
-- routeHelper.ts, `dynamicImport`: the view with the path that a record names. `views` has the keys of
-- `import.meta.glob`, which the build makes.
use Prim.Native.Char.{code}
use text.Mathlib.Text.{starts_with}
use kerthus.Base.{
  ℕ, zero, suc, ◌-◌, min, max, String, Bool, ◌||◌, ◌==◌, List, [], ◌∷◌, Option, none, some, or_else,
  str_eq, if◌then◌else◌, filter,
}
use kerthus.Routes.{Component, absent, exception, view}

abbrev pub drop_text : ℕ → String → String
drop_text zero s = s
drop_text (suc n) String.[] = String.[]
drop_text (suc n) (String.◌∷◌ c s) = drop_text n s

abbrev pub take_text : ℕ → String → String
take_text zero s = String.[]
take_text (suc n) String.[] = String.[]
take_text (suc n) (String.◌∷◌ c s) = String.◌∷◌ c (take_text n s)

abbrev pub text_length : String → ℕ
text_length String.[] = 0
text_length (String.◌∷◌ c s) = suc (text_length s)

-- `s.substring(a, b)`
abbrev pub substring : String → ℕ → ℕ → String
substring s a b = take_text (max a b - min a b) (drop_text (min a b) s)

-- `s.replace('../../views', '')`
abbrev pub without_views : String → String
without_views String.[] = String.[]
without_views (String.◌∷◌ c s) =
    if starts_with (String.◌∷◌ c s) "../../views"
    then drop_text 11 (String.◌∷◌ c s)
    else String.◌∷◌ c (without_views s)

abbrev pub ends_with : String → String → Bool
ends_with String.[] t = str_eq String.[] t
ends_with (String.◌∷◌ c s) t = str_eq (String.◌∷◌ c s) t || ends_with s t

-- `s.lastIndexOf('.')`, with `none` for -1
abbrev pub last_dot : String → Option ℕ
last_dot String.[] = none
last_dot (String.◌∷◌ c s) = elim (last_dot s) [
  | some i ↦ some (suc i)
  | none ↦ if code c == b'.' then some 0 else none
]

-- The part of a key that is compared; `substring` takes -1 as 0.
abbrev pub compared : String → String → String
compared component key =
    substring (without_views key) (if starts_with component "/" then 0 else 1) (
      if ends_with component ".vue" || ends_with component ".tsx"
      then text_length (without_views key)
      else or_else (last_dot (without_views key)) 0)

abbrev pub only_view : List String → Component
only_view [] = exception
only_view (key ∷ []) = view key
only_view (key ∷ other ∷ keys) = absent

unfoldable pub dynamic_import : List String → String → Component
dynamic_import views component =
    only_view (filter (λ key. str_eq (compared component key) component) views)
