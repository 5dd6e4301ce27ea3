-- ===== src/Routes/Url.antt =====
-- web/admin/src/utils/externalUrl.ts: the destinations that a browser may leave for. Texts are read
-- character by character, as the regular expressions of the source do; `parse` is the constructor of
-- `URL`, which throws where it is `none`.
pub mod Laws
use Prim.Native.Char.{code}
use kerthus.Base.{
  ℕ, ◌+◌, String, Bool, false, not, ◌&&◌, ◌||◌, ◌==◌, leb, List, [], ◌∷◌, Option, none, some,
  is_empty, str_eq, if◌then◌else◌,
}

abbrev pub in_range : ℕ → ℕ → ℕ → Bool
in_range a b c = leb a c && leb c b

-- `\s`
unfoldable pub is_space : ℕ → Bool
is_space c =
    in_range 9 13 c
    || c == 32
    || c == 160
    || c == 5760
    || in_range 8192 8202 c
    || in_range 8232 8233 c
    || c == 8239
    || c == 8287
    || c == 12288
    || c == 65279

-- The letters of a regular expression with the flag `i`.
unfoldable pub lower : ℕ → ℕ
lower c = if in_range 65 90 c then c + 32 else c

unfoldable pub trim_start : String → String
trim_start String.[] = String.[]
trim_start (String.◌∷◌ c s) = if is_space (code c) then trim_start s else String.◌∷◌ c s

unfoldable pub trim_end : String → String
trim_end String.[] = String.[]
trim_end (String.◌∷◌ c s) =
    let rest = trim_end s in
    if is_empty rest && is_space (code c) then String.[] else String.◌∷◌ c rest

abbrev pub trim : String → String
trim s = trim_end (trim_start s)

-- What stands behind a beginning that is given by its codes in lower case.
unfoldable pub after : List ℕ → String → Option String
after [] s = some s
after (p ∷ ps) String.[] = none
after (p ∷ ps) (String.◌∷◌ c s) = if lower (code c) == p then after ps s else none

-- `http://` and `https://`
abbrev pub http : List ℕ
http = 104 ∷ 116 ∷ 116 ∷ 112 ∷ 58 ∷ 47 ∷ 47 ∷ []

abbrev pub https : List ℕ
https = 104 ∷ 116 ∷ 116 ∷ 112 ∷ 115 ∷ 58 ∷ 47 ∷ 47 ∷ []

abbrev pub either_rest : Option String → Option String → Option String
either_rest (some s) o = some s
either_rest none o = o

-- What stands behind `/^https?:\/\//i`.
abbrev pub after_scheme : String → Option String
after_scheme s = either_rest (after https s) (after http s)

-- `/^https?:\/\/[^/]/i`
abbrev pub names_host : Option String → Bool
names_host none = false
names_host (some String.[]) = false
names_host (some (String.◌∷◌ c s)) = not (code c == b'/')

-- `[^/?#]*@`
unfoldable pub has_user : String → Bool
has_user String.[] = false
has_user (String.◌∷◌ c s) =
    code c == b'@' || (not (code c == b'/' || code c == b'?' || code c == b'#') && has_user s)

abbrev pub names_user : Option String → Bool
names_user none = false
names_user (some s) = has_user s

-- `/[\s\\\u0000-\u001f\u007f]/`, one character and a text.
unfoldable pub is_unsafe : ℕ → Bool
is_unsafe c = is_space c || c == 92 || leb c 31 || c == 127

unfoldable pub has_unsafe : String → Bool
has_unsafe String.[] = false
has_unsafe (String.◌∷◌ c s) = is_unsafe (code c) || has_unsafe s

pub record Location : Type 0 where
  pub protocol : String
  pub hostname : String
  pub username : String
  pub password : String

module _ (parse : String → Option Location) where
  abbrev pub admitted : Option Location → Bool
  admitted none = false
  admitted (some u) =
      (str_eq u.protocol "http:" || str_eq u.protocol "https:")
      && not (is_empty u.hostname)
      && is_empty u.username
      && is_empty u.password

  -- The tests on the input that is trimmed.
  abbrev pub passes : String → Bool
  passes input =
      names_host (after_scheme input)
      && not (names_user (after_scheme input))
      && not (has_unsafe input)
      && admitted (parse input)

  -- `none` is a value that is no text.
  unfoldable pub external_url : Option String → String
  external_url none = ""
  external_url (some v) = if passes (trim v) then trim v else ""

-- `[a-z\d+.-]`, and `[a-z\d+.-]*:`
abbrev pub is_letter : ℕ → Bool
is_letter c = in_range 97 122 (lower c)

unfoldable pub is_scheme : ℕ → Bool
is_scheme c = is_letter c || in_range 48 57 c || c == b'+' || c == b'.' || c == b'-'

unfoldable pub ends_scheme : String → Bool
ends_scheme String.[] = false
ends_scheme (String.◌∷◌ c s) = code c == b':' || (is_scheme (code c) && ends_scheme s)

abbrev pub starts_with_code : ℕ → String → Bool
starts_with_code p String.[] = false
starts_with_code p (String.◌∷◌ c s) = code c == p

-- `/^(?:[a-z][a-z\d+.-]*:|\/\/|\\)/i`
unfoldable pub is_destination : String → Bool
is_destination String.[] = false
is_destination (String.◌∷◌ c s) =
    (is_letter (code c) && ends_scheme s)
    || (code c == b'/' && starts_with_code b'/' s)
    || code c == 92

unfoldable pub is_external_destination : String → Bool
is_external_destination value = is_destination (trim value)
