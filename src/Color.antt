-- ===== src/Color.antt =====
-- web/admin/src/utils/color.ts: colours as texts. The luminance, which is a fraction, is left out.
pub mod Bits
pub mod Hex
pub mod Laws
pub mod Tests
pub mod Digit
use Prim.Native.Char.{Char, code}
use Prim.Native.String as Text
use mathlib.Core.Option
use kerthus.Base.{
  ℕ, zero, suc, ◌+◌, ◌-◌, ◌*◌, ◌/◌, ◌%◌, ◌^◌, min, max, String, Bool, true, false, ◌&&◌, ◌||◌, ◌==◌,
  ltb, leb, List, [], ◌∷◌, Option, none, some, is_some, if◌then◌else◌,
}
use kerthus.Routes.Url.{in_range}

abbrev pub len : String → ℕ
len String.[] = 0
len (String.◌∷◌ c s) = suc (len s)

-- The value of a digit, by the code of its character.
unfoldable pub hex_value : ℕ → Option ℕ
hex_value c =
    if in_range 48 57 c
    then some (c - 48)
    else if in_range 97 102 c
    then some (c - 87)
    else if in_range 65 70 c
    then some (c - 55)
    else none

abbrev pub all_hex : String → Bool
all_hex String.[] = true
all_hex (String.◌∷◌ c s) = is_some (hex_value (code c)) && all_hex s

-- `/^#([0-9a-fA-F]{3}|[0-9a-fA-F]{6})$/`
unfoldable pub is_hex_color : String → Bool
is_hex_color String.[] = false
is_hex_color (String.◌∷◌ c s) = (code c == b'#' && (len s == 3 || len s == 6)) && all_hex s

-- The character at an index, or `d`.
abbrev pub char_at_or : Char → String → ℕ → Char
char_at_or d String.[] i = d
char_at_or d (String.◌∷◌ c s) zero = c
char_at_or d (String.◌∷◌ c s) (suc i) = char_at_or d s i

-- `toLowerCase`, for the letters of the alphabet.
abbrev pub lower_char : Char → Char
lower_char c =
    if in_range 65 90 (code c) then char_at_or c "abcdefghijklmnopqrstuvwxyz" (code c - 65) else c

unfoldable pub to_lower : String → String
to_lower String.[] = ""
to_lower (String.◌∷◌ c s) = String.◌∷◌ (lower_char c) (to_lower s)

unfoldable pub digit : ℕ → Char
digit d = char_at_or "0" "0123456789abcdef" d

-- `n.toString(16)` before `acc`, where the fuel is at least the number of digits.
unfoldable pub to_hex : ℕ → ℕ → String → String
to_hex zero n acc = acc
to_hex (suc fuel) n acc =
    let rest = to_hex fuel (n / 16) (String.◌∷◌ (digit (n % 16)) acc) in
    if ltb n 16 then String.◌∷◌ (digit n) acc else rest

abbrev pub to_string16 : ℕ → String
to_string16 n = to_hex 9 n ""

-- `|` on the lower bits, as many as the fuel.
unfoldable pub bit_or : ℕ → ℕ → ℕ → ℕ
bit_or zero a b = 0
bit_or (suc n) a b = max (a % 2) (b % 2) + 2 * bit_or n (a / 2) (b / 2)

-- `<<`; no channel is so large that it sets the sign.
abbrev pub shift_left : ℕ → ℕ → ℕ
shift_left a k = (a * 2 ^ k) % 2 ^ 32

-- `n` times the digit 0 before a text.
abbrev pub zeros : ℕ → String → String
zeros zero s = s
zeros (suc n) s = String.◌∷◌ "0" (zeros n s)

-- The length of `new Array(Math.abs(n - 7)).join('0')`.
abbrev pub padding : ℕ → ℕ
padding n = max (7 - n) (n - 7) - 1

unfoldable pub rgb_to_hex : ℕ → ℕ → ℕ → String
rgb_to_hex r g b =
    let hex = to_string16 (bit_or 32 (bit_or 32 (shift_left r 16) (shift_left g 8)) b) in
    String.◌∷◌ "#" (zeros (padding (len hex)) hex)

-- `parseInt(s, 16)` of a text without a sign and a prefix, where `none` is `NaN`.
abbrev pub parse_more : ℕ → String → ℕ
parse_more n String.[] = n
parse_more n (String.◌∷◌ c s) = elim (hex_value (code c)) [
  | none ↦ n
  | some d ↦ parse_more (n * 16 + d) s
]

unfoldable pub parse_int16 : String → Option ℕ
parse_int16 String.[] = none
parse_int16 (String.◌∷◌ c s) = Option.map (λ d. parse_more d s) (hex_value (code c))

-- `s.slice(i, j)` and `s.substring(i, j)`, for `i` and the length `j - i`.
abbrev pub drop_text : ℕ → String → String
drop_text zero s = s
drop_text (suc i) String.[] = ""
drop_text (suc i) (String.◌∷◌ c s) = drop_text i s

abbrev pub take_text : ℕ → String → String
take_text zero s = ""
take_text (suc n) String.[] = ""
take_text (suc n) (String.◌∷◌ c s) = String.◌∷◌ c (take_text n s)

abbrev pub slice : ℕ → ℕ → String → String
slice i n s = take_text n (drop_text i s)

-- Each of the three digits twice.
abbrev pub doubled : String → String
doubled String.[] = ""
doubled (String.◌∷◌ c s) = String.◌∷◌ c (String.◌∷◌ c (doubled s))

abbrev pub full : String → String
full s = if len s == 4 then String.◌∷◌ "#" (doubled (slice 1 3 s)) else s

abbrev pub number_text : (ℕ → String) → Option ℕ → String
number_text show none = "NaN"
number_text show (some n) = show n

-- `parseInt` of the two digits at an index, as a text.
abbrev pub channel : (ℕ → String) → ℕ → String → String
channel show i s = number_text show (parse_int16 (slice i 2 s))

abbrev pub rgb_text : String → String → String → String
rgb_text r g b =
    Text.◌++◌ "RGB(" (Text.◌++◌ r (Text.◌++◌ "," (Text.◌++◌ g (Text.◌++◌ "," (Text.◌++◌ b ")")))))

-- `show` writes a number in decimal.
unfoldable pub hex_to_rgb : (ℕ → String) → String → String
hex_to_rgb show hex =
    let s = full (to_lower hex) in
    if is_hex_color hex
    then rgb_text (channel show 1 s) (channel show 3 s) (channel show 5 s)
    else to_lower hex

abbrev pub two_digits : String → String
two_digits s = if ltb 1 (len s) then s else String.◌∷◌ "0" s

abbrev pub light_text : Option ℕ → String
light_text none = "NaN"
light_text (some n) = two_digits (to_string16 n)

unfoldable pub add_light : String → ℕ → String
add_light color amount = light_text (Option.map (λ n. min 255 (n + amount)) (parse_int16 color))

unfoldable pub subtract_light : String → ℕ → String
subtract_light color amount = light_text (Option.map (λ n. n - amount) (parse_int16 color))

-- `color.indexOf('#') >= 0`
abbrev pub has_hash : String → Bool
has_hash String.[] = false
has_hash (String.◌∷◌ c s) = code c == b'#' || has_hash s

abbrev pub bare : String → String
bare color = if has_hash color then drop_text 1 color else color

-- `Math.trunc((255 * amount) / 100)`
abbrev pub scaled : ℕ → ℕ
scaled amount = (255 * amount) / 100

abbrev pub each_channel : (String → ℕ → String) → String → ℕ → String
each_channel light s n =
    Text.◌++◌ "#" (
      Text.◌++◌ (light (slice 0 2 s) n) (Text.◌++◌ (light (slice 2 2 s) n) (light (slice 4 2 s) n)))

unfoldable pub darken : String → ℕ → String
darken color amount = each_channel subtract_light (bare color) (scaled amount)

unfoldable pub lighten : String → ℕ → String
lighten color amount = each_channel add_light (bare color) (scaled amount)
