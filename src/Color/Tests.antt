-- ===== src/Color/Tests.antt =====
-- Colours of small channels, which need zeros, and a short one.
use kerthus.Base.{ℕ, ◌≡◌, refl, String, ◌==◌, if◌then◌else◌, arith}
use kerthus.Color.{
  hex_value, digit, to_hex, bit_or, rgb_to_hex, is_hex_color, to_lower, parse_int16, rgb_text,
  hex_to_rgb, add_light, lighten, darken,
}
use kerthus.Color.Laws.{hex_to_rgb-rgb_to_hex, shade_lem}

abbrev show : ℕ → String
show n = if n == 0 then "0" else if n == 255 then "255" else "many"

hex_to_rgb-rgb_to_hex_example :
    hex_to_rgb show (rgb_to_hex 0 9 255) ≡ rgb_text (show 0) (show 9) (show 255)
hex_to_rgb-rgb_to_hex_example =
    hex_to_rgb-rgb_to_hex show 0 9 255 (omega arith) (omega arith) (omega arith)

shade_lem_example :
    (lighten (rgb_to_hex 0 9 250) 20 ≡ rgb_to_hex 51 60 255)
    × (darken (rgb_to_hex 0 9 250) 20 ≡ rgb_to_hex 0 0 199)
shade_lem_example = shade_lem 0 9 250 20 (omega arith) (omega arith) (omega arith)

padded : rgb_to_hex 0 9 255 ≡ "#0009ff"
unfolding rgb_to_hex bit_or to_hex digit
padded = refl

short_color : hex_to_rgb show "#F90" ≡ "RGB(255,many,0)"
unfolding hex_to_rgb is_hex_color to_lower parse_int16 hex_value
short_color = refl

-- The function is written for six digits: of a short colour a channel is no number.
short_lighter : lighten "#fff" 20 ≡ "#ff42NaN"
unfolding lighten add_light parse_int16 hex_value to_hex digit
short_lighter = refl
