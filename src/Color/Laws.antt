-- ===== src/Color/Laws.antt =====
-- color.ts: colours are read back, and made lighter and darker by their channels.
use Prim.Native.Char.{Char, code}
use Prim.Native.String as Text
use text.Mathlib.TextLemmas.{nil-append, cons-append}
use mathlib.Core.Option
use mathlib.Core.Path.{ap₂}
use kerthus.Base.{
  ◌≡◌, refl, sym, ap, ◌∙◌, inl, inr, ℕ, ◌+◌, ◌-◌, ◌*◌, ◌/◌, ◌%◌, ◌<◌, min, String, true, ltb,
  Bool-cases, some, none, if_true, arith,
}
use kerthus.Color.{
  hex_value, digit, lower_char, to_lower, is_hex_color, parse_int16, parse_more, rgb_text,
  hex_to_rgb, rgb_to_hex, two_digits, light_text, add_light, subtract_light, scaled, each_channel,
  darken, lighten, number_text,
}
use kerthus.Color.Digit.{hex_value-digit, hex_value-lower}
use kerthus.Color.Hex.{to_hex-small, to_hex-large, first_digit, six_digits, rgb_to_hex-six}

-- A channel of two digits.
parse-two :
    (c d : Char) (m n : ℕ)
    → hex_value (code c) ≡ some m
    → hex_value (code d) ≡ some n
    → parse_int16 (String.◌∷◌ c (String.◌∷◌ d "")) ≡ some (m * 16 + n)
unfolding parse_int16
parse-two c d m n h i =
    ap (Option.map (λ e. parse_more e (String.◌∷◌ d ""))) h
    ∙ ap (λ o. some (elim o [ none ↦ m | some e ↦ parse_more (m * 16 + e) "" ])) i

halves : (n : ℕ) → n < 256 → (n / 16 < 16) × (n % 16 < 16) × (n / 16 * 16 + n % 16 ≡ n)
halves n h = (omega (arith, h), omega arith, omega arith)

parse-channel :
    (n : ℕ)
    → n < 256
    → parse_int16 (String.◌∷◌ (digit (n / 16)) (String.◌∷◌ (digit (n % 16)) "")) ≡ some n
parse-channel n h =
    let (a, b, c) = halves n h in
    parse-two (digit (n / 16)) (digit (n % 16)) (n / 16) (n % 16) (hex_value-digit (n / 16) a)
      (hex_value-digit (n % 16) b)
    ∙ ap some c

parse-lower :
    (n : ℕ)
    → n < 256
    → parse_int16
        (String.◌∷◌ (lower_char (digit (n / 16))) (String.◌∷◌ (lower_char (digit (n % 16))) ""))
      ≡ some n
parse-lower n h =
    let (a, b, c) = halves n h in
    parse-two (lower_char (digit (n / 16))) (lower_char (digit (n % 16))) (n / 16) (n % 16)
      (hex_value-lower (n / 16) a) (hex_value-lower (n % 16) b)
    ∙ ap some c

six-IsHex :
    (r g b : ℕ)
    → r < 256
    → g < 256
    → b < 256
    → is_hex_color (String.◌∷◌ "#" (six_digits r g b)) ≡ true
unfolding is_hex_color
six-IsHex r g b hr hg hb =
    let (a, x, _) = halves r hr in
    let (c, y, _) = halves g hg in
    let (d, z, _) = halves b hb in
    rw
      (
        hex_value-digit (r / 16) a,
        hex_value-digit (r % 16) x,
        hex_value-digit (g / 16) c,
        hex_value-digit (g % 16) y,
        hex_value-digit (b / 16) d,
        hex_value-digit (b % 16) z,
      )
      refl

-- A colour of three channels below 256 is read back as those channels.
pub hex_to_rgb-rgb_to_hex :
    (show : ℕ → String) (r g b : ℕ)
    → r < 256
    → g < 256
    → b < 256
    → hex_to_rgb show (rgb_to_hex r g b) ≡ rgb_text (show r) (show g) (show b)
unfolding hex_to_rgb to_lower
hex_to_rgb-rgb_to_hex show r g b hr hg hb =
    let hex = String.◌∷◌ "#" (six_digits r g b) in
    let low =
      parse_int16
        (String.◌∷◌ (lower_char (digit (b / 16))) (String.◌∷◌ (lower_char (digit (b % 16))) "")) in
    ap (hex_to_rgb show) (rgb_to_hex-six r g b hr hg hb)
    ∙ if_true (is_hex_color hex) _ (to_lower hex) (six-IsHex r g b hr hg hb)
    ∙ ap₂ (λ x y. rgb_text (number_text show x) (number_text show y) (number_text show low))
        (parse-lower r hr) (parse-lower g hg)
    ∙ ap (λ z. rgb_text (show r) (show g) (number_text show z)) (parse-lower b hb)

two-channel :
    (n : ℕ)
    → n < 256
    → light_text (some n) ≡ String.◌∷◌ (digit (n / 16)) (String.◌∷◌ (digit (n % 16)) "")
unfolding digit
two-channel n h = elim (Bool-cases (ltb n 16)) [
  | inl t ↦
      let (a, b) = first_digit n (ground (arith, t)) in
      ap two_digits (to_hex-small 8 n "" t)
      ∙ ap₂ (λ q m. String.◌∷◌ (digit q) (String.◌∷◌ (digit m) "")) (sym a) (sym b)
  | inr t ↦ ap two_digits (
      to_hex-large 8 n "" t ∙ to_hex-small 7 (n / 16) (String.◌∷◌ (digit (n % 16)) "") (second n h))
]
  where
    second : (m : ℕ) → m < 256 → ltb (m / 16) 16 ≡ true
    second m h = ground (arith, halves m h)

add_light-channel :
    (n amount : ℕ)
    → n < 256
    → add_light (String.◌∷◌ (digit (n / 16)) (String.◌∷◌ (digit (n % 16)) "")) amount
      ≡ String.◌∷◌
          (digit (min 255 (n + amount) / 16))
          (String.◌∷◌ (digit (min 255 (n + amount) % 16)) "")
unfolding add_light
add_light-channel n amount h =
    ap (λ o. light_text (Option.map (λ m. min 255 (m + amount)) o)) (parse-channel n h)
    ∙ two-channel (min 255 (n + amount)) (omega arith)

subtract_light-channel :
    (n amount : ℕ)
    → n < 256
    → subtract_light (String.◌∷◌ (digit (n / 16)) (String.◌∷◌ (digit (n % 16)) "")) amount
      ≡ String.◌∷◌ (digit ((n - amount) / 16)) (String.◌∷◌ (digit ((n - amount) % 16)) "")
unfolding subtract_light
subtract_light-channel n amount h =
    ap (λ o. light_text (Option.map (λ m. m - amount) o)) (parse-channel n h)
    ∙ two-channel (n - amount) (omega (arith, h))

-- Two characters before a text.
pair-append :
    (c d : Char) (s : String)
    → Text.◌++◌ (String.◌∷◌ c (String.◌∷◌ d "")) s ≡ String.◌∷◌ c (String.◌∷◌ d s)
pair-append c d s =
    cons-append c (String.◌∷◌ d "") s
    ∙ ap (String.◌∷◌ c) (cons-append d "" s ∙ ap (String.◌∷◌ d) (nil-append s))

abbrev two_text : ℕ → String
two_text n = String.◌∷◌ (digit (n / 16)) (String.◌∷◌ (digit (n % 16)) "")

each_channel-six :
    (light : String → ℕ → String) (f : ℕ → ℕ) (amount r g b : ℕ)
    → ((n : ℕ) → n < 256 → light (two_text n) amount ≡ two_text (f n))
    → r < 256
    → g < 256
    → b < 256
    → each_channel light (six_digits r g b) amount ≡ String.◌∷◌ "#" (six_digits (f r) (f g) (f b))
each_channel-six light f amount r g b h hr hg hb =
    ap₂ (λ x y. Text.◌++◌ "#" (Text.◌++◌ x (Text.◌++◌ y (light (two_text b) amount)))) (h r hr)
      (h g hg)
    ∙ ap (λ z. Text.◌++◌ "#" (Text.◌++◌ (two_text (f r)) (Text.◌++◌ (two_text (f g)) z))) (h b hb)
    ∙ ap (λ z. Text.◌++◌ "#" (Text.◌++◌ (two_text (f r)) z)) (pair-append _ _ (two_text (f b)))
    ∙ ap (Text.◌++◌ "#") (pair-append _ _ _)
    ∙ cons-append "#" "" _
    ∙ ap (String.◌∷◌ "#") (nil-append _)

lighten-rgb_to_hex :
    (r g b amount : ℕ)
    → r < 256
    → g < 256
    → b < 256
    → lighten (rgb_to_hex r g b) amount
      ≡ rgb_to_hex
          (min 255 (r + scaled amount))
          (min 255 (g + scaled amount))
          (min 255 (b + scaled amount))
unfolding lighten
lighten-rgb_to_hex r g b amount hr hg hb =
    ap (λ c. lighten c amount) (rgb_to_hex-six r g b hr hg hb)
    ∙ each_channel-six add_light (λ n. min 255 (n + scaled amount)) (scaled amount) r g b
        (λ n h. add_light-channel n (scaled amount) h) hr hg hb
    ∙ sym (
        rgb_to_hex-six (min 255 (r + scaled amount)) (min 255 (g + scaled amount))
          (min 255 (b + scaled amount)) (omega arith) (omega arith) (omega arith))

darken-rgb_to_hex :
    (r g b amount : ℕ)
    → r < 256
    → g < 256
    → b < 256
    → darken (rgb_to_hex r g b) amount
      ≡ rgb_to_hex (r - scaled amount) (g - scaled amount) (b - scaled amount)
unfolding darken
darken-rgb_to_hex r g b amount hr hg hb =
    ap (λ c. darken c amount) (rgb_to_hex-six r g b hr hg hb)
    ∙ each_channel-six subtract_light (λ n. n - scaled amount) (scaled amount) r g b
        (λ n h. subtract_light-channel n (scaled amount) h) hr hg hb
    ∙ sym (
        rgb_to_hex-six (r - scaled amount) (g - scaled amount) (b - scaled amount)
          (omega (arith, hr)) (omega (arith, hg)) (omega (arith, hb)))

-- A colour of channels below 256 is made lighter by adding the part of 255 to each of its channels, up
-- to 255, and darker by taking it from each, down to 0.
pub shade_lem :
    (r g b amount : ℕ)
    → r < 256
    → g < 256
    → b < 256
    → (lighten (rgb_to_hex r g b) amount
        ≡ rgb_to_hex
            (min 255 (r + scaled amount))
            (min 255 (g + scaled amount))
            (min 255 (b + scaled amount)))
      × (darken (rgb_to_hex r g b) amount
          ≡ rgb_to_hex (r - scaled amount) (g - scaled amount) (b - scaled amount))
shade_lem r g b amount hr hg hb =
    (lighten-rgb_to_hex r g b amount hr hg hb, darken-rgb_to_hex r g b amount hr hg hb)
