-- ===== src/Color/Hex.antt =====
-- color.ts: the digits of a number, of six for a colour.
use mathlib.Core.Path.{ap₂}
use kerthus.Base.{
  ◌≡◌, refl, sym, ap, ◌∙◌, inl, inr, ℕ, zero, suc, ◌+◌, ◌-◌, ◌*◌, ◌/◌, ◌%◌, ◌^◌, ◌≤◌, ◌<◌, String,
  true, false, ltb, Bool-cases, arith,
}
use kerthus.Color.Bits.{shifted}
use kerthus.Color.{len, digit, to_hex, to_string16, zeros, padding, rgb_to_hex}

-- The last digits of a number, as many as the width.
unfoldable pub last_digits : ℕ → ℕ → String → String
last_digits zero n acc = acc
last_digits (suc w) n acc = last_digits w (n / 16) (String.◌∷◌ (digit (n % 16)) acc)

zeros-zero : (w : ℕ) (s : String) → zeros w (String.◌∷◌ "0" s) ≡ String.◌∷◌ "0" (zeros w s)
zeros-zero zero s = refl
zeros-zero (suc w) s = ap (String.◌∷◌ "0") (zeros-zero w s)

last_digits-zero : (w : ℕ) (acc : String) → last_digits w 0 acc ≡ zeros w acc
unfolding last_digits digit
last_digits-zero zero acc = refl
last_digits-zero (suc w) acc = last_digits-zero w (String.◌∷◌ "0" acc) ∙ zeros-zero w acc

div_below : (n m : ℕ) → n < 16 * m → n / 16 < m
div_below n m h = omega (arith, h)

pub first_digit : (n : ℕ) → n < 16 → (n / 16 ≡ 0) × (n % 16 ≡ n)
first_digit n h = (omega arith, omega arith)

pow_suc : (w : ℕ) → 16 ^ suc w ≡ 16 * 16 ^ w
pow_suc w = omega arith

pub to_hex-small :
    (fuel n : ℕ) (acc : String)
    → ltb n 16 ≡ true
    → to_hex (suc fuel) n acc ≡ String.◌∷◌ (digit n) acc
unfolding to_hex
to_hex-small fuel n acc h = rw h refl

pub to_hex-large :
    (fuel n : ℕ) (acc : String)
    → ltb n 16 ≡ false
    → to_hex (suc fuel) n acc ≡ to_hex fuel (n / 16) (String.◌∷◌ (digit (n % 16)) acc)
unfolding to_hex
to_hex-large fuel n acc h = rw h refl

below_16 : (n : ℕ) → ltb n 16 ≡ true → n < 16
below_16 n t = ground (arith, t)

not_below : (n : ℕ) → n < 16 → ltb n 16 ≡ false → ⊥
not_below n h t = ground (arith, h, t)

width : (w l : ℕ) → suc w + l - suc l ≡ w
width w l = omega arith

shift : (v l : ℕ) → suc (suc v) + l ≡ suc v + suc l
shift v l = omega arith

abbrev next_digit : ℕ → String → String
next_digit n acc = String.◌∷◌ (digit (n % 16)) acc

-- The digits of a number of so many digits, behind the zeros that fill the width.
abbrev filled : ℕ → String → String → String
filled w acc s = zeros (w + len acc - len s) s

more_digits :
    (fuel n : ℕ) (acc : String) (w : ℕ)
    → n < 16 ^ suc w
    → w < suc fuel
    → ltb n 16 ≡ false
    → ((v : ℕ)
        → n / 16 < 16 ^ suc v
        → v < fuel
        → filled (suc v) (next_digit n acc) (to_hex fuel (n / 16) (next_digit n acc))
          ≡ last_digits (suc v) (n / 16) (next_digit n acc))
    → filled (suc w) acc (to_hex (suc fuel) n acc) ≡ last_digits (suc w) n acc
unfolding last_digits
more_digits fuel n acc zero h l t next = absurd (not_below n h t)
more_digits fuel n acc (suc v) h l t next =
    let rest = to_hex fuel (n / 16) (next_digit n acc) in
    ap (filled (suc (suc v)) acc) (to_hex-large fuel n acc t)
    ∙ ap (λ m. zeros (m - len rest) rest) (shift v (len acc))
    ∙ next v (div_below n (16 ^ suc v) (rw⁻¹ (pow_suc (suc v)) h)) (omega (arith, l))

to_hex-last_digits :
    (fuel n : ℕ) (acc : String) (w : ℕ)
    → n < 16 ^ suc w
    → w < fuel
    → filled (suc w) acc (to_hex fuel n acc) ≡ last_digits (suc w) n acc
unfolding last_digits
to_hex-last_digits zero n acc w h l = absurd (omega arith)
to_hex-last_digits (suc fuel) n acc w h l = elim (Bool-cases (ltb n 16)) [
  | inl t ↦
      let (a, b) = first_digit n (below_16 n t) in
      ap (filled (suc w) acc) (to_hex-small fuel n acc t)
      ∙ ap (λ m. zeros m (String.◌∷◌ (digit n) acc)) (width w (len acc))
      ∙ sym (last_digits-zero w (String.◌∷◌ (digit n) acc))
      ∙ ap₂ (λ q d. last_digits w q (String.◌∷◌ (digit d) acc)) (sym a) (sym b)
  | inr t ↦
      more_digits fuel n acc w h l t (λ v. to_hex-last_digits fuel (n / 16) (next_digit n acc) v)
]

-- Six digits for three channels.
abbrev pub six_digits : ℕ → ℕ → ℕ → String
six_digits r g b = String.◌∷◌ (digit (r / 16)) (
    String.◌∷◌ (digit (r % 16)) (
      String.◌∷◌ (digit (g / 16)) (
        String.◌∷◌ (digit (g % 16))
          (String.◌∷◌ (digit (b / 16)) (String.◌∷◌ (digit (b % 16)) "")))))

last_byte :
    (w n b : ℕ) (acc : String)
    → b < 256
    → last_digits (suc (suc w)) (n * 256 + b) acc
      ≡ last_digits w n (String.◌∷◌ (digit (b / 16)) (String.◌∷◌ (digit (b % 16)) acc))
unfolding last_digits
last_byte w n b acc h =
    ap
      (λ m. last_digits w m (
        String.◌∷◌ (digit ((n * 256 + b) / 16 % 16)) (String.◌∷◌ (digit ((n * 256 + b) % 16)) acc)))
      (upper n b h)
    ∙ ap₂ (λ x y. last_digits w n (String.◌∷◌ (digit x) (String.◌∷◌ (digit y) acc))) (middle n b h)
        (lower n b)
  where
    upper : (m c : ℕ) → c < 256 → (m * 256 + c) / 16 / 16 ≡ m
    upper m c h = omega (arith, h)

    middle : (m c : ℕ) → c < 256 → (m * 256 + c) / 16 % 16 ≡ c / 16
    middle m c h = omega (arith, h)

    lower : (m c : ℕ) → (m * 256 + c) % 16 ≡ c % 16
    lower m c = omega arith

last_digits-six :
    (r g b : ℕ)
    → r < 256
    → g < 256
    → b < 256
    → last_digits 6 ((r * 256 + g) * 256 + b) "" ≡ six_digits r g b
unfolding last_digits
last_digits-six r g b hr hg hb =
    let low = String.◌∷◌ (digit (b / 16)) (String.◌∷◌ (digit (b % 16)) "") in
    let both = String.◌∷◌ (digit (g / 16)) (String.◌∷◌ (digit (g % 16)) low) in
    last_byte 4 (r * 256 + g) b "" hb
    ∙ last_byte 2 r g low hg
    ∙ ap (λ m. last_digits 2 m both) (top r)
    ∙ last_byte 0 0 r both hr
  where
    top : (m : ℕ) → m ≡ 0 * 256 + m
    top m = omega arith

len-zeros : (w : ℕ) (s : String) → len (zeros w s) ≡ w + len s
len-zeros zero s = omega arith
len-zeros (suc w) s = ap suc (len-zeros w s) ∙ omega arith

len-last_digits : (w n : ℕ) (acc : String) → len (last_digits w n acc) ≡ w + len acc
unfolding last_digits
len-last_digits zero n acc = omega arith
len-last_digits (suc w) n acc = len-last_digits w (n / 16) (next_digit n acc) ∙ next w (len acc)
  where
    next : (v l : ℕ) → v + suc l ≡ suc v + l
    next v l = omega arith

to_string16-six :
    (n : ℕ) → n < 16777216 → zeros (6 - len (to_string16 n)) (to_string16 n) ≡ last_digits 6 n ""
to_string16-six n h = to_hex-last_digits 9 n "" 5 h (omega arith)

len-to_string16 : (n : ℕ) → n < 16777216 → len (to_string16 n) ≤ 6
len-to_string16 n h = within (len (to_string16 n)) (
    sym (len-zeros (6 - len (to_string16 n)) (to_string16 n))
    ∙ ap len (to_string16-six n h)
    ∙ len-last_digits 6 n "")
  where
    within : (l : ℕ) → (6 - l) + l ≡ 6 + 0 → l ≤ 6
    within l e = omega (arith, e)

padding-six : (l : ℕ) → l ≤ 6 → padding l ≡ 6 - l
padding-six l h = omega (arith, h)

-- The colour of three channels has their six digits.
pub rgb_to_hex-six :
    (r g b : ℕ) → r < 256 → g < 256 → b < 256 → rgb_to_hex r g b ≡ String.◌∷◌ "#" (six_digits r g b)
unfolding rgb_to_hex
rgb_to_hex-six r g b hr hg hb =
    let n = (r * 256 + g) * 256 + b in
    let h = bound r g b hr hg hb in
    ap (λ m. String.◌∷◌ "#" (zeros (padding (len (to_string16 m))) (to_string16 m)))
      (shifted r g b hr hg hb)
    ∙ ap (λ l. String.◌∷◌ "#" (zeros l (to_string16 n)))
        (padding-six (len (to_string16 n)) (len-to_string16 n h))
    ∙ ap (String.◌∷◌ "#") (to_string16-six n h ∙ last_digits-six r g b hr hg hb)
  where
    bound : (x y z : ℕ) → x < 256 → y < 256 → z < 256 → (x * 256 + y) * 256 + z < 16777216
    bound x y z h i j = omega (arith, h, i, j)
