-- ===== src/Color/Bits.antt =====
-- color.ts: the bits of three channels, which are joined to one number.
use mathlib.Core.Path.{ap₂}
use kerthus.Base.{◌≡◌, sym, ap, ◌∙◌, subst, ℕ, zero, suc, ◌+◌, ◌*◌, ◌/◌, ◌%◌, ◌^◌, ◌<◌, max, arith}
use kerthus.Color.{bit_or, shift_left}

two_pow : (n : ℕ) → 2 ^ suc n ≡ 2 * 2 ^ n
two_pow n = omega arith

half : (m p : ℕ) → m < 2 * p → m / 2 < p
half m p h = omega (arith, h)

double : (a k : ℕ) → a * 2 ^ suc k ≡ 2 * (a * 2 ^ k)
double a k = ap (λ p. a * p) (two_pow k) ∙ scale (2 ^ k)
  where
    scale : (x : ℕ) → a * (2 * x) ≡ 2 * (a * x)
    scale x = omega arith

-- The bits of two numbers that do not meet.
bit_or-zero : (n a : ℕ) → a < 2 ^ n → bit_or n a 0 ≡ a
unfolding bit_or
bit_or-zero zero a h = omega (arith, h)
bit_or-zero (suc n) a h =
    ap (λ m. max (a % 2) 0 + 2 * m) (bit_or-zero n (a / 2) (half a (2 ^ n) (rw⁻¹ (two_pow n) h)))
    ∙ whole a
  where
    whole : (m : ℕ) → max (m % 2) 0 + 2 * (m / 2) ≡ m
    whole m = omega arith

bit_or-apart :
    (k n a b : ℕ)
    → a * 2 ^ k < 2 ^ n
    → b < 2 ^ k
    → b < 2 ^ n
    → bit_or n (a * 2 ^ k) b ≡ a * 2 ^ k + b
unfolding bit_or
bit_or-apart zero n a b h l m =
    ap (bit_or n (a * 1)) (none_left b l) ∙ bit_or-zero n (a * 1) h ∙ omega (arith, l)
  where
    none_left : (c : ℕ) → c < 1 → c ≡ 0
    none_left c l = omega (arith, l)
bit_or-apart (suc k) zero a b h l m = omega (arith, h, m)
bit_or-apart (suc k) (suc n) a b h l m =
    ap (λ x. bit_or (suc n) x b) (double a k)
    ∙ ap₂ (λ x y. max x (b % 2) + 2 * bit_or n y (b / 2)) (even (a * 2 ^ k)) (halved (a * 2 ^ k))
    ∙ ap (λ x. max 0 (b % 2) + 2 * x)
        (bit_or-apart k n a (b / 2)
          (smaller (a * 2 ^ k) (2 ^ n) (subst (λ x. x < 2 ^ suc n) (double a k) h))
          (half b (2 ^ k) (rw⁻¹ (two_pow k) l)) (half b (2 ^ n) (rw⁻¹ (two_pow n) m)))
    ∙ joined (a * 2 ^ k) b
    ∙ ap (λ x. x + b) (sym (double a k))
  where
    even : (x : ℕ) → (2 * x) % 2 ≡ 0
    even x = omega arith

    halved : (x : ℕ) → (2 * x) / 2 ≡ x
    halved x = omega arith

    smaller : (x y : ℕ) → 2 * x < 2 ^ suc n → x < 2 ^ n
    smaller x y h = omega (arith, h, two_pow n)

    joined : (x c : ℕ) → max 0 (c % 2) + 2 * (x + c / 2) ≡ 2 * x + c
    joined x c = omega arith

pub shifted :
    (r g b : ℕ)
    → r < 256
    → g < 256
    → b < 256
    → bit_or 32 (bit_or 32 (shift_left r 16) (shift_left g 8)) b ≡ (r * 256 + g) * 256 + b
shifted r g b hr hg hb =
    ap₂ (λ x y. bit_or 32 (bit_or 32 x y) b) (kept r hr) (kept_low g hg)
    ∙ ap (λ x. bit_or 32 x b)
        (bit_or-apart 16 32 r (g * 256) (low r hr) (next g hg) (low_next g hg))
    ∙ ap (λ x. bit_or 32 x b) (both r g)
    ∙ bit_or-apart 8 32 (r * 256 + g) b (all r g hr hg) hb (small b hb)
  where
    kept : (m : ℕ) → m < 256 → (m * 65536) % 4294967296 ≡ m * 65536
    kept m h = omega (arith, h)

    kept_low : (m : ℕ) → m < 256 → (m * 256) % 4294967296 ≡ m * 256
    kept_low m h = omega (arith, h)

    low : (m : ℕ) → m < 256 → m * 65536 < 4294967296
    low m h = omega (arith, h)

    next : (m : ℕ) → m < 256 → m * 256 < 65536
    next m h = omega (arith, h)

    low_next : (m : ℕ) → m < 256 → m * 256 < 4294967296
    low_next m h = omega (arith, h)

    both : (m n : ℕ) → m * 65536 + n * 256 ≡ (m * 256 + n) * 256
    both m n = omega arith

    all : (m n : ℕ) → m < 256 → n < 256 → (m * 256 + n) * 256 < 4294967296
    all m n h i = omega (arith, h, i)

    small : (m : ℕ) → m < 256 → m < 4294967296
    small m h = omega (arith, h)
