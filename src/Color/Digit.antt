-- ===== src/Color/Digit.antt =====
-- color.ts: the values of the digits.
use Prim.Native.Char.{code}
use kerthus.Base.{
  ◌≡◌, refl, sym, ap, subst, inl, inr, ℕ, zero, suc, ◌<◌, Bool, true, false, ◌&&◌, ◌==◌, ==_iff,
  Bool-cases, &&-split, Option, some, none, arith,
}
use kerthus.Color.{hex_value, digit, lower_char}

abbrev all_below : ℕ → (ℕ → Bool) → Bool
all_below zero p = true
all_below (suc n) p = p n && all_below n p

below_lem : (n : ℕ) (p : ℕ → Bool) (d : ℕ) → all_below n p ≡ true → d < n → p d ≡ true
below_lem zero p d h l = absurd (omega arith)
below_lem (suc n) p d h l =
    let (a, b) = &&-split (p n) (all_below n p) h in
    elim (Bool-cases (d == n)) [
      | inl t ↦ subst (λ e. p e ≡ true) (sym ((==_iff d n).0 t)) a
      | inr t ↦ below_lem n p d b (ground (arith, l, t))
    ]

abbrev is_value : Option ℕ → ℕ → Bool
is_value none d = false
is_value (some n) d = n == d

is_value_lem : (o : Option ℕ) (d : ℕ) → is_value o d ≡ true → o ≡ some d
is_value_lem none d h = cc
is_value_lem (some n) d h = ap some ((==_iff n d).0 h)

checked_digit : all_below 16 (λ e. is_value (hex_value (code (digit e))) e) ≡ true
unfolding hex_value digit
checked_digit = refl

pub hex_value-digit : (d : ℕ) → d < 16 → hex_value (code (digit d)) ≡ some d
hex_value-digit d l =
    is_value_lem (hex_value (code (digit d))) d
      (below_lem 16 (λ e. is_value (hex_value (code (digit e))) e) d checked_digit l)

checked_lower : all_below 16 (λ e. is_value (hex_value (code (lower_char (digit e)))) e) ≡ true
unfolding hex_value digit
checked_lower = refl

pub hex_value-lower : (d : ℕ) → d < 16 → hex_value (code (lower_char (digit d))) ≡ some d
hex_value-lower d l =
    is_value_lem (hex_value (code (lower_char (digit d)))) d
      (below_lem 16 (λ e. is_value (hex_value (code (lower_char (digit e)))) e) d checked_lower l)
