-- ===== src/Http/Query/Texts.antt =====
-- utils/index.ts, `setObjToUrlParams`: texts without a character, and those that one divides.
use Prim.Native.Char.{Char, code}
use Prim.Native.String as Text
use text.Mathlib.TextLemmas.{nil-append, cons-append}
use kerthus.Base.{
  ◌≡◌, refl, sym, ap, ◌∙◌, ℕ, String, Bool, true, false, not, ◌&&◌, Bool-cases, &&-split, str_eq_ne,
  inl, inr, ◌==◌, List, [], ◌∷◌, is_empty, if◌then◌else◌, split_on, in_first, arith,
}
use kerthus.Value.{Fields, no_fields, with_field}
use kerthus.Http.Query.{drop_last, ends_in}

-- The text has no character of this code.
abbrev pub lacks : ℕ → String → Bool
lacks p String.[] = true
lacks p (String.◌∷◌ c s) = not (code c == p) && lacks p s

abbrev pub is_plain : String → Bool
is_plain s = (lacks b'&' s && lacks b'?' s) && lacks b'=' s

abbrev pub plain_keys : Fields → Bool
plain_keys no_fields = true
plain_keys (with_field k v f) = is_plain k && plain_keys f

pub cons_filled : (c : Char) (s : String) → is_empty (String.◌∷◌ c s) ≡ false
cons_filled c s = str_eq_ne (String.◌∷◌ c s) "" (λ e. cc)

pub filled : (s t : String) → is_empty t ≡ false → is_empty (Text.◌++◌ s t) ≡ false
filled String.[] t h = ap is_empty (nil-append t) ∙ h
filled (String.◌∷◌ c s) t h = ap is_empty (cons-append c s t) ∙ cons_filled c (Text.◌++◌ s t)

module _ (p : ℕ) where
  pub split_on-lacks : (s : String) → lacks p s ≡ true → split_on p s ≡ s ∷ []
  unfolding split_on
  split_on-lacks String.[] h = refl
  split_on-lacks (String.◌∷◌ c s) h =
      let (a, b) = &&-split (not (code c == p)) (lacks p s) h in
      other_char c (split_on p s) (split_on-lacks s b) a
    where
      other_char :
          (d : Char) (rest : List String)
          → rest ≡ s ∷ []
          → not (code d == p) ≡ true
          → (if code d == p then "" ∷ rest else in_first d rest) ≡ String.◌∷◌ d s ∷ []
      other_char d rest e n = elim (Bool-cases (code d == p)) [
        | inl t ↦ cc
        | inr t ↦ rw (t, e) refl
      ]

  pub split_on-append :
      (s t : String) (c : Char)
      → lacks p s ≡ true
      → (code c == p) ≡ true
      → split_on p (Text.◌++◌ s (String.◌∷◌ c t)) ≡ s ∷ split_on p t
  unfolding split_on
  split_on-append String.[] t c h e = rw (nil-append (String.◌∷◌ c t), e) refl
  split_on-append (String.◌∷◌ d s) t c h e =
      let (a, b) = &&-split (not (code d == p)) (lacks p s) h in
      rw (cons-append d s (String.◌∷◌ c t))
        (other_char (split_on p (Text.◌++◌ s (String.◌∷◌ c t))) (split_on-append s t c b e) a)
    where
      other_char :
          (rest : List String)
          → rest ≡ s ∷ split_on p t
          → not (code d == p) ≡ true
          → (if code d == p then "" ∷ rest else in_first d rest) ≡ String.◌∷◌ d s ∷ split_on p t
      other_char rest r n = elim (Bool-cases (code d == p)) [ inl u ↦ cc | inr u ↦ rw (u, r) refl ]

  pub lacks-append : (s t : String) → lacks p (Text.◌++◌ s t) ≡ (lacks p s && lacks p t)
  lacks-append String.[] t = ap (lacks p) (nil-append t)
  lacks-append (String.◌∷◌ c s) t =
      rw (cons-append c s t, lacks-append s t) (assoc (not (code c == p)) (lacks p s) (lacks p t))
    where
      assoc : (a b d : Bool) → (a && (b && d)) ≡ ((a && b) && d)
      assoc a b d = ground arith

  pub lacks-drop_last : (q : ℕ) (s : String) → lacks p s ≡ true → lacks p (drop_last q s) ≡ true
  unfolding drop_last
  lacks-drop_last q String.[] h = refl
  lacks-drop_last q (String.◌∷◌ c s) h =
      let (a, b) = &&-split (not (code c == p)) (lacks p s) h in
      elim (Bool-cases (is_empty s && code c == q)) [
        | inl t ↦ rw t refl
        | inr t ↦ rw (t, a) (lacks-drop_last q s b)
      ]

  pub lacks-ends_in : (s : String) → lacks p s ≡ true → ends_in p s ≡ false
  unfolding ends_in
  lacks-ends_in String.[] h = refl
  lacks-ends_in (String.◌∷◌ c s) h = ground (arith, lacks-ends_in s)

  pub drop_last-append :
      (s t : String)
      → is_empty t ≡ false
      → drop_last p (Text.◌++◌ s t) ≡ Text.◌++◌ s (drop_last p t)
  unfolding drop_last
  drop_last-append String.[] t h =
      ap (drop_last p) (nil-append t) ∙ sym (nil-append (drop_last p t))
  drop_last-append (String.◌∷◌ c s) t h =
      ap (drop_last p) (cons-append c s t)
      ∙ rw (filled s t h) (ap (String.◌∷◌ c) (drop_last-append s t h))
      ∙ sym (cons-append c s (drop_last p t))
