-- ===== src/Base/Strings.antt =====
-- Texts that are only compared: `||` on a text that may be empty, `includes`, and sets of texts.
use Prim.Native.String.{String}
use mathlib.Core.Path.{◌≡◌, refl, subst}
use mathlib.Core.Logic.{◌≢◌, inl, inr}
use mathlib.Core.Bool.{Bool, true, false, ◌||◌}
use mathlib.Core.List.{List, [], ◌∷◌, ◌++◌}
use native.Mathlib.Omega.{arith}
use text.Mathlib.Text.{◌==◌ as str_eq}
use text.Mathlib.TextEquality.{eq_iff}
use kerthus.Base.Tests.{if◌then◌else◌, Bool-cases}

abbrev pub is_empty : String → Bool
is_empty s = str_eq s ""

-- `s || t`
abbrev pub or_text : String → String → String
or_text s t = if is_empty s then t else s

-- `list.includes(s)`
abbrev pub includes : String → List String → Bool
includes s [] = false
includes s (t ∷ ts) = str_eq t s || includes s ts

-- `set.add(s)` on a set, listed in the order of its insertions.
abbrev pub set_add : String → List String → List String
set_add s set = if includes s set then set else set ++ s ∷ []

abbrev pub AreDistinct : List String → Type 0
AreDistinct [] = Unit
AreDistinct (s ∷ ts) = (includes s ts ≡ false) × AreDistinct ts

pub str_eq_refl : (s : String) → str_eq s s ≡ true
str_eq_refl s = (eq_iff s s).1 refl

pub str_eq_ne : (s t : String) → s ≢ t → str_eq s t ≡ false
str_eq_ne s t h = ground (arith, eq_iff s t)

pub includes-append :
    (s : String) (ts us : List String) → includes s (ts ++ us) ≡ (includes s ts || includes s us)
includes-append s [] us = refl
includes-append s (t ∷ ts) us = ground (arith, includes-append s ts us)

pub includes-set_add :
    (s t : String) (set : List String) → includes s (set_add t set) ≡ (includes s set || str_eq t s)
includes-set_add s t set = ground (arith, includes-append s set (t ∷ []), eq_iff t s)

pub AreDistinct-concat :
    (ts : List String) (s : String)
    → AreDistinct ts
    → includes s ts ≡ false
    → AreDistinct (ts ++ s ∷ [])
AreDistinct-concat [] s d h = (refl, tt)
AreDistinct-concat (t ∷ ts) s (n, d) h = (
  ground (arith, includes-append t ts (s ∷ []), eq_iff s t, eq_iff t s),
  AreDistinct-concat ts s d (ground arith),
)

pub AreDistinct-set_add :
    (s : String) (set : List String) → AreDistinct set → AreDistinct (set_add s set)
AreDistinct-set_add s set d = ground (arith, AreDistinct-concat set s d)

pub AreDistinct-split :
    (ts us : List String) → AreDistinct (ts ++ us) → AreDistinct ts × AreDistinct us
AreDistinct-split [] us d = (tt, d)
AreDistinct-split (t ∷ ts) us (n, d) =
    let (a, b) = AreDistinct-split ts us d in ((ground (arith, includes-append t ts us), a), b)

-- What the first of two lists has, the second one has not.
pub AreDistinct-apart :
    (ts us : List String) (s : String)
    → AreDistinct (ts ++ us)
    → includes s ts ≡ true
    → includes s us ≡ false
AreDistinct-apart [] us s d h = ground arith
AreDistinct-apart (t ∷ ts) us s (n, d) h = elim (Bool-cases (str_eq t s)) [
  | inl e ↦
      subst (λ x. includes x us ≡ false) ((eq_iff t s).0 e)
        (ground (arith, includes-append t ts us))
  | inr e ↦ AreDistinct-apart ts us s d (rw e at h)
]
