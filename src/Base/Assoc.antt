-- ===== src/Base/Assoc.antt =====
-- Objects as maps from keys to values: lists of properties in the order of their insertion.
use Prim.Native.String.{String}
use mathlib.Core.Path.{◌≡◌, refl}
use mathlib.Core.Bool.{false}
use mathlib.Core.List.{List, [], ◌∷◌}
use mathlib.Core.Option.{Option, none, some}
use native.Mathlib.Omega.{arith}
use text.Mathlib.Text.{◌==◌ as str_eq}
use text.Mathlib.TextEquality.{eq_iff}
use kerthus.Base.Tests.{if◌then◌else◌}
use kerthus.Base.Strings.{str_eq_refl}

module _ {ℓ} {A : Type ℓ} where
  abbrev pub lookup : String → List (String × A) → Option (A)
  lookup k [] = none
  lookup k ((q, e) ∷ c) = if str_eq q k then some e else lookup k c

  -- `cache[k] = e`
  abbrev pub put : String → A → List (String × A) → List (String × A)
  put k e [] = (k, e) ∷ []
  put k e ((q, x) ∷ c) = if str_eq q k then (q, e) ∷ c else (q, x) ∷ put k e c

  -- `Reflect.deleteProperty(cache, k)`
  abbrev pub erase : String → List (String × A) → List (String × A)
  erase k [] = []
  erase k ((q, x) ∷ c) = if str_eq q k then erase k c else (q, x) ∷ erase k c

  pub lookup-put_self : (k : String) (e : A) (c : List (String × A)) → lookup k (put k e c) ≡ some e
  lookup-put_self k e [] = rw (str_eq_refl k) refl
  lookup-put_self k e ((q, x) ∷ c) = ground (arith, lookup-put_self k e c)

  pub lookup-put_ne :
      (k l : String) (e : A) (c : List (String × A))
      → str_eq k l ≡ false
      → lookup l (put k e c) ≡ lookup l c
  lookup-put_ne k l e [] h = rw h refl
  lookup-put_ne k l e ((q, x) ∷ c) h =
      ground (arith, lookup-put_ne k l e c, eq_iff q k, eq_iff q l, eq_iff k l)

  pub lookup-erase_self : (k : String) (c : List (String × A)) → lookup k (erase k c) ≡ none
  lookup-erase_self k [] = refl
  lookup-erase_self k ((q, x) ∷ c) = ground (arith, lookup-erase_self k c)

  pub lookup-erase_ne :
      (k l : String) (c : List (String × A))
      → str_eq k l ≡ false
      → lookup l (erase k c) ≡ lookup l c
  lookup-erase_ne k l [] h = refl
  lookup-erase_ne k l ((q, x) ∷ c) h =
      ground (arith, lookup-erase_ne k l c, eq_iff q k, eq_iff q l, eq_iff k l)
