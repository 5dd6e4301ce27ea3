-- ===== src/Base/Search.antt =====
-- `filter`, `find`, `findIndex`, `some` and `includes` with Boolean callbacks, and what they share.
use Prim.Native.Nat.{ℕ, zero, suc, ◌≤◌, ◌<◌}
use mathlib.Core.Path.{◌≡◌, refl, subst}
use mathlib.Core.Bool.{Bool, true, false, ◌||◌}
use mathlib.Core.List.{List, [], ◌∷◌, ◌++◌}
use mathlib.Core.Logic.{inl, inr}
use mathlib.Core.Option
use mathlib.Core.Option.{Option, none, some}
use native.Mathlib.Omega.{arith}
use kerthus.Base.Tests.{if◌then◌else◌, Bool-cases, Option-cases}
use kerthus.Base.Lists.{length, get_elem?}

module _ {ℓ κ} {A : Type ℓ} (P : A → Type κ) where
  abbrev pub All : List A → Type κ
  All [] = Unit
  All (x ∷ xs) = P x × All xs

  pub All-append : (xs ys : List A) → All xs → All ys → All (xs ++ ys)
  All-append [] ys hx hy = hy
  All-append (x ∷ xs) ys hx hy = (hx.0, All-append xs ys hx.1 hy)

  pub All-split : (xs ys : List A) → All (xs ++ ys) → All xs × All ys
  All-split [] ys h = (tt, h)
  All-split (x ∷ xs) ys (p, h) = let (a, b) = All-split xs ys h in ((p, a), b)

module _ {ℓ} {A : Type ℓ} where
  abbrev pub filter : (A → Bool) → List A → List A
  filter p [] = []
  filter p (x ∷ xs) = if p x then x ∷ filter p xs else filter p xs

  abbrev pub find : (A → Bool) → List A → Option A
  find p [] = none
  find p (x ∷ xs) = if p x then some x else find p xs

  -- `none` is the `-1` of the language.
  abbrev pub find_index : (A → Bool) → List A → Option ℕ
  find_index p [] = none
  find_index p (x ∷ xs) = if p x then some 0 else Option.map suc (find_index p xs)

  abbrev pub any : (A → Bool) → List A → Bool
  any p [] = false
  any p (x ∷ xs) = p x || any p xs

  pub any-append : (p : A → Bool) (xs ys : List A) → any p (xs ++ ys) ≡ (any p xs || any p ys)
  any-append p [] ys = refl
  any-append p (x ∷ xs) ys = ground (arith, any-append p xs ys)

  pub filter-append :
      (p : A → Bool) (xs ys : List A) → filter p (xs ++ ys) ≡ filter p xs ++ filter p ys
  filter-append p [] ys = refl
  filter-append p (x ∷ xs) ys = ground (arith, filter-append p xs ys)

  pub filter-filter : (p : A → Bool) (xs : List A) → filter p (filter p xs) ≡ filter p xs
  filter-filter p [] = refl
  filter-filter p (x ∷ xs) = ground (arith, filter-filter p xs)

  pub length-filter-le : (p : A → Bool) (xs : List A) → length (filter p xs) ≤ length xs
  length-filter-le p [] = omega arith
  length-filter-le p (x ∷ xs) = ground (arith, length-filter-le p xs)

  -- What is found satisfies the test.
  pub find_sound : (p : A → Bool) (xs : List A) (y : A) → find p xs ≡ some y → p y ≡ true
  find_sound p [] y h = cc
  find_sound p (x ∷ xs) y h = ground (arith, find_sound p xs y)

  -- The index that is found holds an element that satisfies the test.
  pub find_index_sound :
      (p : A → Bool) (xs : List A) (i : ℕ)
      → find_index p xs ≡ some i
      → (x : A) × (get_elem? xs i ≡ some x) × (p x ≡ true)
  find_index_sound p [] i h = cc
  find_index_sound p (x ∷ xs) zero h = elim (Bool-cases (p x)) [
    | inl e ↦ (x, refl, e)
    | inr e ↦ elim (Option-cases (find_index p xs)) [
      | inl n ↦ ground arith
      | inr (j, n) ↦ ground arith
    ]
  ]
  find_index_sound p (x ∷ xs) (suc i) h = find_index_sound p xs i (elim (Bool-cases (p x)) [
    | inl e ↦ ground arith
    | inr e ↦ elim (Option-cases (find_index p xs)) [
      | inl n ↦ ground arith
      | inr (j, n) ↦ ground arith
    ]
  ])

  pub lt-length_of_get_elem? :
      (xs : List A) (i : ℕ) (x : A) → get_elem? xs i ≡ some x → i < length xs
  lt-length_of_get_elem? [] i x h = cc
  lt-length_of_get_elem? (_ ∷ xs) zero x h = omega arith
  lt-length_of_get_elem? (_ ∷ xs) (suc i) x h = omega (arith, lt-length_of_get_elem? xs i x h)

  -- What holds of every element holds of the one that is found.
  pub All-find {κ} :
      (P : A → Type κ) (p : A → Bool) (xs : List A) (y : A) → All P xs → find p xs ≡ some y → P y
  All-find P p [] y h e = cc
  All-find P p (x ∷ xs) y (hx, h) e = elim (Bool-cases (p x)) [
    | inl t ↦ subst P (cc) hx
    | inr t ↦ All-find P p xs y h (rw t at e)
  ]
