-- ===== src/Base/Lists.antt =====
-- Arrays measured and indexed by native numbers, under the library's names, with `slice` and
-- `splice` as the language defines them at indices that are not negative.
use Prim.Native.Nat.{ℕ, zero, suc, ◌+◌, ◌≤◌, ◌<◌}
use mathlib.Core.Path.{◌≡◌, refl, ap}
use mathlib.Core.List.{List, [], ◌∷◌, ◌++◌}
use mathlib.Core.Option.{Option, none, some}
use native.Mathlib.Omega.{arith}

module _ {ℓ} {A : Type ℓ} where
  abbrev pub length : List A → ℕ
  length [] = 0
  length (x ∷ xs) = suc (length xs)

  abbrev pub get_elem? : List A → ℕ → Option A
  get_elem? [] i = none
  get_elem? (x ∷ xs) zero = some x
  get_elem? (x ∷ xs) (suc i) = get_elem? xs i

  abbrev pub take : ℕ → List A → List A
  take zero xs = []
  take (suc n) [] = []
  take (suc n) (x ∷ xs) = x ∷ take n xs

  abbrev pub drop : ℕ → List A → List A
  drop zero xs = xs
  drop (suc n) [] = []
  drop (suc n) (x ∷ xs) = drop n xs

  -- A write out of bounds changes nothing.
  abbrev pub set : List A → ℕ → A → List A
  set [] i v = []
  set (x ∷ xs) zero v = v ∷ xs
  set (x ∷ xs) (suc i) v = x ∷ set xs i v

  -- `xs.splice(i, 1)`
  abbrev pub erase_idx : List A → ℕ → List A
  erase_idx [] i = []
  erase_idx (x ∷ xs) zero = xs
  erase_idx (x ∷ xs) (suc i) = x ∷ erase_idx xs i

  -- `xs.splice(i, 0, v)`: an index past the end appends.
  abbrev pub insert_idx : List A → ℕ → A → List A
  insert_idx xs zero v = v ∷ xs
  insert_idx [] (suc i) v = v ∷ []
  insert_idx (x ∷ xs) (suc i) v = x ∷ insert_idx xs i v

  pub length-append : (xs ys : List A) → length (xs ++ ys) ≡ length xs + length ys
  length-append [] ys = omega arith
  length-append (x ∷ xs) ys = omega (arith, length-append xs ys)

  pub take-append-drop : (n : ℕ) (xs : List A) → take n xs ++ drop n xs ≡ xs
  take-append-drop zero xs = refl
  take-append-drop (suc n) [] = refl
  take-append-drop (suc n) (x ∷ xs) = ap (x ∷◌) (take-append-drop n xs)

  pub length-insert_idx :
      (xs : List A) (i : ℕ) (v : A) → length (insert_idx xs i v) ≡ suc (length xs)
  length-insert_idx xs zero v = refl
  length-insert_idx [] (suc i) v = refl
  length-insert_idx (x ∷ xs) (suc i) v = ap suc (length-insert_idx xs i v)

  pub length-erase_idx :
      (xs : List A) (i : ℕ) → i < length xs → suc (length (erase_idx xs i)) ≡ length xs
  length-erase_idx [] i h = absurd (omega arith)
  length-erase_idx (x ∷ xs) zero h = refl
  length-erase_idx (x ∷ xs) (suc i) h = ap suc (length-erase_idx xs i (omega arith))

  pub get_elem?-insert_idx_self :
      (xs : List A) (i : ℕ) (v : A) → i ≤ length xs → get_elem? (insert_idx xs i v) i ≡ some v
  get_elem?-insert_idx_self xs zero v h = refl
  get_elem?-insert_idx_self [] (suc i) v h = absurd (omega arith)
  get_elem?-insert_idx_self (x ∷ xs) (suc i) v h = get_elem?-insert_idx_self xs i v (omega arith)
