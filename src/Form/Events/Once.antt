-- ===== src/Form/Events/Once.antt =====
-- Lists with one entry at most that passes a test, as the schemas of a field are.
use kerthus.Base.{
  ◌≡◌, refl, inl, inr, ℕ, zero, suc, Bool, true, false, not, Bool-cases, Option-cases, List, [],
  ◌∷◌, none, some, find_index, erase_idx, any, filter, arith,
}

module _ {A : Type 0} (p : A → Bool) where
  -- At most one entry passes the test.
  abbrev pub IsOnce : List A → Type 0
  IsOnce [] = Unit
  IsOnce (x ∷ xs) = (p x ≡ true → any p xs ≡ false) × IsOnce xs

  pub filter-none : (xs : List A) → any p xs ≡ false → filter (λ x. not (p x)) xs ≡ xs
  filter-none [] n = refl
  filter-none (x ∷ xs) n = ground (arith, filter-none xs)

  pub find_index-none : (xs : List A) → find_index p xs ≡ none → any p xs ≡ false
  find_index-none [] e = refl
  find_index-none (x ∷ xs) e = elim (Option-cases (find_index p xs)) [
    | inl n ↦ ground (arith, find_index-none xs n)
    | inr (j, n) ↦ ground (arith, n)
  ]

  pub find_index-some :
      (xs : List A) (i : ℕ)
      → IsOnce xs
      → find_index p xs ≡ some i
      → (any p xs ≡ true) × (erase_idx xs i ≡ filter (λ x. not (p x)) xs)
  find_index-some [] i o e = cc
  find_index-some (x ∷ xs) zero o e = elim (Bool-cases (p x)) [
    | inl t ↦ ground (arith, t, filter-none xs (o.0 t))
    | inr t ↦ elim (Option-cases (find_index p xs)) [
      | inl n ↦ ground arith
      | inr (j, n) ↦ ground arith
    ]
  ]
  find_index-some (x ∷ xs) (suc i) o e = elim (Bool-cases (p x)) [
    | inl t ↦ ground arith
    | inr t ↦ elim (Option-cases (find_index p xs)) [
      | inl n ↦ ground arith
      | inr (j, n) ↦ ground (arith, find_index-some xs i o.1)
    ]
  ]

  any-filter : (q : A → Bool) (xs : List A) → any p xs ≡ false → any p (filter q xs) ≡ false
  any-filter q [] n = refl
  any-filter q (x ∷ xs) n = ground (arith, any-filter q xs)

  pub IsOnce-filter : (q : A → Bool) (xs : List A) → IsOnce xs → IsOnce (filter q xs)
  IsOnce-filter q [] o = tt
  IsOnce-filter q (x ∷ xs) o = elim (Bool-cases (q x)) [
    | inl t ↦ rw t ((λ h. any-filter q xs (o.0 h)), IsOnce-filter q xs o.1)
    | inr t ↦ rw t (IsOnce-filter q xs o.1)
  ]
