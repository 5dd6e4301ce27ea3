-- ===== src/Persistent/Unload.antt =====
-- persistent.ts, the listener of `beforeunload`: what a page leaves in a storage.
use kerthus.Base.{
  ◌≡◌, refl, ap, ◌∙◌, String, str_eq, eq_iff, false, List, [], ◌∷◌, Option, none, some, includes,
  AreDistinct, lookup, put, lookup-put_self, lookup-put_ne, if◌then◌else◌, arith, subst, inl, inr,
  Bool-cases,
}
use kerthus.Memory.{Slots}
use kerthus.Memory.Reset.{keys_of}
use kerthus.Storage.{returns}
use kerthus.Persistent.{spread, merged, lock_info_key, kept_keys}

abbrev pub over {ℓ} : {A : Type ℓ} → Option A → Option A → Option A
over (some x) o = some x
over none o = o

module _ {V : Type 0} where
  lookup-absent : (j : String) (c : Slots V) → includes j (keys_of c) ≡ false → lookup j c ≡ none
  lookup-absent j [] h = refl
  lookup-absent j ((k, e) ∷ c) h = ground (arith, lookup-absent j c)

  lookup-spread :
      (j : String) (a b : Slots V)
      → AreDistinct (keys_of b)
      → lookup j (spread a b) ≡ over (lookup j b) (lookup j a)
  lookup-spread j a [] d = refl
  lookup-spread j a ((k, e) ∷ b) (n, d) = elim (Bool-cases (str_eq k j)) [
    | inl t ↦
        let s : k ≡ j = (eq_iff k j).0 t in
        let m : lookup j b ≡ none =
          lookup-absent j b (subst (λ i. includes i (keys_of b) ≡ false) s n) in
        rw t (
          lookup-spread j (put k e a) b d
          ∙ ap (λ o. over o (lookup j (put k e a))) m
          ∙ ap (λ i. lookup j (put i e a)) s
          ∙ lookup-put_self j e a)
    | inr t ↦
        rw t (lookup-spread j (put k e a) b d ∙ ap (over (lookup j b)) (lookup-put_ne k j e a t))
  ]

-- What lodash-es documents of `omit` and `pick`.
abbrev pub IsOmit : {V : Type 0} → (String → Slots V → Slots V) → Type 0
IsOmit {V} omit =
    (k j : String) (c : Slots V) → lookup j (omit k c) ≡ (if str_eq k j then none else lookup j c)

abbrev pub IsPick : {V : Type 0} → (List String → Slots V → Slots V) → Type 0
IsPick {V} pick =
    (ks : List String) (c : Slots V)
    → AreDistinct (keys_of (pick ks c))
      × ((j : String) → lookup j (pick ks c) ≡ (if includes j ks then lookup j c else none))

module _ {V : Type 0} (omit : String → Slots V → Slots V)
    (pick : List String → Slots V → Slots V) where
  -- A page that is left writes its entries, but the token, the user, the tenant and the lock as they
  -- are stored, where they are: what another window wrote of these is kept. The lock of the memory is
  -- never written. `omit` and `pick` are as lodash-es documents them.
  pub unload_lem :
      (cache stored : Slots V) (key : String)
      → IsOmit omit
      → IsPick pick
      → lookup key (merged omit pick cache (returns stored))
        ≡ over
            (if includes key kept_keys then lookup key stored else none)
            (if str_eq lock_info_key key then none else lookup key cache)
  unfolding merged
  unload_lem cache stored key o p =
      lookup-spread key (omit lock_info_key cache) (pick kept_keys stored) (p kept_keys stored).0
      ∙ ap (λ x. over x (lookup key (omit lock_info_key cache))) ((p kept_keys stored).1 key)
      ∙ ap (over _) (o lock_info_key key cache)
