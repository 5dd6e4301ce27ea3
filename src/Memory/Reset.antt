-- ===== src/Memory/Reset.antt =====
-- memory.ts, `resetCache`: the values that a cache takes over from another one.
use mathlib.Core.Option
use kerthus.Base.{
  ℕ, ◌<◌, ◌≡◌, refl, ap, subst, ◌∙◌, inl, inr, String, str_eq, eq_iff, true, false, ◌||◌, ◌==◌, ltb,
  Bool-cases, Option-cases, List, [], ◌∷◌, Option, some, includes, AreDistinct, lookup, put,
  lookup-put_self, lookup-put_ne, arith,
}
use kerthus.Memory.{
  Slots, Entry, Memory, get, set, reset_one, reset_cache, expiry, expires_of, with_value,
}
use kerthus.Memory.Entries.{value-with_value}

module _ {V : Type 0} where
  abbrev pub keys_of : Slots V → List String
  keys_of [] = []
  keys_of ((k, e) ∷ c) = k ∷ keys_of c

  includes-put :
      (j k : String) (e : Entry V) (c : Slots V)
      → includes j (keys_of (put k e c)) ≡ (includes j (keys_of c) || str_eq k j)
  includes-put j k e [] = ground arith
  includes-put j k e ((q, x) ∷ c) =
      ground (arith, includes-put j k e c, eq_iff q k, eq_iff q j, eq_iff k j)

  AreDistinct-put :
      (k : String) (e : Entry V) (c : Slots V)
      → AreDistinct (keys_of c)
      → AreDistinct (keys_of (put k e c))
  AreDistinct-put k e [] d = (refl, tt)
  AreDistinct-put k e ((q, x) ∷ c) (n, d) = elim (Bool-cases (str_eq q k)) [
    | inl t ↦ rw t (n, d)
    | inr t ↦
        rw t (ground (arith, includes-put q k e c, eq_iff q k, eq_iff k q), AreDistinct-put k e c d)
  ]

  pub AreDistinct-set :
      (k : String) (v : V) (expires now : ℕ) (m : Memory V)
      → AreDistinct (keys_of m.cache)
      → AreDistinct (keys_of (set k v expires now m).cache)
  unfolding set
  AreDistinct-set k v expires now m d = elim (Bool-cases (expires_of expires m == 0)) [
    | inl t ↦ rw t (AreDistinct-put k _ m.cache d)
    | inr t ↦ rw t (AreDistinct-put k _ _ (AreDistinct-put k _ m.cache d))
  ]

  -- The value of a key, if it has an entry.
  abbrev pub value_at : String → Slots V → Option V
  value_at k c = Option.map (λ (e : Entry V). e.value) (lookup k c)

  pub value_at-set :
      (k : String) (v : V) (expires now : ℕ) (m : Memory V)
      → value_at k (set k v expires now m).cache ≡ some v
  unfolding set get
  value_at-set k v expires now m = elim (Bool-cases (expires_of expires m == 0)) [
    | inl t ↦ rw (
      t,
      lookup-put_self k (with_value (lookup k m.cache) v (expires_of expires m)) m.cache,
      value-with_value (lookup k m.cache) v (expires_of expires m),
    )
    | inr t ↦
        rw (t, lookup-put_self)
          (ap some (value-with_value (lookup k m.cache) v (expires_of expires m)))
  ]

  value_at-set_ne :
      (k l : String) (v : V) (expires now : ℕ) (m : Memory V)
      → str_eq k l ≡ false
      → value_at l (set k v expires now m).cache ≡ value_at l m.cache
  unfolding set
  value_at-set_ne k l v expires now m h = elim (Bool-cases (expires_of expires m == 0)) [
    | inl t ↦ rw (t, lookup-put_ne k l _ m.cache h)
    | inr t ↦ rw (t, lookup-put_ne k l _ (put k _ m.cache) h, lookup-put_ne k l _ m.cache h)
  ]

  value_at-reset_one_ne :
      (k l : String) (e : Entry V) (now : ℕ) (m : Memory V)
      → str_eq k l ≡ false
      → value_at l (reset_one k e now m).cache ≡ value_at l m.cache
  value_at-reset_one_ne k l e now m h = elim (Option-cases e.time) [
    | inl n ↦ rw n refl
    | inr (t, n) ↦ rw n (elim (Bool-cases (ltb now t)) [
      | inl b ↦ rw b (value_at-set_ne k l e.value t now m h)
      | inr b ↦ rw b refl
    ])
  ]

  value_at-reset_one :
      (k : String) (e : Entry V) (now time : ℕ) (m : Memory V)
      → e.time ≡ some time
      → now < time
      → value_at k (reset_one k e now m).cache ≡ some e.value
  value_at-reset_one k e now time m t l =
      let b : ltb now time ≡ true = ground arith in rw (t, b) (value_at-set k e.value time now m)

  value_at-reset_absent :
      (k : String) (c : Slots V) (now : ℕ) (m : Memory V)
      → includes k (keys_of c) ≡ false
      → value_at k (reset_cache c now m).cache ≡ value_at k m.cache
  unfolding reset_cache
  value_at-reset_absent k [] now m h = refl
  value_at-reset_absent k ((q, e) ∷ c) now m h =
      value_at-reset_absent k c now (reset_one q e now m) (ground arith)
      ∙ value_at-reset_one_ne q k e now m (ground arith)

  -- An entry that has not expired is there again with its value.
  pub value_at-reset :
      (k : String) (c : Slots V) (now time : ℕ) (e : Entry V) (m : Memory V)
      → AreDistinct (keys_of c)
      → lookup k c ≡ some e
      → e.time ≡ some time
      → now < time
      → value_at k (reset_cache c now m).cache ≡ some e.value
  unfolding reset_cache
  value_at-reset k [] now time e m d h t l = cc
  value_at-reset k ((q, x) ∷ c) now time e m (n, d) h t l = elim (Bool-cases (str_eq q k)) [
    | inr b ↦ value_at-reset k c now time e (reset_one q x now m) d (rw b at h) t l
    | inl b ↦
        let s : q ≡ k = (eq_iff q k).0 b in
        let r : x ≡ e = cc (rw b at h) in
        let a : includes k (keys_of c) ≡ false = subst (λ j. includes j (keys_of c) ≡ false) s n in
        value_at-reset_absent k c now (reset_one q x now m) a
        ∙ subst (λ j. value_at j (reset_one q x now m).cache ≡ some x.value) s
            (value_at-reset_one q x now time m (ap (λ y. y.time) r ∙ t) l)
        ∙ ap (λ y. some y.value) r
  ]

  pub value_of-get :
      (k : String) (m : Memory V)
      → Option.map (λ (e : Entry V). e.value) (get k m) ≡ value_at k m.cache
  unfolding get
  value_of-get k m = refl

  -- The entry behind `set` with an expiry.
  pub lookup-set :
      (k : String) (v : V) (expires now : ℕ) (m : Memory V)
      → 0 < expires_of expires m
      → (e : Entry V) × (lookup k (set k v expires now m).cache ≡ some e)
        × (e.value ≡ v)
        × (e.time ≡ some (expiry (expires_of expires m) now))
  unfolding set get
  lookup-set k v expires now m h =
      let z : (expires_of expires m == 0) ≡ false = ground arith in
      let e = with_value (lookup k m.cache) v (expires_of expires m) in
      let e' = record e {
        timer = some m.next_id;
        time = some (expiry (expires_of expires m) now);
      } in
      rw z (
        e',
        lookup-put_self k e' (put k e m.cache),
        value-with_value (lookup k m.cache) v (expires_of expires m),
        refl,
      )
