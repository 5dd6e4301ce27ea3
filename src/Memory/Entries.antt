-- ===== src/Memory/Entries.antt =====
-- memory.ts: what `get` answers behind `set` and `remove`.
use kerthus.Base.{
  lookup-put_self, lookup-put_ne, lookup, put, ℕ, ◌<◌, ◌≡◌, refl, ◌∙◌, ◌≢◌, String, str_eq_ne,
  false, Option, none, some, arith, ◌==◌,
}
use kerthus.Memory.{Entry, Memory, get, expiry, with_value, expires_of, set}

now-expiry : (expires now : ℕ) → 0 < expires → now < expiry expires now
now-expiry expires now h = ground arith

module _ {V : Type 0} where
  pub value-with_value : (o : Option (Entry V)) (v : V) (n : ℕ) → (with_value o v n).value ≡ v
  value-with_value none v n = refl
  value-with_value (some e) v n = refl

  -- Behind `set` with an expiry, its own or that of the cache, `get` answers the value at the key,
  -- with an expiry that lies ahead, and at any other key what it answered before.
  pub get-set :
      (k l : String) (v : V) (expires now : ℕ) (m : Memory V)
      → k ≢ l
      → 0 < expires_of expires m
      → ((e : Entry V) × (get k (set k v expires now m) ≡ some e)
          × (e.value ≡ v)
          × ((time : ℕ) × (e.time ≡ some time) × (now < time)))
        × (get l (set k v expires now m) ≡ get l m)
  unfolding set get
  get-set k l v expires now m ne h =
      let n = expires_of expires m in
      let z : (n == 0) ≡ false = ground arith in
      let e = with_value (lookup k m.cache) v n in
      let e' = record e { timer = some m.next_id; time = some (expiry n now) } in
      rw z (
        (
          e',
          lookup-put_self k e' (put k e m.cache),
          value-with_value (lookup k m.cache) v n,
          (expiry n now, refl, now-expiry n now h),
        ),
        lookup-put_ne k l e' (put k e m.cache) (str_eq_ne k l ne)
            ∙ lookup-put_ne k l e m.cache (str_eq_ne k l ne),
      )
