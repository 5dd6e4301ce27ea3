-- ===== src/Memory/Timers.antt =====
-- memory.ts: every pending timer is the timer of an entry, and when it is due.
use mathlib.Core.Bool.{not}
use kerthus.Base.{
  lookup-put_self, lookup-put_ne, lookup-erase_ne, if◌then◌else◌, lookup, put, erase, ℕ, ◌+◌, ◌-◌,
  ◌<◌, ◌≤◌, ◌≡◌, ◌≢◌, ◌⊎◌, refl, ap, ◌∙◌, inl, inr, String, str_eq, eq_iff, false, Bool-cases,
  Option-cases, List, [], ◌∷◌, Option, none, some, filter, All, arith, ltb, ◌==◌,
}
use kerthus.Memory.{
  Entry, Timer, Slots, Memory, clear_timeout, get, expiry, to_timeout, delay, set_cache, timer_of,
  with_value, expires_of, set, remove, fire, clear_timers, clear, reset_one, reset_cache,
}

-- A timer is due at the expiry `time`, or earlier if this is 2 ^ 31 milliseconds or more after its
-- setting.
abbrev pub IsDue : Timer → ℕ → Type 0
IsDue t time = (t.due ≡ time) ⊎ ((t.set_at + 2147483648 ≤ time) × (t.due < time))

to_timeout_lem : (n : ℕ) → (to_timeout n ≡ n) ⊎ ((2147483648 ≤ n) × (to_timeout n < n))
to_timeout_lem n = elim (Bool-cases (ltb n 2147483648)) [
  | inl e ↦ inl (ground arith)
  | inr e ↦ inr (ground arith)
]

delay-IsDue :
    (id : ℕ) (key : String) (expires now : ℕ)
    → IsDue
        (record { id = id; key = key; set_at = now; due = now + delay expires now })
        (expiry expires now)
delay-IsDue id key expires now =
    elim (to_timeout_lem (if ltb now expires then expires - now else expires)) [
      | inl e ↦ inl (ap (now +◌) e ∙ wait_lem)
      | inr (h, l) ↦ inr (omega (arith, wait_lem), omega (arith, wait_lem, l))
    ]
  where
    wait_lem : now + (if ltb now expires then expires - now else expires) ≡ expiry expires now
    wait_lem = ground arith

module _ {V : Type 0} where
  abbrev IsOwned : Slots V → Timer → Type 0
  IsOwned c t =
      (e : Entry V) × (lookup t.key c ≡ some e)
      × (e.timer ≡ some t.id)
      × ((time : ℕ) × (e.time ≡ some time) × IsDue t time)

  abbrev pub HasOwners : Memory V → Type 0
  HasOwners m = All (IsOwned m.cache) m.timers

  -- The timers that are not cleared keep their entries, if each of them does.
  module _ (c c' : Slots V) where
    IsOwned-kept :
        ((t : Timer) → IsOwned c t → none ≢ some t.id → IsOwned c' t)
        → (ts : List Timer) → All (IsOwned c) ts
        → All (IsOwned c') ts
    IsOwned-kept step [] h = tt
    IsOwned-kept step (t ∷ ts) h = (step t h.0 (λ e. cc), IsOwned-kept step ts h.1)

    IsOwned-filter :
        (i : ℕ)
        → ((t : Timer) → IsOwned c t → some i ≢ some t.id → IsOwned c' t)
        → (ts : List Timer) → All (IsOwned c) ts
        → All (IsOwned c') (filter (λ t. not (t.id == i)) ts)
    IsOwned-filter i step [] h = tt
    IsOwned-filter i step (t ∷ ts) h = elim (Bool-cases (t.id == i)) [
      | inl e ↦ rw e (IsOwned-filter i step ts h.1)
      | inr e ↦
          rw e
            (step t h.0 (λ f. let q : i ≡ t.id = cc in ground arith), IsOwned-filter i step ts h.1)
    ]

    IsOwned-cleared :
        (o : Option ℕ)
        → ((t : Timer) → IsOwned c t → o ≢ some t.id → IsOwned c' t)
        → (ts : List Timer) → All (IsOwned c) ts
        → All (IsOwned c') (clear_timeout o ts)
    unfolding clear_timeout
    IsOwned-cleared none step ts h = IsOwned-kept step ts h
    IsOwned-cleared (some i) step ts h = IsOwned-filter i step ts h

  -- A change at one key keeps the entries of the timers that are not the key's.
  IsOwned-elsewhere :
      (k : String) (c c' : Slots V)
      → ((l : String) → str_eq k l ≡ false → lookup l c' ≡ lookup l c)
      → (t : Timer) → IsOwned c t
      → timer_of (lookup k c) ≢ some t.id
      → IsOwned c' t
  IsOwned-elsewhere k c c' same t (e, p, q, r) ne = elim (Bool-cases (str_eq k t.key)) [
    | inl h ↦
        let f : lookup k c ≡ some e = ap (λ l. lookup l c) ((eq_iff k t.key).0 h) ∙ p in
        absurd (ne (ap timer_of f ∙ q))
    | inr h ↦ (e, same t.key h ∙ p, q, r)
  ]

  IsOwned-changed :
      (k : String) (c c' : Slots V) (ts : List Timer)
      → ((l : String) → str_eq k l ≡ false → lookup l c' ≡ lookup l c)
      → All (IsOwned c) ts
      → All (IsOwned c') (clear_timeout (timer_of (lookup k c)) ts)
  IsOwned-changed k c c' ts same h =
      IsOwned-cleared c c' (timer_of (lookup k c)) (IsOwned-elsewhere k c c' same) ts h

  remove-HasOwners : (k : String) (m : Memory V) → HasOwners m → HasOwners (remove k m)
  unfolding remove get
  remove-HasOwners k m h =
      IsOwned-changed k m.cache (erase k m.cache) m.timers (λ l e. lookup-erase_ne k l m.cache e) h

  set-HasOwners :
      (k : String) (v : V) (expires now : ℕ) (m : Memory V)
      → HasOwners m
      → HasOwners (set k v expires now m)
  unfolding set get
  set-HasOwners k v expires now m h =
      let e = with_value (lookup k m.cache) v (expires_of expires m) in
      let e' = record e {
        timer = some m.next_id;
        time = some (expiry (expires_of expires m) now);
      } in
      elim (Bool-cases (expires_of expires m == 0)) [
        | inl z ↦ rw z (
            IsOwned-changed k m.cache (put k e m.cache) m.timers
              (λ l f. lookup-put_ne k l e m.cache f) h)
        | inr z ↦ rw z (
          (
            e',
            lookup-put_self k e' (put k e m.cache),
            refl,
            (
              expiry (expires_of expires m) now,
              refl,
              delay-IsDue m.next_id k (expires_of expires m) now,
            ),
          ),
          IsOwned-changed k m.cache (put k e' (put k e m.cache)) m.timers
              (λ l f. lookup-put_ne k l e' (put k e m.cache) f ∙ lookup-put_ne k l e m.cache f) h,
        )
      ]

  fire-HasOwners : (t : Timer) (m : Memory V) → HasOwners m → HasOwners (fire t m)
  unfolding fire
  fire-HasOwners t m h =
      remove-HasOwners t.key (record m { timers = clear_timeout (some t.id) m.timers })
        (IsOwned-cleared m.cache m.cache (some t.id) (λ u o ne. o) m.timers h)

  IsOwned-tail :
      (q : String) (e : Entry V) (c : Slots V) (t : Timer)
      → IsOwned ((q, e) ∷ c) t
      → e.timer ≢ some t.id
      → IsOwned c t
  IsOwned-tail q e c t (x, p, a, b) ne = elim (Bool-cases (str_eq q t.key)) [
    | inl h ↦ let f = rw h at p in let g : e ≡ x = cc in absurd (ne (ap (λ y. y.timer) g ∙ a))
    | inr h ↦ (x, rw h at p, a, b)
  ]

  clear_timers_lem : (c : Slots V) (ts : List Timer) → All (IsOwned c) ts → clear_timers c ts ≡ []
  unfolding clear_timers
  clear_timers_lem [] [] h = refl
  clear_timers_lem [] (t ∷ ts) h = let (e, p, q, r) = h.0 in cc
  clear_timers_lem ((q, e) ∷ c) ts h =
      clear_timers_lem c (clear_timeout e.timer ts)
        (IsOwned-cleared ((q, e) ∷ c) c e.timer (IsOwned-tail q e c) ts h)

  reset_one-HasOwners :
      (k : String) (e : Entry V) (now : ℕ) (m : Memory V)
      → HasOwners m
      → HasOwners (reset_one k e now m)
  reset_one-HasOwners k e now m h = elim (Option-cases e.time) [
    | inl n ↦ rw n h
    | inr (t, n) ↦ elim (Bool-cases (ltb now t)) [
      | inl l ↦ rw (n, l) (set-HasOwners k e.value t now m h)
      | inr l ↦ rw (n, l) h
    ]
  ]

  reset_cache-HasOwners :
      (c : Slots V) (now : ℕ) (m : Memory V) → HasOwners m → HasOwners (reset_cache c now m)
  unfolding reset_cache
  reset_cache-HasOwners [] now m h = h
  reset_cache-HasOwners ((q, e) ∷ c) now m h =
      reset_cache-HasOwners c now (reset_one q e now m) (reset_one-HasOwners q e now m h)

  set_cache-HasOwners :
      (c c' : Slots V) (ts : List Timer)
      → All (λ t. lookup t.key c ≡ lookup t.key c') ts
      → All (IsOwned c') ts
      → All (IsOwned c) ts
  set_cache-HasOwners c c' [] same h = tt
  set_cache-HasOwners c c' (t ∷ ts) (s, same) ((e, p, q, d), h) =
      ((e, s ∙ p, q, d), set_cache-HasOwners c c' ts same h)

  -- An operation of the object, or the run of a timer of the browser.
  pub data Step : Memory V → Memory V → Type 0 where
    sets : (k : String) (v : V) (expires now : ℕ) (m : Memory V) → Step m (set k v expires now m)
    removes : (k : String) (m : Memory V) → Step m (remove k m)
    clears : (m : Memory V) → Step m (clear m)
    -- Each pending timer finds the same entry in the new cache as in the old one.
    cache_set :
        (c : Slots V) (m : Memory V)
        → All (λ t. lookup t.key c ≡ lookup t.key m.cache) m.timers
        → Step m (set_cache c m)
    resets : (c : Slots V) (now : ℕ) (m : Memory V) → Step m (reset_cache c now m)
    fires : (t : Timer) (m : Memory V) → Step m (fire t m)

  pub data Run : Memory V → Memory V → Type 0 where
    stop : (m : Memory V) → Run m m
    next : {u v w : Memory V} → Step u v → Run v w → Run u w

  Step-HasOwners : {u w : Memory V} → Step u w → HasOwners u → HasOwners w
  unfolding clear set_cache
  Step-HasOwners (sets k v expires now m) h = set-HasOwners k v expires now m h
  Step-HasOwners (removes k m) h = remove-HasOwners k m h
  Step-HasOwners (clears m) h = rw (clear_timers_lem m.cache m.timers h) tt
  Step-HasOwners (cache_set c m same) h = set_cache-HasOwners c m.cache m.timers same h
  Step-HasOwners (resets c now m) h = reset_cache-HasOwners c now m h
  Step-HasOwners (fires t m) h = fire-HasOwners t m h

  -- Each pending timer is the timer of the entry at its key, and is due at the time at which the entry
  -- expires, or earlier if this is 2 ^ 31 milliseconds or more after the timer was set: every run that
  -- begins with this, as with a new cache, ends with it. In the run a cache that `setCache` puts in has
  -- the entries of the old one at the keys of the pending timers.
  pub Run-HasOwners : {u w : Memory V} → Run u w → HasOwners u → HasOwners w
  Run-HasOwners (stop m) h = h
  Run-HasOwners (next s r) h = Run-HasOwners r (Step-HasOwners s h)
