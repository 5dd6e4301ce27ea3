-- ===== src/Persistent/Tests.antt =====
-- A cache that is written, left and loaded again.
use kerthus.Base.{
  ℕ, ◌≡◌, refl, subst, String, str_eq, eq_iff, true, false, List, [], ◌∷◌, none, some, includes,
  lookup, erase, lookup-erase_self, lookup-erase_ne, if◌then◌else◌, arith, AreDistinct, Bool-cases,
  inl, inr,
}
use kerthus.Memory.{Slots, Entry, Memory, set}
use kerthus.Memory.Reset.{keys_of}
use kerthus.Storage.{Stored, Config}
use kerthus.Persistent.{Area, set_in, init_area, get_in, app_local_cache_key}
use kerthus.Persistent.Reload.{reload_lem}
use kerthus.Persistent.Unload.{IsOmit}

abbrev empty : Memory ℕ
empty = record { cache = []; alive = 604800000; timers = []; next_id = 1 }

-- What is stored at the time 100.
abbrev stored : Stored (Slots ℕ)
stored = record {
  value = (set "ROLES__KEY__" 7 0 100 empty).cache;
  time = 100;
  expire = some 604800100;
}

abbrev same_text : String → String
same_text s = s

abbrev config : Config (Slots ℕ)
config = record {
  prefix_key = "APP__";
  has_encrypt = true;
  stringify = λ d. "cache";
  parse = λ s. if str_eq s "cache" then some stored else none;
  encrypt = same_text;
  decrypt = λ s. some s;
  to_upper = same_text;
}

abbrev area : Area ℕ
area = record { memory = empty; items = [] }

reload_example :
    get_in "ROLES__KEY__" (
      init_area config 604800 app_local_cache_key 500000 (record {
        memory = empty;
        items = (set_in config 604800 app_local_cache_key "ROLES__KEY__" 7 true 100 area).items;
      }))
    ≡ some 7
reload_example =
    reload_lem config 604800 app_local_cache_key "ROLES__KEY__" 7 100 500000 area empty tt
      (omega arith) (refl, refl, refl, refl) (omega arith) (omega arith)

abbrev omit : String → Slots ℕ → Slots ℕ
omit = erase

abbrev pick : List String → Slots ℕ → Slots ℕ
pick ks [] = []
pick ks ((k, e) ∷ c) = if includes k ks then (k, e) ∷ erase k (pick ks c) else pick ks c

omit-IsOmit : IsOmit omit
omit-IsOmit k j c = elim (Bool-cases (str_eq k j)) [
  | inl t ↦
      rw t (subst (λ i. lookup i (erase k c) ≡ none) ((eq_iff k j).0 t) (lookup-erase_self k c))
  | inr t ↦ rw t (lookup-erase_ne k j c t)
]

includes-erase :
    (j k : String) (c : Slots ℕ)
    → includes j (keys_of (erase k c)) ≡ (if str_eq k j then false else includes j (keys_of c))
includes-erase j k [] = ground arith
includes-erase j k ((q, e) ∷ c) =
    ground (arith, includes-erase j k c, eq_iff q k, eq_iff q j, eq_iff k j)

AreDistinct-erase :
    (k : String) (c : Slots ℕ) → AreDistinct (keys_of c) → AreDistinct (keys_of (erase k c))
AreDistinct-erase k [] d = tt
AreDistinct-erase k ((q, e) ∷ c) (n, d) = elim (Bool-cases (str_eq q k)) [
  | inl t ↦ rw t (AreDistinct-erase k c d)
  | inr t ↦ rw t (ground (arith, includes-erase q k c), AreDistinct-erase k c d)
]

pick-AreDistinct : (ks : List String) (c : Slots ℕ) → AreDistinct (keys_of (pick ks c))
pick-AreDistinct ks [] = tt
pick-AreDistinct ks ((k, e) ∷ c) = elim (Bool-cases (includes k ks)) [
  | inl t ↦ rw t (
    ground (arith, includes-erase k k (pick ks c), eq_iff k k),
    AreDistinct-erase k (pick ks c) (pick-AreDistinct ks c),
  )
  | inr t ↦ rw t (pick-AreDistinct ks c)
]

lookup-pick :
    (ks : List String) (c : Slots ℕ) (j : String)
    → lookup j (pick ks c) ≡ (if includes j ks then lookup j c else none)
lookup-pick ks [] j = ground arith
lookup-pick ks ((k, e) ∷ c) j =
    ground (arith, lookup-pick ks c j, omit-IsOmit k j (pick ks c), eq_iff k j)

abbrev entry : ℕ → Entry ℕ
entry n = record { value = n; timer = none; time = none; alive = 0 }
