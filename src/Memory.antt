-- ===== src/Memory.antt =====
-- web/admin/src/utils/cache/memory.ts: the class `Memory`, a cache whose entries expire by timers.
-- Times are milliseconds. `now` is the clock, which does not move within an operation.
pub mod Timers
pub mod Entries
pub mod Reset
pub mod Tests
use mathlib.Core.Bool.{not}
use kerthus.Base.{
  ℕ, suc, ◌+◌, ◌*◌, ◌-◌, ◌%◌, String, str_eq, Bool, List, [], ◌∷◌, ◌++◌, Option, none, some, filter,
  ltb, ◌==◌, if◌then◌else◌, lookup, put, erase,
}

-- `Cache`; `timer` is `timeoutId`.
pub record Entry (V : Type 0) : Type 0 where
  pub value : V
  pub timer : Option ℕ
  pub time : Option ℕ
  pub alive : ℕ

-- A timer that has been set and has neither run nor been cleared: `remove(key)` runs when it is due.
pub record Timer : Type 0 where
  pub id : ℕ
  pub key : String
  pub set_at : ℕ
  pub due : ℕ

abbrev pub Slots : Type 0 → Type 0
Slots V = List (String × Entry V)

-- The object with the timers of the browser; `next_id` is the next number of a timer.
pub record Memory (V : Type 0) : Type 0 where
  pub cache : Slots V
  pub alive : ℕ
  pub timers : List Timer
  pub next_id : ℕ

pub clear_timeout : Option ℕ → List Timer → List Timer
clear_timeout none ts = ts
clear_timeout (some i) ts = filter (λ t. not (t.id == i)) ts

-- The time that an entry expires at: `expires` is a moment if it lies behind `now`, else a duration.
abbrev pub expiry : ℕ → ℕ → ℕ
expiry expires now = if ltb now expires then expires else now + expires

-- What a timer waits for a number of milliseconds, which `setTimeout` takes modulo 2 ^ 32 as a signed
-- integer of 32 bits, and a negative one as 0.
abbrev pub to_timeout : ℕ → ℕ
to_timeout n = let r = n % 4294967296 in if ltb r 2147483648 then r else 0

abbrev pub delay : ℕ → ℕ → ℕ
delay expires now = to_timeout (if ltb now expires then expires - now else expires)

module _ {V : Type 0} where
  -- The constructor, in seconds.
  new_memory : ℕ → Memory V
  new_memory alive = record { cache = []; alive = alive * 1000; timers = []; next_id = 1 }

  pub set_cache : Slots V → Memory V → Memory V
  set_cache c m = record m { cache = c }

  pub get : String → Memory V → Option (Entry V)
  get k m = lookup k m.cache

  abbrev pub timer_of : Option (Entry V) → Option ℕ
  timer_of none = none
  timer_of (some e) = e.timer

  -- The entry behind the first half of `set`.
  abbrev pub with_value : Option (Entry V) → V → ℕ → Entry V
  with_value none v expires = record { value = v; timer = none; time = none; alive = expires }
  with_value (some e) v expires = record e { value = v; timer = none }

  -- The second half: the timer, which runs after the delay.
  abbrev schedule : String → Entry V → ℕ → ℕ → Memory V → Memory V
  schedule k e expires now m = record m {
    cache = put k (record e { timer = some m.next_id; time = some (expiry expires now) }) m.cache;
    timers =
        record { id = m.next_id; key = k; set_at = now; due = now + delay expires now } ∷ m.timers;
    next_id = suc m.next_id;
  }

  abbrev pub stored : String → V → ℕ → Memory V → Memory V
  stored k v expires m = record m {
    cache = put k (with_value (get k m) v expires) m.cache;
    timers = clear_timeout (timer_of (get k m)) m.timers;
  }

  -- `expires` is 0 where the argument is missing.
  abbrev pub expires_of : ℕ → Memory V → ℕ
  expires_of expires m = if expires == 0 then m.alive else expires

  pub set : String → V → ℕ → ℕ → Memory V → Memory V
  set k v expires now m =
      let n = expires_of expires m in
      let kept = stored k v n m in
      if n == 0 then kept else schedule k (with_value (get k m) v n) n now kept

  pub remove : String → Memory V → Memory V
  remove k m = record m {
    cache = erase k m.cache;
    timers = clear_timeout (timer_of (get k m)) m.timers;
  }

  -- A pending timer runs.
  pub fire : Timer → Memory V → Memory V
  fire t m = remove t.key (record m { timers = clear_timeout (some t.id) m.timers })

  -- The loop of `clear` over the keys.
  pub clear_timers : Slots V → List Timer → List Timer
  clear_timers [] ts = ts
  clear_timers ((q, e) ∷ c) ts = clear_timers c (clear_timeout e.timer ts)

  pub clear : Memory V → Memory V
  clear m = record m { cache = []; timers = clear_timers m.cache m.timers }

  -- The loop of `resetCache` over the keys of another cache.
  abbrev pub reset_one : String → Entry V → ℕ → Memory V → Memory V
  reset_one k e now m = elim e.time [
    | none ↦ m
    | some t ↦ if ltb now t then set k e.value t now m else m
  ]

  pub reset_cache : Slots V → ℕ → Memory V → Memory V
  reset_cache [] now m = m
  reset_cache ((q, e) ∷ c) now m = reset_cache c now (reset_one q e now m)
