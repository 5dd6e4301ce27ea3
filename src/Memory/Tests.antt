-- ===== src/Memory/Tests.antt =====
-- memory.ts on a cache of numbers.
use kerthus.Base.{ℕ, ◌≡◌, refl, ◌≢◌, eq_iff, String, [], arith}
use kerthus.Memory.{delay, Memory, set, remove}
use kerthus.Memory.Timers.{HasOwners, Run, stop, next, sets, removes, Run-HasOwners}

abbrev empty : Memory ℕ
empty = record { cache = []; alive = 7000; timers = []; next_id = 1 }

abbrev one : Memory ℕ
one = set "token" 5 0 100 empty

run : Run empty (remove "user" one)
run = next (sets "token" 5 0 100 empty) (next (removes "user" one) (stop _))

Run-HasOwners_example : HasOwners (remove "user" one)
Run-HasOwners_example = Run-HasOwners run tt

token_ne_user : ◌≢◌ {A = String} "token" "user"
token_ne_user e = ground (arith, eq_iff "token" "user")

-- A duration of 2 ^ 31 milliseconds is over at once, and one of 2 ^ 32 and 5 behind five.
overflow : delay 2147483648 9000000000 ≡ 0
overflow = refl

wrapped : delay 4294967301 9000000000 ≡ 5
wrapped = refl
