-- ===== src/Http/Retry/Laws.antt =====
-- axiosRetry.ts: a request with retries ends, and how.
use kerthus.Base.{
  ℕ, zero, suc, ◌+◌, ◌≤◌, ◌<◌, ◌≡◌, refl, sym, ap, subst, true, false, Option, none, some, or_else,
  arith, leb,
}
use kerthus.Http.Retry.{
  Retrying, Attempt, answered, unretried, no_response, failed, rejects, sends, End, success,
  rejected, thrown, retry, one_more, behind, request,
}

-- So many requests fail with a response, one behind the other.
abbrev pub AllFail : (ℕ → Attempt) → ℕ → ℕ → Type 0
AllFail outcome attempt zero = Unit
AllFail outcome attempt (suc k) = (outcome attempt ≡ failed) × AllFail outcome (suc attempt) k

-- The last request, of which `k` retries lie before it and `left` are allowed.
abbrev pub IsEnd : Attempt → ℕ → ℕ → End → Type 0
IsEnd answered k left e = e ≡ success
IsEnd unretried k left e = e ≡ rejected
IsEnd no_response k left e = e ≡ thrown
IsEnd failed k left e = (k ≡ left) × (e ≡ rejected)

-- All requests but the last fail with a response, and there are no more than the retries that are left.
abbrev pub Ends : (ℕ → Attempt) → ℕ → ℕ → ℕ → End → Type 0
Ends outcome attempt left n e =
    (k : ℕ) × (n ≡ suc k)
    × (k ≤ left)
    × AllFail outcome attempt k
    × IsEnd (outcome (attempt + k)) k left e

abbrev next_config : Retrying → Retrying
next_config c = record c { retry_count = some (or_else c.retry_count 0 + 1); has_headers = false }

retry_open :
    (c : Retrying) (left : ℕ)
    → or_else c.retry_count 0 + suc left ≡ c.count
    → retry true c ≡ sends (next_config c)
unfolding retry
retry_open c left e =
    let f : leb c.count (or_else c.retry_count 0) ≡ false = ground arith in rw f refl

retry_used_up : (c : Retrying) → or_else c.retry_count 0 + 0 ≡ c.count → retry true c ≡ rejects
unfolding retry
retry_used_up c e = let f : leb c.count (or_else c.retry_count 0) ≡ true = ground arith in rw f refl

first_end :
    (outcome : ℕ → Attempt) (attempt left : ℕ) (o : Attempt) (e : End)
    → outcome attempt ≡ o
    → IsEnd o 0 left e
    → Ends outcome attempt left 1 e
first_end outcome attempt left o e q h =
    let at : attempt + 0 ≡ attempt = omega arith in
    (
      0,
      refl,
      omega arith,
      tt,
      subst (λ a. IsEnd (outcome a) 0 left e) (sym at) (subst (λ x. IsEnd x 0 left e) (sym q) h),
    )

IsEnd-suc : (o : Attempt) (k left : ℕ) (e : End) → IsEnd o k left e → IsEnd o (suc k) (suc left) e
IsEnd-suc answered k left e h = h
IsEnd-suc unretried k left e h = h
IsEnd-suc no_response k left e h = h
IsEnd-suc failed k left e (h, r) = (ap suc h, r)

next_end :
    (outcome : ℕ → Attempt) (attempt left n : ℕ) (e : End)
    → outcome attempt ≡ failed
    → Ends outcome (suc attempt) left n e
    → Ends outcome attempt (suc left) (suc n) e
next_end outcome attempt left n e f (k, q, b, all, last) =
    let at : suc attempt + k ≡ attempt + suc k = omega arith in
    (
      suc k,
      ap suc q,
      omega arith,
      (f, all),
      subst (λ a. IsEnd (outcome a) (suc k) (suc left) e) at
          (IsEnd-suc (outcome (suc attempt + k)) k left e last),
    )

Attempt-cases :
    (P : Attempt → Type 0) (o : Attempt)
    → (o ≡ answered → P o)
    → (o ≡ unretried → P o)
    → (o ≡ no_response → P o)
    → (o ≡ failed → P o)
    → P o
Attempt-cases P answered a u n f = a refl
Attempt-cases P unretried a u n f = u refl
Attempt-cases P no_response a u n f = n refl
Attempt-cases P failed a u n f = f refl

-- The requests end as `Ends` says.
abbrev EndsAs : (ℕ → Attempt) → ℕ → ℕ → Option (ℕ × End) → Type 0
EndsAs outcome attempt left r =
    (n : ℕ) × (e : End) × (r ≡ some (n, e)) × Ends outcome attempt left n e

one_end :
    (outcome : ℕ → Attempt) (attempt left : ℕ) (o : Attempt) (e : End)
    → outcome attempt ≡ o
    → IsEnd o 0 left e
    → EndsAs outcome attempt left (some (1, e))
one_end outcome attempt left o e q h = (1, e, refl, first_end outcome attempt left o e q h)

more_ends :
    (outcome : ℕ → Attempt) (attempt left : ℕ) (r : Option (ℕ × End))
    → outcome attempt ≡ failed
    → EndsAs outcome (suc attempt) left r
    → EndsAs outcome attempt (suc left) (one_more r)
more_ends outcome attempt left r f (n, e, q, h) =
    (suc n, e, ap one_more q, next_end outcome attempt left n e f h)

-- A failure with a response, from the requests behind it.
tried :
    (outcome : ℕ → Attempt) (fuel attempt left : ℕ) (c : Retrying)
    → outcome attempt ≡ failed
    → or_else c.retry_count 0 + left ≡ c.count
    → left < suc fuel
    → ((l : ℕ)
        → or_else (next_config c).retry_count 0 + l ≡ c.count
        → l < fuel
        → EndsAs outcome (suc attempt) l (request outcome fuel (suc attempt) (next_config c)))
    → EndsAs outcome attempt left (behind (request outcome fuel (suc attempt)) (retry true c))
tried outcome fuel attempt zero c q e h rest =
    rw (retry_used_up c e) (one_end outcome attempt 0 failed rejected q (refl, refl))
tried outcome fuel attempt (suc left) c q e h rest = rw (retry_open c left e) (
    more_ends outcome attempt left (request outcome fuel (suc attempt) (next_config c)) q
      (rest left (omega arith) (omega arith)))

request-retries :
    (outcome : ℕ → Attempt) (fuel attempt left : ℕ) (c : Retrying)
    → or_else c.retry_count 0 + left ≡ c.count
    → left < fuel
    → EndsAs outcome attempt left (request outcome fuel attempt c)
unfolding request retry
request-retries outcome zero attempt left c e h = absurd (omega arith)
request-retries outcome (suc fuel) attempt left c e h =
    Attempt-cases (λ o. EndsAs outcome attempt left (request outcome (suc fuel) attempt c))
      (outcome attempt)
      (λ q. rw (request, q) (one_end outcome attempt left answered success q refl))
      (λ q. rw (request, q) (one_end outcome attempt left unretried rejected q refl))
      (λ q. rw (request, q, retry) (one_end outcome attempt left no_response thrown q refl))
      (λ q.
        rw (request, q)
          (tried outcome fuel attempt left c q e h
            (λ l e h. request-retries outcome fuel (suc attempt) l (next_config c) e h)))

-- A request with retries ends, behind at most `count` requests more. All of them but the last one fail
-- with a response and are retried; the last one is answered, or fails in a way that is not retried,
-- or has no response, where `retry` throws, or uses up the retries, and then `count` were sent. The
-- fuel is greater than `count`.
pub request_lem :
    (outcome : ℕ → Attempt) (fuel : ℕ) (c : Retrying)
    → c.retry_count ≡ none
    → c.count < fuel
    → (n : ℕ) × (e : End) × (request outcome fuel 0 c ≡ some (n, e)) × Ends outcome 0 c.count n e
request_lem outcome fuel c e h = request-retries outcome fuel 0 c.count c (ground arith) h
