-- ===== src/Http/Retry.antt =====
-- axiosRetry.ts, and its call in the interceptor of the failed responses of index.ts.
pub mod Laws
use kerthus.Base.{
  ℕ, zero, suc, ◌+◌, ◌≤◌, ◌<◌, ◌≡◌, refl, sym, ap, subst, Bool, true, false, Option, none, some,
  or_else, arith, leb, if◌then◌else◌,
}

-- `config`: the number of the retries that are allowed, `__retryCount`, and whether it has headers.
pub record Retrying : Type 0 where
  pub count : ℕ
  pub retry_count : Option ℕ
  pub has_headers : Bool

-- How a request goes: it is answered, or fails and is not handed to `retry` (it was canceled, the
-- connection failed, `checkStatus` refuses the status, or the request is no GET or has no open
-- retries), or is handed to it without a response or with one.
pub data Attempt : Type 0 where
  answered unretried no_response failed : Attempt

-- `retry`: the exception where the error has no response, the rejection of the error, or the
-- configuration that is sent behind the delay.
pub data Retried : Type 0 where
  throws rejects : Retried
  sends : Retrying → Retried

-- How the last request ended: with an answer, with the error rejected, or with the exception.
pub data End : Type 0 where
  success rejected thrown : End

unfoldable pub retry : (has_response : Bool) → Retrying → Retried
retry has_response c =
    if has_response
    then if leb c.count (or_else c.retry_count 0)
      then rejects
      else sends
          (record c { retry_count = some (or_else c.retry_count 0 + 1); has_headers = false })
    else throws

-- One request more.
abbrev pub one_more : Option (ℕ × End) → Option (ℕ × End)
one_more none = none
one_more (some (n, e)) = some (suc n, e)

-- What follows on a failure, from the requests with the new configuration.
abbrev pub behind : (Retrying → Option (ℕ × End)) → Retried → Option (ℕ × End)
behind send throws = some (1, thrown)
behind send rejects = some (1, rejected)
behind send (sends c) = one_more (send c)

-- The number of the requests that a request leads to, itself among them, and how the last one ends.
-- `outcome` says how each of them goes; `none` means that the fuel ran out.
unfoldable pub request : (ℕ → Attempt) → ℕ → ℕ → Retrying → Option (ℕ × End)
request outcome zero attempt c = none
request outcome (suc fuel) attempt c = elim (outcome attempt) [
  | answered ↦ some (1, success)
  | unretried ↦ some (1, rejected)
  | no_response ↦ behind (request outcome fuel (suc attempt)) (retry false c)
  | failed ↦ behind (request outcome fuel (suc attempt)) (retry true c)
]
