-- ===== src/Http/Status.antt =====
-- checkStatus.ts and unauthorized.ts: what a failed response shows, and when it ends the session.
-- `t` is the translation of a key.
pub mod Laws
use Prim.Native.String
use kerthus.Base.{
  ℕ, String, str_eq, is_empty, or_text, Bool, true, false, not, ◌&&◌, ◌||◌, ◌==◌, List, [], ◌∷◌,
  Option, none, some, if◌then◌else◌,
}
use kerthus.Session.{World, access_token, logout}

-- `ErrorMessageMode`, where another text than the first two shows nothing.
pub data MessageMode : Type 0 where
  modal message silent : MessageMode

-- A notice with its content: an error in a modal window or a message with its key, "" where it has
-- none, or a success.
pub data Notice : Type 0 where
  in_modal : String → Notice
  in_message : (content key : String) → Notice
  success_modal success_message : String → Notice

-- The configuration of the request: whether `withToken` is not `false`, and the header `access-token`,
-- "" where it is missing.
pub record Sent : Type 0 where
  pub with_token : Bool
  pub token : String

abbrev pub notify : MessageMode → (content key : String) → List Notice
notify modal content key = in_modal content ∷ []
notify message content key = in_message content key ∷ []
notify silent content key = []

-- The text of the `switch`; "" is the branch `default`.
abbrev pub err_message : (String → String) → ℕ → String → String
err_message t status msg =
    if status == 400
    then msg
    else if status == 403
    then t "sys.api.errMsg403"
    else if status == 404
    then t "sys.api.errMsg404"
    else if status == 405
    then t "sys.api.errMsg405"
    else if status == 408
    then t "sys.api.errMsg408"
    else if status == 500
    then t "sys.api.errMsg500"
    else if status == 501
    then t "sys.api.errMsg501"
    else if status == 502
    then t "sys.api.errMsg502"
    else if status == 503
    then t "sys.api.errMsg503"
    else if status == 504
    then t "sys.api.errMsg504"
    else if status == 505
    then t "sys.api.errMsg505"
    else ""

module _ {I P : Type 0} where
  -- The request was sent with no token, or with another one than that of the session.
  abbrev pub is_stale : Sent → World I P → Bool
  is_stale sent w = is_empty sent.token || not (str_eq sent.token (access_token w))

module _ {I P : Type 0} (t : String → String) (is_basic : String → Bool) where
  abbrev pub ended : MessageMode → World I P → World I P × List Notice
  ended mode w = (
    logout is_basic false w,
    notify mode (t "sys.api.timeoutMessage") "global_error_message_status_401",
  )

  abbrev pub refuse : String → MessageMode → World I P → World I P × List Notice
  refuse msg mode w =
      (w, notify mode (or_text msg (t "sys.api.errMsg401")) "global_error_message_status_401")

  -- `handleUnauthorized`
  unfoldable pub handle_unauthorized :
      Sent → String → MessageMode → World I P → World I P × List Notice
  handle_unauthorized sent msg mode w =
      if sent.with_token
      then if is_stale sent w then (w, []) else ended mode w
      else refuse msg mode w

  -- `digits` writes a number as a text.
  module _ (digits : ℕ → String) where
    abbrev shown : ℕ → String → MessageMode → World I P → Bool × World I P × List Notice
    shown status err mode w = if is_empty err then (true, w, []) else (
      false,
      w,
      notify mode err (String.◌++◌ "global_error_message_status_" (digits status)),
    )

    abbrev refused : World I P × List Notice → Bool × World I P × List Notice
    refused (w, ns) = (false, w, ns)

    -- `checkStatus`; `none` is a status that is undefined, as without a response.
    unfoldable pub check_status :
        Sent → Option ℕ → String → MessageMode → World I P → Bool × World I P × List Notice
    check_status sent none msg mode w = (true, w, [])
    check_status sent (some status) msg mode w =
        if status == 401
        then refused (handle_unauthorized sent msg mode w)
        else shown status (err_message t status msg) mode w
