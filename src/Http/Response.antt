-- ===== src/Http/Response.antt =====
-- index.ts of utils/http/axios: what becomes of an answer, `transformResponseHook`, and of a failure,
-- `responseInterceptorsCatch`. `t` is the translation of a key.
pub mod Laws
use kerthus.Base.{
  ℕ, String, is_empty, or_text, Bool, true, false, not, ◌&&◌, List, [], ◌∷◌, Option, none, some,
  if◌then◌else◌,
}
use kerthus.Session.{World}
use kerthus.Http.ErrorLog.{ErrorLog, Answered, add_ajax_error_info}
use kerthus.Http.Status.{
  MessageMode, modal, message, silent, Notice, success_modal, success_message, Sent, notify,
  handle_unauthorized, check_status,
}

-- `code` of an answer: 0, 401, or any other value.
pub data Code : Type 0 where
  success timeout other : Code

-- `res.data`; a message that is missing or empty is "".
pub record Body (D : Type 0) : Type 0 where
  pub code : Code
  pub value : D
  pub msg : String

pub record Options : Type 0 where
  pub is_return_native_response : Bool
  pub is_transform_response : Bool
  pub success_message_mode : MessageMode
  pub error_message_mode : MessageMode

-- The result of the hook: the response, `res.data`, the data of the body, or an exception.
pub data Outcome (D : Type 0) : Type 0 where
  native : Outcome D
  body : Option (Body D) → Outcome D
  result : D → Outcome D
  thrown : String → Outcome D

-- A failure; `status` is `none` without a response, and `msg` is `response?.data?.msg`.
pub record Failure : Type 0 where
  pub is_cancel : Bool
  pub is_timeout : Bool
  pub is_network_error : Bool
  pub status : Option ℕ
  pub msg : String
  pub message : String
  pub response : Option Answered
  pub sent : Sent
  pub error_message_mode : MessageMode
  pub is_get : Bool
  pub is_open_retry : Bool

abbrev pub notify_success : MessageMode → String → List Notice
notify_success modal content = success_modal content ∷ []
notify_success message content = success_message content ∷ []
notify_success silent content = []

module _ {I P D : Type 0} (t : String → String) (is_basic : String → Bool) where
  abbrev by_code : Options → Sent → Code → Body D → World I P → Outcome D × World I P × List Notice
  by_code o sent success b w = (
    result b.value,
    w,
    notify_success o.success_message_mode (or_text b.msg (t "sys.api.operationSuccess")),
  )
  by_code o sent timeout b w =
      let r = handle_unauthorized t is_basic sent b.msg o.error_message_mode w in
      (thrown (or_text b.msg (t "sys.api.errMsg401")), r.0, r.1)
  by_code o sent other b w = (
    thrown (or_text b.msg (t "sys.api.apiRequestFailed")),
    w,
    notify o.error_message_mode b.msg "",
  )

  abbrev transformed :
      Options → Sent → Option (Body D) → World I P → Outcome D × World I P × List Notice
  transformed o sent none w = (thrown (t "sys.api.apiRequestFailed"), w, [])
  transformed o sent (some b) w = by_code o sent b.code b w

  unfoldable pub transform_response_hook :
      Options → Sent → Option (Body D) → World I P → Outcome D × World I P × List Notice
  transform_response_hook o sent b w =
      if o.is_return_native_response
      then (native, w, [])
      else if not o.is_transform_response
      then (body b, w, [])
      else transformed o sent b w

-- `errMessage` at the end of the `try`.
abbrev pub connection_message : (String → String) → Failure → String
connection_message t f =
    if f.is_network_error
    then t "sys.api.networkExceptionMsg"
    else if f.is_timeout
    then t "sys.api.apiTimeoutMessage"
    else ""

-- Behind a failure: the log, the session, the notices, and whether the request is sent again. The
-- failure is passed on in any case.
pub record Caught (I P : Type 0) : Type 0 where
  pub log : ErrorLog
  pub world : World I P
  pub notices : List Notice
  pub is_retried : Bool

module _ {I P : Type 0} (t : String → String) (is_basic : String → Bool) (digits : ℕ → String) where
  abbrev checked : Failure → ErrorLog → Bool × World I P × List Notice → Caught I P
  checked f log r = record {
    log = log;
    world = r.1;
    notices = r.2;
    is_retried = r.0 && (f.is_get && f.is_open_retry);
  }

  abbrev only_notify : ErrorLog → World I P → List Notice → Caught I P
  only_notify log w ns = record { log = log; world = w; notices = ns; is_retried = false }

  unfoldable pub response_interceptors_catch :
      (use_error_handle : Bool) → ℕ → Failure → ErrorLog → World I P → Caught I P
  response_interceptors_catch use_error_handle now f s w =
      let log = add_ajax_error_info use_error_handle now f.message f.response s in
      if f.is_cancel
      then only_notify log w []
      else if is_empty (connection_message t f)
      then checked f log
          (check_status t is_basic digits f.sent f.status f.msg f.error_message_mode w)
      else only_notify log w (notify f.error_message_mode (connection_message t f) "")
