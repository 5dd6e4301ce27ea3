-- ===== src/Http/Tests.antt =====
-- Requests that are sent twice, and that fail.
use kerthus.Base.{
  if◌then◌else◌, ℕ, ◌≡◌, ◌⊎◌, String, false, List, ◌≢◌, refl, eq_iff, true, ltb, [], ◌∷◌, none,
  some, arith,
}
use kerthus.Session.{World, access_token}
use kerthus.Session.Logout.{IsCleared}
use kerthus.Session.Tests.{signed_in, names, basic_names}
use kerthus.Http.ErrorLog.{ErrorLog, ErrorInfo}
use kerthus.Http.Status.{message, silent, Notice, Sent, notify, is_stale, handle_unauthorized}
use kerthus.Http.Status.Laws.{handle_unauthorized_lem}
use kerthus.Http.Response.{success, Body, Options, Failure, Outcome, transform_response_hook}
use kerthus.Http.Cancel.{Config, Pending, get_pending_url}
use kerthus.Http.Retry.{Attempt, answered, failed, End, success, Retrying, retry, request}
use kerthus.Http.Retry.Laws.{Ends, request_lem}

abbrev users : Config
users = record { method = "get"; url = "/users"; cancel_token = none }

abbrev pending : Pending
pending = record {
  pending_map = ("get&/users", 1) ∷ ("get&/roles", 2) ∷ [];
  cancelled = [];
  next_token = 3;
}

users_ne_roles : get_pending_url users ≢ "get&/roles"
unfolding get_pending_url
users_ne_roles e = ground (arith, eq_iff "get&/users" "get&/roles")

-- Two requests fail, and the third one is answered.
abbrev twice : ℕ → Attempt
twice attempt = if ltb attempt 2 then failed else answered

abbrev five : Retrying
five = record { count = 5; retry_count = none; has_headers = true }

request_example : (n : ℕ) × (e : End) × (request twice 6 0 five ≡ some (n, e)) × Ends twice 0 5 n e
request_example = request_lem twice 6 five refl (omega arith)

request-twice : request twice 6 0 five ≡ some (3, success)
unfolding request retry
request-twice = refl

abbrev sent : Sent
sent = record { with_token = true; token = "token" }

-- The answer 401 of a request with the token of the session.
abbrev expired : World ℕ ℕ × List Notice
expired = handle_unauthorized names basic_names sent "" message signed_in

handle_unauthorized_example :
    (((is_stale sent signed_in ≡ true) × (expired ≡ (signed_in, [])))
      ⊎ ((sent.token ≡ access_token signed_in)
          × IsCleared basic_names expired.0
          × (expired.0.logged_out ≡ signed_in.logged_out)
          × (expired.1
              ≡ notify message "sys.api.timeoutMessage" "global_error_message_status_401")))
    × (handle_unauthorized names basic_names sent "again" message expired.0 ≡ (expired.0, []))
handle_unauthorized_example =
    handle_unauthorized_lem names basic_names sent "" "again" message message signed_in refl

abbrev digits : ℕ → String
digits n = "500"

abbrev transforming : Options
transforming = record {
  is_return_native_response = false;
  is_transform_response = true;
  success_message_mode = silent;
  error_message_mode = message;
}

abbrev seven : Body ℕ
seven = record { code = success; value = 7; msg = "" }

abbrev handed : Outcome ℕ × World ℕ ℕ × List Notice
handed = transform_response_hook names basic_names transforming sent (some seven) signed_in

abbrev failure : Failure
failure = record {
  is_cancel = false;
  is_timeout = false;
  is_network_error = false;
  status = none;
  msg = "";
  message = "failed";
  response = none;
  sent = sent;
  error_message_mode = message;
  is_get = true;
  is_open_retry = true;
}

abbrev empty_log : ErrorLog
empty_log = record { error_log_info_list = none; error_log_list_count = 0 }

abbrev crash : ErrorInfo
crash = record {
  message = "crash";
  url = "";
  name = "";
  file = "";
  stack = "";
  detail = "";
  time = 0;
}
