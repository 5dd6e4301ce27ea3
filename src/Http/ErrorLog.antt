-- ===== src/Http/ErrorLog.antt =====
-- web/admin/src/store/modules/errorLog.ts: the log of the errors, and the number of those that the
-- user has not looked at.
use kerthus.Base.{
  ℕ, ◌+◌, ◌≤◌, String, Bool, true, false, List, [], ◌∷◌, Option, none, some, length, or_else, arith,
}

-- The fields of an entry that the store sets itself; "" is a field that is missing.
pub record ErrorInfo : Type 0 where
  pub message : String
  pub url : String
  pub name : String
  pub file : String
  pub stack : String
  pub detail : String
  pub time : ℕ

-- `error_log_info_list` is `none` where it is `null`.
pub record ErrorLog : Type 0 where
  pub error_log_info_list : Option (List ErrorInfo)
  pub error_log_list_count : ℕ

abbrev pub get_error_log_info_list : ErrorLog → List ErrorInfo
get_error_log_info_list s = or_else s.error_log_info_list []

-- `now` is the time at which the entry is made.
unfoldable pub add_error_log_info : ℕ → ErrorInfo → ErrorLog → ErrorLog
add_error_log_info now info s = record s {
  error_log_info_list = some (record info { time = now } ∷ or_else s.error_log_info_list []);
  error_log_list_count = s.error_log_list_count + 1;
}

pub set_error_log_list_count : ℕ → ErrorLog → ErrorLog
set_error_log_list_count count s = record s { error_log_list_count = count }

pub clear_errors : ErrorLog → ErrorLog
clear_errors s = record s { error_log_info_list = some []; error_log_list_count = 0 }

-- `error.response`: the URL of its request, its data and the request as texts.
pub record Answered : Type 0 where
  pub url : String
  pub data_text : String
  pub request_text : String

abbrev ajax_info : String → Option Answered → ErrorInfo
ajax_info message none = record {
  message = message;
  url = "";
  name = "";
  file = "";
  stack = "";
  detail = "";
  time = 0;
}
ajax_info message (some r) = record {
  message = message;
  url = r.url;
  name = "Ajax Error!";
  file = "-";
  stack = r.data_text;
  detail = r.request_text;
  time = 0;
}

unfoldable pub add_ajax_error_info :
    (use_error_handle : Bool) → ℕ → String → Option Answered → ErrorLog → ErrorLog
add_ajax_error_info false now message response s = s
add_ajax_error_info true now message response s =
    add_error_log_info now (ajax_info message response) s

-- What the console does with the log: errors of requests and others come in, the log is cleared, and
-- the count is set to 0 when the user opens the log.
pub data Step : ErrorLog → ErrorLog → Type 0 where
  added : (now : ℕ) (info : ErrorInfo) (s : ErrorLog) → Step s (add_error_log_info now info s)
  ajax :
      (handle : Bool) (now : ℕ) (message : String) (response : Option Answered) (s : ErrorLog)
      → Step s (add_ajax_error_info handle now message response s)
  cleared : (s : ErrorLog) → Step s (clear_errors s)
  opened : (s : ErrorLog) → Step s (set_error_log_list_count 0 s)

pub data Run : ErrorLog → ErrorLog → Type 0 where
  stop : (s : ErrorLog) → Run s s
  next : {s t u : ErrorLog} → Step s t → Run t u → Run s u

abbrev pub IsCounted : ErrorLog → Type 0
IsCounted s = s.error_log_list_count ≤ length (get_error_log_info_list s)

add_error_log_info-IsCounted :
    (now : ℕ) (info : ErrorInfo) (s : ErrorLog)
    → IsCounted s
    → IsCounted (add_error_log_info now info s)
unfolding add_error_log_info
add_error_log_info-IsCounted now info s h = omega arith

Step-IsCounted : {s t : ErrorLog} → Step s t → IsCounted s → IsCounted t
unfolding add_ajax_error_info clear_errors set_error_log_list_count
Step-IsCounted (added now info s) h = add_error_log_info-IsCounted now info s h
Step-IsCounted (ajax false now message response s) h = h
Step-IsCounted (ajax true now message response s) h =
    add_error_log_info-IsCounted now (ajax_info message response) s h
Step-IsCounted (cleared s) h = omega arith
Step-IsCounted (opened s) h = omega arith

-- In every run of the log, the number of the errors that the user has not looked at is at most the
-- number of the errors that the log has, if it is so at the start, as with a new log.
pub Run-IsCounted : {s t : ErrorLog} → Run s t → IsCounted s → IsCounted t
Run-IsCounted (stop s) h = h
Run-IsCounted (next e r) h = Run-IsCounted r (Step-IsCounted e h)
