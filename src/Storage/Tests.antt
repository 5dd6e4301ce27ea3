-- ===== src/Storage/Tests.antt =====
-- storageCache.ts: a token that is stored for an hour.
use kerthus.Base.{ℕ, String, str_eq, true, none, some, if◌then◌else◌}
use kerthus.Storage.{Stored, Config}

abbrev token : Stored ℕ
token = record { value = 7; time = 1000; expire = some 3601000 }

abbrev same_text : String → String
same_text s = s

abbrev config : Config ℕ
config = record {
  prefix_key = "APP__";
  has_encrypt = true;
  stringify = λ d. "token";
  parse = λ s. if str_eq s "token" then some token else none;
  encrypt = same_text;
  decrypt = λ s. some s;
  to_upper = same_text;
}
