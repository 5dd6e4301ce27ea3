-- ===== src/Storage.antt =====
-- web/admin/src/utils/cache/storageCache.ts: the class `WebStorage` over a storage of the browser.
-- `stringify` and `parse` are those of JSON, `encrypt` and `decrypt` those of the cipher, which hands
-- them on to crypto-js, and `to_upper` is `toUpperCase`; a call that throws is `none`.
pub mod Expiry
pub mod Tests
use Prim.Native.String.{◌++◌ as text_append}
use mathlib.Core.Option
use kerthus.Base.{
  ℕ, ◌+◌, ◌*◌, String, Bool, true, List, [], Option, none, some, leb, ◌==◌, ◌&&◌, if◌then◌else◌,
  is_empty, lookup, put, erase,
}

-- What is stored: the value, the time of the writing, and the time of the expiry.
pub record Stored (V : Type 0) : Type 0 where
  pub value : V
  pub time : ℕ
  pub expire : Option ℕ

pub record Config (V : Type 0) : Type 0 where
  pub prefix_key : String
  pub has_encrypt : Bool
  pub stringify : Stored V → String
  pub parse : String → Option (Stored V)
  pub encrypt : String → String
  pub decrypt : String → Option String
  pub to_upper : String → String

abbrev pub Items : Type 0
Items = List (String × String)

-- What `get` answers: the value, the default, or `undefined`.
pub data Answer (V : Type 0) : Type 0 where
  returns : V → Answer V
  default undefined : Answer V

-- `isNullOrUnDef(expire) || expire >= now`
abbrev pub is_alive : Option ℕ → ℕ → Bool
is_alive none now = true
is_alive (some e) now = leb now e

-- `createStorage` throws unless this holds, from the lengths of `key` and `iv`.
can_create : Bool → ℕ → ℕ → Bool
can_create has_encrypt key_length iv_length =
    if has_encrypt then key_length == 16 && iv_length == 16 else true

module _ {V : Type 0} (config : Config V) where
  pub get_key : String → String
  get_key key = config.to_upper (text_append config.prefix_key key)

  abbrev pub encode : String → String
  encode s = if config.has_encrypt then config.encrypt s else s

  abbrev pub decode : String → Option String
  decode s = if config.has_encrypt then config.decrypt s else some s

  -- `expire` is in seconds.
  abbrev pub data_of : V → Option ℕ → ℕ → Stored V
  data_of v expire now = record {
    value = v;
    time = now;
    expire = Option.map (λ e. now + e * 1000) expire;
  }

  pub set_item : String → V → Option ℕ → ℕ → Items → Items
  set_item key v expire now items =
      put (get_key key) (encode (config.stringify (data_of v expire now))) items

  pub remove_item : String → Items → Items
  remove_item key items = erase (get_key key) items

  -- The `try`, from what is read; `none` is the exception.
  abbrev pub read : String → ℕ → Option (Stored V) → Items → Answer V × Items
  read key now none items = (default, items)
  read key now (some d) items =
      if is_alive d.expire now then (returns d.value, items) else (undefined, remove_item key items)

  abbrev pub read_item : String → ℕ → Option String → Items → Answer V × Items
  read_item key now none items = (default, items)
  read_item key now (some s) items =
      let answer = read key now (Option.bind (decode s) config.parse) items in
      if is_empty s then (default, items) else answer

  pub get_item : String → ℕ → Items → Answer V × Items
  get_item key now items = read_item key now (lookup (get_key key) items) items

  -- `storage.clear()`
  clear_items : Items → Items
  clear_items items = []
