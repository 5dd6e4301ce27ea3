-- ===== src/Persistent.antt =====
-- web/admin/src/utils/cache/persistent.ts: the class `Persistent`, two caches of Memory that are
-- written to the storages of Storage. `omit` and `pick` are those of lodash-es.
pub mod Reload
pub mod Unload
pub mod Tests
use mathlib.Core.Option
use kerthus.Base.{
  ℕ, String, str_eq, Bool, true, false, not, ◌&&◌, List, [], ◌∷◌, Option, none, some, is_empty, put,
  if◌then◌else◌,
}
use kerthus.Memory.{Slots, Entry, Memory, get, set, remove, clear, reset_cache}
use kerthus.Storage.{Config, Items, Answer, returns, default, undefined, set_item, get_item}

-- A memory with the storage behind it.
pub record Area (V : Type 0) : Type 0 where
  pub memory : Memory V
  pub items : Items

pub record Caches (V : Type 0) : Type 0 where
  pub local : Area V
  pub session : Area V

abbrev pub app_local_cache_key : String
app_local_cache_key = "COMMON__LOCAL__KEY__"

abbrev pub app_session_cache_key : String
app_session_cache_key = "COMMON__SESSION__KEY__"

abbrev pub lock_info_key : String
lock_info_key = "LOCK__INFO__KEY__"

-- The keys that are written at once, by this window or another.
abbrev pub kept_keys : List String
kept_keys = "TOKEN__" ∷ "USER__INFO__" ∷ "SAAS_CONF_KEY__" ∷ lock_info_key ∷ []

-- `{ ...a, ...b }`
abbrev pub spread : {V : Type 0} → Slots V → Slots V → Slots V
spread a [] = a
spread a ((k, e) ∷ b) = spread (put k e a) b

-- What is written behind a page: the entries of the memory, and over them the stored ones of the keys
-- that are written at once.
unfoldable pub merged :
    {V : Type 0}
    → (String → Slots V → Slots V)
    → (List String → Slots V → Slots V)
    → Slots V
    → Answer (Slots V)
    → Slots V
merged omit pick cache (returns stored) = spread (omit lock_info_key cache) (pick kept_keys stored)
merged omit pick cache default = omit lock_info_key cache
merged omit pick cache undefined = omit lock_info_key cache

-- `timeout` is the expiry of what is stored, in seconds, and `area_key` its key.
module _ {V : Type 0} (config : Config (Slots V)) (timeout : ℕ) (area_key : String) where
  abbrev pub written : ℕ → Memory V → Items → Items
  written now m items = set_item config area_key m.cache (some timeout) now items

  abbrev pub taken : Answer (Slots V) → ℕ → Memory V → Memory V
  taken (returns cache) now m = reset_cache cache now m
  taken default now m = m
  taken undefined now m = m

  unfoldable pub init_area : ℕ → Area V → Area V
  init_area now a =
      let (answer, items) = get_item config area_key now a.items in
      record { memory = taken answer now a.memory; items = items }

  unfoldable pub set_in : String → V → Bool → ℕ → Area V → Area V
  set_in key v immediate now a =
      let m = set key v 0 now a.memory in
      record { memory = m; items = if immediate then written now m a.items else a.items }

  pub remove_in : String → Bool → ℕ → Area V → Area V
  remove_in key immediate now a =
      let m = remove key a.memory in
      record { memory = m; items = if immediate then written now m a.items else a.items }

  -- The listener of `beforeunload`, for one storage.
  pub unload_area :
      (String → Slots V → Slots V) → (List String → Slots V → Slots V) → ℕ → Area V → Area V
  unload_area omit pick now a =
      let (answer, items) = get_item config area_key now a.items in
      record a {
        items =
            set_item config area_key (merged omit pick a.memory.cache answer) (some timeout) now
              items;
      }

module _ {V : Type 0} where
  pub get_in : String → Area V → Option V
  get_in key a = Option.map (λ (e : Entry V). e.value) (get key a.memory)

  -- `clear` of the storage leaves no item.
  pub clear_in : Bool → Area V → Area V
  clear_in immediate a = record {
    memory = clear a.memory;
    items = if immediate then [] else a.items;
  }

  pub get_local : String → Caches V → Option V
  get_local key c = get_in key c.local

  abbrev pub clear_local : Bool → Caches V → Caches V
  clear_local immediate c = record c { local = clear_in immediate c.local }

  pub get_session : String → Caches V → Option V
  get_session key c = get_in key c.session

  abbrev pub clear_session : Bool → Caches V → Caches V
  clear_session immediate c = record c { session = clear_in immediate c.session }

  pub clear_all : Bool → Caches V → Caches V
  clear_all immediate c = record {
    local = clear_in immediate c.local;
    session = clear_in immediate c.session;
  }

  -- The listener of `storage`; a text that is missing is "".
  pub storage_change : String → String → String → Caches V → Caches V
  storage_change key new_value old_value c =
      if is_empty key
      then clear_all false c
      else if not (is_empty new_value) && not (is_empty old_value)
      then (if str_eq app_local_cache_key key
          then clear_local false c
          else if str_eq app_session_cache_key key
          then clear_session false c
          else c)
      else c

-- The methods of `Persistent` on the two caches.
module _ {V : Type 0} (config : Config (Slots V)) (timeout : ℕ) where
  pub set_local : String → V → Bool → ℕ → Caches V → Caches V
  set_local key v immediate now c = record c {
    local = set_in config timeout app_local_cache_key key v immediate now c.local;
  }

  pub remove_local : String → Bool → ℕ → Caches V → Caches V
  remove_local key immediate now c = record c {
    local = remove_in config timeout app_local_cache_key key immediate now c.local;
  }

  pub set_session : String → V → Bool → ℕ → Caches V → Caches V
  set_session key v immediate now c = record c {
    session = set_in config timeout app_session_cache_key key v immediate now c.session;
  }

  pub remove_session : String → Bool → ℕ → Caches V → Caches V
  remove_session key immediate now c = record c {
    session = remove_in config timeout app_session_cache_key key immediate now c.session;
  }

-- `initPersistentMemory`
pub init_persistent_memory :
    {V : Type 0} → Config (Slots V) → Config (Slots V) → ℕ → ℕ → Caches V → Caches V
init_persistent_memory local_config session_config timeout now c = record {
  local = init_area local_config timeout app_local_cache_key now c.local;
  session = init_area session_config timeout app_session_cache_key now c.session;
}
