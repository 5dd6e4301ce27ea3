-- ===== src/Storage/Expiry.antt =====
-- storageCache.ts: what is read behind a write, until the expiry and later.
use mathlib.Core.Option
use kerthus.Base.{
  ℕ, ◌+◌, ◌*◌, ◌≡◌, refl, ap, ◌∙◌, String, Bool, true, false, Option, none, some, leb,
  if◌then◌else◌, is_empty, lookup-put_self,
}
use kerthus.Storage.{
  Stored, Config, Items, returns, default, undefined, get_key, encode, decode, data_of, set_item,
  remove_item, read, read_item, get_item,
}

-- What is written of a value, with the expiry in milliseconds.
abbrev pub entry : {V : Type 0} → V → Option ℕ → ℕ → Stored V
entry v none start = record { value = v; time = start; expire = none }
entry v (some seconds) start = record {
  value = v;
  time = start;
  expire = some (start + seconds * 1000);
}

-- Whether `now` is no later than the expiry.
abbrev pub is_in_time : Option ℕ → ℕ → ℕ → Bool
is_in_time none start now = true
is_in_time (some seconds) start now = leb now (start + seconds * 1000)

-- The cipher and JSON give back what they took of the data, and no text that they write is empty.
abbrev pub IsLossless : {V : Type 0} → Config V → Stored V → Type 0
IsLossless c d =
    (c.parse (c.stringify d) ≡ some d)
    × (c.decrypt (c.encrypt (c.stringify d)) ≡ some (c.stringify d))
    × (is_empty (c.stringify d) ≡ false)
    × (is_empty (c.encrypt (c.stringify d)) ≡ false)

either {ℓ} : {A : Type ℓ} (b : Bool) → b ≡ false → (x y : A) → (if b then x else y) ≡ y
either b e x y = rw e refl

module _ {V : Type 0} (config : Config V) where
  coded :
      (b : Bool) (s : String)
      → config.decrypt (config.encrypt s) ≡ some s
      → (if b
          then config.decrypt (if b then config.encrypt s else s)
          else some (if b then config.encrypt s else s))
        ≡ some s
  coded true s e = e
  coded false s e = refl

  not_empty :
      (b : Bool) (s : String)
      → is_empty s ≡ false
      → is_empty (config.encrypt s) ≡ false
      → is_empty (if b then config.encrypt s else s) ≡ false
  not_empty true s e f = f
  not_empty false s e f = e

  read_item_lem :
      (key : String) (now : ℕ) (d : Stored V) (items : Items)
      → IsLossless config d
      → read_item config key now (some (encode config (config.stringify d))) items
        ≡ read config key now (some d) items
  unfolding Option.bind
  read_item_lem key now d items (p, c, n, m) =
      let e : Option.bind (decode config (encode config (config.stringify d))) config.parse
          ≡ some d =
        ap (λ o. Option.bind o config.parse) (coded config.has_encrypt (config.stringify d) c)
        ∙ p in
      either (is_empty (encode config (config.stringify d)))
        (not_empty config.has_encrypt (config.stringify d) n m) (default, items)
        (read config key now
          (Option.bind (decode config (encode config (config.stringify d))) config.parse) items)
      ∙ ap (λ o. read config key now o items) e

  pub get_item-set_item :
      (key : String) (v : V) (expire : Option ℕ) (start now : ℕ) (items : Items)
      → IsLossless config (entry v expire start)
      → get_item config key now (set_item config key v expire start items) ≡ (
          if is_in_time expire start now
          then (returns v, set_item config key v expire start items)
          else (undefined, remove_item config key (set_item config key v expire start items)))
  unfolding get_item set_item
  get_item-set_item key v none start now items lossless =
      ap (λ o. read_item config key now o (set_item config key v none start items))
        (lookup-put_self (get_key config key)
          (encode config (config.stringify (data_of config v none start))) items)
      ∙ read_item_lem key now (data_of config v none start) (set_item config key v none start items)
          lossless
  get_item-set_item key v (some e) start now items lossless =
      ap (λ o. read_item config key now o (set_item config key v (some e) start items))
        (lookup-put_self (get_key config key)
          (encode config (config.stringify (data_of config v (some e) start))) items)
      ∙ read_item_lem key now (data_of config v (some e) start)
          (set_item config key v (some e) start items) lossless
