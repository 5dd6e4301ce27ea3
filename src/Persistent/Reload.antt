-- ===== src/Persistent/Reload.antt =====
-- persistent.ts: what a page finds in the caches when it is loaded again.
use kerthus.Base.{
  ℕ, ◌+◌, ◌*◌, ◌<◌, ◌≤◌, ◌≡◌, refl, ap, ◌∙◌, String, Bool, true, leb, some, AreDistinct,
  if◌then◌else◌, arith,
}
use kerthus.Memory.{Slots, Memory, set, reset_cache, expiry}
use kerthus.Memory.Reset.{
  keys_of, AreDistinct-set, value_at, value_at-reset, value_of-get, lookup-set,
}
use kerthus.Storage.{Config, data_of, set_item}
use kerthus.Storage.Expiry.{IsLossless, get_item-set_item}
use kerthus.Persistent.{Area, set_in, init_area, get_in, taken}

taken_branch {ℓ} : {A : Type ℓ} (b : Bool) → b ≡ true → (x y : A) → (if b then x else y) ≡ x
taken_branch b e x y = rw e refl

module _ {V : Type 0} (config : Config (Slots V)) (timeout : ℕ) (area_key : String) where
  -- What is loaded later from what was written.
  loaded :
      (c : Slots V) (now later : ℕ) (fresh : Memory V) (a : Area V)
      → IsLossless config (data_of config c (some timeout) now)
      → later ≤ now + timeout * 1000
      → (init_area config timeout area_key later (record {
        memory = fresh;
        items = set_item config area_key c (some timeout) now a.items;
      })).memory
        ≡ reset_cache c later fresh
  unfolding init_area
  loaded c now later fresh a lossless h =
      let b : leb later (now + timeout * 1000) ≡ true = ground arith in
      ap (λ r. taken config timeout area_key r.0 later fresh)
        (get_item-set_item config area_key c (some timeout) now later a.items lossless
          ∙ taken_branch _ b _ _)

  -- A value that is set at once is there for a page that is loaded before the entry and the storage
  -- expire, whatever else was set: the page reads it back, where JSON and the cipher lose nothing of
  -- the cache, the cache has an expiry, and its keys differ from one another.
  pub reload_lem :
      (key : String) (v : V) (now later : ℕ) (a : Area V) (fresh : Memory V)
      → AreDistinct (keys_of a.memory.cache)
      → 0 < a.memory.alive
      → IsLossless config (data_of config (set key v 0 now a.memory).cache (some timeout) now)
      → later ≤ now + timeout * 1000
      → later < expiry a.memory.alive now
      → get_in key (
          init_area config timeout area_key later (record {
            memory = fresh;
            items = (set_in config timeout area_key key v true now a).items;
          }))
        ≡ some v
  unfolding set_in get_in
  reload_lem key v now later a fresh d alive lossless early lives =
      let c = (set key v 0 now a.memory).cache in
      let (e, at, is, time) = lookup-set key v 0 now a.memory alive in
      value_of-get key _
      ∙ ap (λ m. value_at key m.cache) (loaded c now later fresh a lossless early)
      ∙ value_at-reset key c later (expiry a.memory.alive now) e fresh
          (AreDistinct-set key v 0 now a.memory d) at time lives
      ∙ ap some is
