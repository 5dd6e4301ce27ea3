-- ===== src/Tabs/Open/Cached.antt =====
-- multipleTab.ts, `updateCacheTab`: the names of the components that are kept alive.
use mathlib.Core.Bool.{not}
use kerthus.Base.{
  ◌≡◌, refl, String, str_eq, Bool, Bool-cases, inl, inr, ◌||◌, ◌&&◌, List, [], ◌∷◌, any, includes,
  set_add, includes-set_add, AreDistinct, AreDistinct-set_add, arith,
}
use kerthus.Tabs.{Tab, TabState}
use kerthus.Tabs.Open.{cache_names, update_cache_tab}

module _ {P : Type 0} where
  abbrev pub is_kept : String → Tab P → Bool
  is_kept name t = not t.info.ignore_keep_alive && str_eq t.name name

  includes-cache_names :
      (name : String) (ts : List (Tab P)) (cache : List String)
      → includes name (cache_names ts cache) ≡ (includes name cache || any (is_kept name) ts)
  unfolding cache_names
  includes-cache_names name [] cache = ground arith
  includes-cache_names name (t ∷ ts) cache = elim (Bool-cases t.info.ignore_keep_alive) [
    | inl h ↦ rw (h, includes-cache_names name ts cache) refl
    | inr h ↦
        rw
          (
            h,
            includes-cache_names name ts (set_add t.name cache),
            includes-set_add name t.name cache,
          )
          (ground arith)
  ]

  AreDistinct-cache_names :
      (ts : List (Tab P)) (cache : List String)
      → AreDistinct cache
      → AreDistinct (cache_names ts cache)
  unfolding cache_names
  AreDistinct-cache_names [] cache d = d
  AreDistinct-cache_names (t ∷ ts) cache d = elim (Bool-cases t.info.ignore_keep_alive) [
    | inl h ↦ rw h (AreDistinct-cache_names ts cache d)
    | inr h ↦
        rw h
          (AreDistinct-cache_names ts (set_add t.name cache) (AreDistinct-set_add t.name cache d))
  ]

  -- A name is cached behind `updateCacheTab` exactly if it is the name of an open tab that does not
  -- ignore the cache; no name is cached twice.
  pub update_cache_tab_lem :
      (s : TabState P)
      → ((name : String)
          → includes name (update_cache_tab s).cache_tab_list ≡ any (is_kept name) s.tab_list)
        × AreDistinct (update_cache_tab s).cache_tab_list
  unfolding update_cache_tab
  update_cache_tab_lem s =
      (λ name. includes-cache_names name s.tab_list [], AreDistinct-cache_names s.tab_list [] tt)
