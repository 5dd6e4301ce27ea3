-- ===== src/Tabs/Open.antt =====
-- multipleTab.ts, `updateCacheTab` and `addTab`.
pub mod Keys
pub mod Cached
pub mod Limit
use mathlib.Core.Bool.{not}
use kerthus.Base.{
  ℕ, zero, ◌≤◌, String, str_eq, Bool, true, false, ◌&&◌, ◌||◌, List, [], ◌∷◌, ◌++◌, Option, none,
  some, length, set, erase_idx, get_elem?, filter, find_index, is_some, or_text, is_empty, includes,
  set_add, leb, ltb, if◌then◌else◌,
}
use kerthus.Tabs.{Meta, Tab, TabState, tab_key}

module _ {P : Type 0} where
  -- The loop of `updateCacheTab`.
  pub cache_names : List (Tab P) → List String → List String
  cache_names [] cache = cache
  cache_names (t ∷ ts) cache =
      cache_names ts (if t.info.ignore_keep_alive then cache else set_add t.name cache)

  unfoldable pub update_cache_tab : TabState P → TabState P
  update_cache_tab s = record s { cache_tab_list = cache_names s.tab_list [] }

  -- The routes that get no tab: the error page, the login page, and the unnamed and special routes.
  abbrev pub is_excluded : Tab P → Bool
  is_excluded r =
      str_eq r.path "/exception"
      || (str_eq r.path "/login"
          || (is_empty r.name || includes r.name ("RedirectTo" ∷ "PageNotFound" ∷ [])))

  abbrev pub same_key : Tab P → Tab P → Bool
  same_key r t = str_eq (tab_key t) (tab_key r)

  abbrev or_params : Option P → Option P → Option P
  or_params (some p) q = some p
  or_params none q = q

  -- The update of a tab that is open, from the route that is visited again.
  abbrev pub refreshed : Tab P → Tab P → Tab P
  refreshed r t = record t {
    params = or_params r.params t.params;
    query = or_params r.query t.query;
    full_path = or_text r.full_path t.full_path;
  }

  -- `e.meta?.realPath ?? '' === realPath`, which the language reads as `a ?? ('' === realPath)`.
  abbrev pub counts : String → Tab P → Bool
  counts real_path t = elim t.info.real_path [
    | some q ↦ if is_empty q then false else true
    | none ↦ str_eq "" real_path
  ]

  -- `item.meta.realPath === realPath`
  abbrev pub has_real_path : String → Tab P → Bool
  has_real_path real_path t = elim t.info.real_path [ some q ↦ str_eq q real_path | none ↦ false ]

  abbrev pub real_path_of : Tab P → String
  real_path_of r = elim r.info.real_path [ some q ↦ q | none ↦ "" ]

  -- `this.tabList.splice(index, 1)` where the index is not -1.
  abbrev pub close_at : Option ℕ → List (Tab P) → List (Tab P)
  close_at none ts = ts
  close_at (some i) ts = erase_idx ts i

  -- The limit on the tabs of a dynamic route: the first one of the same route is closed.
  pub make_room : Tab P → List (Tab P) → List (Tab P)
  make_room r ts =
      if ltb 0 r.info.dynamic_level
        && leb r.info.dynamic_level (length (filter (counts (real_path_of r)) ts))
      then close_at (find_index (has_real_path (real_path_of r)) ts) ts
      else ts

  -- The tab at the index where a tab with the route's key was found.
  abbrev pub refresh_at : Tab P → List (Tab P) → ℕ → List (Tab P)
  refresh_at r ts i = elim (get_elem? ts i) [ none ↦ ts | some t ↦ set ts i (refreshed r t) ]

  pub visit : Tab P → List (Tab P) → List (Tab P)
  visit r ts = elim (find_index (same_key r) ts) [
    | some i ↦ refresh_at r ts i
    | none ↦ make_room r ts ++ r ∷ []
  ]

  -- `cacheTab` is `projectSetting.multiTabsSetting.cache`.
  pub add_tab : Bool → Tab P → TabState P → TabState P
  add_tab cache_tab r s =
      if is_excluded r
      then s
      else let s' = update_cache_tab (record s { tab_list = visit r s.tab_list }) in
        if cache_tab then record s' { saved = some s'.tab_list } else s'
