-- ===== src/Tabs/Bulk/Others.antt =====
-- multipleTab.ts, `closeOtherTabs`: which tabs it leaves, with and without queries in the paths.
use mathlib.Core.Bool.{not}
use kerthus.Base.{
  ◌≡◌, refl, sym, ap, subst, ◌∙◌, String, str_eq, eq_iff, str_eq_refl, Bool, false, ◌||◌, List, [],
  ◌∷◌, ◌++◌, none, some, filter, find, any, All, includes, AreDistinct, arith,
}
use kerthus.Tabs.{Tab, Nav, World}
use kerthus.Tabs.Open.{update_cache_tab}
use kerthus.Tabs.Close.Laws.{full_paths}
use kerthus.Tabs.Bulk.{bulk_close_tabs, other_paths, close_other_tabs}
use kerthus.Tabs.Bulk.Laws.{without, without-skip, without_none}

module _ {P : Type 0} where
  abbrev has_path : String → Tab P → Bool
  has_path s t = str_eq t.path s

  -- The path of the tab is its full path: it has neither query nor hash.
  abbrev IsPlain : Tab P → Type 0
  IsPlain t = t.path ≡ t.full_path

  abbrev pub stays : Tab P → Tab P → Bool
  stays route t = t.info.affix || str_eq t.full_path route.full_path

  includes-filter :
      (p : Tab P → Bool) (s : String) (ts : List (Tab P))
      → includes s (full_paths ts) ≡ false
      → includes s (full_paths (filter p ts)) ≡ false
  includes-filter p s [] h = refl
  includes-filter p s (t ∷ ts) h = ground (arith, includes-filter p s ts)

  without-filter :
      (p : Tab P → Bool) (ts : List (Tab P))
      → AreDistinct (full_paths ts)
      → without (full_paths (filter (λ t. not (p t)) ts)) ts ≡ filter p ts
  without-filter p [] d = refl
  without-filter p (t ∷ ts) d = ground (
    arith,
    without-filter p ts,
    without-skip t.full_path (full_paths (filter (λ u. not (p u)) ts)) ts,
    includes-filter (λ u. not (p u)) t.full_path ts,
    str_eq_refl t.full_path,
  )

  includes-middle :
      (s : String) (xs : List (Tab P)) (t : Tab P) (ts : List (Tab P))
      → includes s (full_paths (xs ++ t ∷ ts)) ≡ false
      → str_eq t.full_path s ≡ false
  includes-middle s [] t ts h = ground arith
  includes-middle s (x ∷ xs) t ts h = includes-middle s xs t ts (ground arith)

  -- A plain tab is found by its full path.
  find_itself :
      (xs : List (Tab P)) (t : Tab P) (ts : List (Tab P))
      → All IsPlain (xs ++ t ∷ ts)
      → AreDistinct (full_paths (xs ++ t ∷ ts))
      → find (has_path t.full_path) (xs ++ t ∷ ts) ≡ some t
  find_itself [] t ts h d = rw (h.0, str_eq_refl t.full_path) refl
  find_itself (x ∷ xs) t ts h d = ground (
    arith,
    find_itself xs t ts h.1,
    includes-middle x.full_path xs t ts,
    eq_iff x.full_path t.full_path,
    eq_iff t.full_path x.full_path,
    h.0,
  )

  append_one :
      (xs : List (Tab P)) (t : Tab P) (ts : List (Tab P)) → xs ++ t ∷ ts ≡ (xs ++ t ∷ []) ++ ts
  append_one [] t ts = refl
  append_one (x ∷ xs) t ts = ap (x ∷◌) (append_one xs t ts)

  other_paths_lem :
      (route : Tab P) (all xs ts : List (Tab P))
      → all ≡ xs ++ ts
      → All IsPlain all
      → AreDistinct (full_paths all)
      → other_paths route all (full_paths ts) ≡ full_paths (filter (λ t. not (stays route t)) ts)
  other_paths_lem route all xs [] e h d = refl
  other_paths_lem route all xs (t ∷ ts) e h d =
      let ih = other_paths_lem route all (xs ++ t ∷ []) ts (e ∙ append_one xs t ts) h d in
      let found : find (has_path t.full_path) all ≡ some t =
        subst (λ l. find (has_path t.full_path) l ≡ some t) (sym e)
          (find_itself xs t ts (subst (λ l. All IsPlain l) e h)
            (subst (λ l. AreDistinct (full_paths l)) e d)) in
      rw (found, ih) (ground arith)

  find-none : (p : Tab P → Bool) (ts : List (Tab P)) → any p ts ≡ false → find p ts ≡ none
  find-none p [] h = refl
  find-none p (t ∷ ts) h = ground (arith, find-none p ts)

  -- The path is the full path of a tab and the path of none.
  abbrev IsNoPath : List (Tab P) → String → Type 0
  IsNoPath ts s = any (has_path s) ts ≡ false

  other_paths_none :
      (route : Tab P) (all : List (Tab P)) (paths : List String)
      → All (IsNoPath all) paths
      → other_paths route all paths ≡ []
  other_paths_none route all [] h = refl
  other_paths_none route all (p ∷ ps) h =
      rw (find-none (has_path p) all h.0, other_paths_none route all ps h.1) (ground arith)

module _ {P : Type 0} (home : String) (resolve : Nav P → Tab P) where
  -- Where the paths of the tabs are their full paths, and differ from one another, `closeOtherTabs`
  -- leaves the tab of the route and the affixed ones, in their order, and computes the cached names
  -- again.
  pub close_other_tabs_lem :
      (route : Tab P) (w : World P)
      → All IsPlain w.store.tab_list
      → AreDistinct (full_paths w.store.tab_list)
      → (close_other_tabs home resolve route w).store
        ≡ update_cache_tab (record w.store { tab_list = filter (stays route) w.store.tab_list })
  unfolding close_other_tabs bulk_close_tabs
  close_other_tabs_lem route w h d =
      ap (λ ts. update_cache_tab (record w.store { tab_list = ts }))
        (ap (λ ps. without ps w.store.tab_list)
            (other_paths_lem route w.store.tab_list [] w.store.tab_list refl h d)
          ∙ without-filter (stays route) w.store.tab_list d)

  -- Where no full path of a tab is the path of a tab, as when all of them have a query,
  -- `closeOtherTabs` closes nothing, because it looks for a path among the full paths.
  pub close_other_tabs_keeps :
      (route : Tab P) (w : World P)
      → All (IsNoPath w.store.tab_list) (full_paths w.store.tab_list)
      → (close_other_tabs home resolve route w).store.tab_list ≡ w.store.tab_list
  unfolding close_other_tabs bulk_close_tabs update_cache_tab
  close_other_tabs_keeps route w h =
      rw (other_paths_none route w.store.tab_list (full_paths w.store.tab_list) h)
        (without_none w.store.tab_list)
