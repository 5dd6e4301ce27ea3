-- ===== src/Tabs/Bulk.antt =====
-- multipleTab.ts, the operations on many tabs: `bulkCloseTabs`, `closeLeftTabs`, `closeRightTabs`,
-- `closeOtherTabs`, `closeAllTab`, `goToPage`, `handleGotoPage`, `clearCacheTabs` and `resetState`.
-- A call of the router is followed by the time that the next operation starts.
pub mod Laws
pub mod Others
use mathlib.Core.Bool.{not}
use kerthus.Base.{
  ℕ, zero, suc, ◌+◌, ◌-◌, String, str_eq, Bool, List, [], ◌∷◌, Option, none, some, map, length,
  get_elem?, take, drop, filter, find, find_index, ltb, if◌then◌else◌, includes, is_empty,
}
use kerthus.Tabs.{Tab, TabState, Nav, go_path, World, tab_key}
use kerthus.Tabs.Open.{update_cache_tab}
use kerthus.Tabs.Close.{replace}

module _ {P : Type 0} where
  unfoldable pub bulk_close_tabs : List String → TabState P → TabState P
  bulk_close_tabs paths s = record s {
    tab_list = filter (λ t. not (includes t.full_path paths)) s.tab_list;
  }

  unfoldable pub clear_cache_tabs : TabState P → TabState P
  clear_cache_tabs s = record s { cache_tab_list = [] }

  unfoldable pub reset_state : TabState P → TabState P
  reset_state s = clear_cache_tabs (record s { tab_list = [] })

  -- The loop over the left or the right tabs.
  abbrev pub closable_paths : List (Tab P) → List String
  closable_paths [] = []
  closable_paths (t ∷ ts) =
      if t.info.affix then closable_paths ts else t.full_path ∷ closable_paths ts

  unfoldable pub close_left : Option ℕ → TabState P → TabState P
  close_left none s = s
  close_left (some zero) s = s
  close_left (some (suc i)) s = bulk_close_tabs (closable_paths (take (suc i) s.tab_list)) s

  unfoldable pub close_right : Option ℕ → TabState P → TabState P
  close_right none s = s
  close_right (some i) s =
      if ltb (i + 1) (length s.tab_list)
      then bulk_close_tabs (closable_paths (drop (i + 1) s.tab_list)) s
      else s

  -- The loop of `closeOtherTabs` over the full paths of the tabs `all`.
  abbrev other_path : Option (Tab P) → List String → List String
  other_path none rest = rest
  other_path (some t) rest = if t.info.affix then rest else t.full_path ∷ rest

  abbrev pub other_paths : Tab P → List (Tab P) → List String → List String
  other_paths route all [] = []
  other_paths route all (path ∷ paths) =
      let rest = other_paths route all paths in
      if str_eq path route.full_path
      then rest
      else other_path (find (λ t. str_eq t.path path) all) rest

  -- The full path of the last tab, or its path, or the home page.
  abbrev last_page : String → List (Tab P) → String
  last_page home ts = elim (get_elem? ts (length ts - 1)) [
    | none ↦ home
    | some t ↦ if is_empty (tab_key t) then home else tab_key t
  ]

module _ {P : Type 0} (home : String) (resolve : Nav P → Tab P) where
  -- `handleGotoPage`
  abbrev handle_goto_page : World P → World P
  handle_goto_page w = replace home resolve (go_path w.current.path) w

  unfoldable pub go_to_page : World P → World P
  go_to_page w =
      let to_path = last_page home w.store.tab_list in
      if str_eq w.current.path to_path then w else replace home resolve (go_path to_path) w

  unfoldable pub close_left_tabs : Tab P → World P → World P
  close_left_tabs route w =
      let index = find_index (λ t. str_eq t.path route.path) w.store.tab_list in
      handle_goto_page (record w { store = update_cache_tab (close_left index w.store) })

  unfoldable pub close_right_tabs : Tab P → World P → World P
  close_right_tabs route w =
      let index = find_index (λ t. str_eq t.full_path route.full_path) w.store.tab_list in
      handle_goto_page (record w { store = update_cache_tab (close_right index w.store) })

  unfoldable pub close_other_tabs : Tab P → World P → World P
  close_other_tabs route w =
      let tabs = w.store.tab_list in
      let paths = other_paths route tabs (map (λ t. t.full_path) tabs) in
      handle_goto_page (record w { store = update_cache_tab (bulk_close_tabs paths w.store) })

  unfoldable pub close_all_tab : World P → World P
  close_all_tab w = go_to_page (record w { store = reset_state w.store })
