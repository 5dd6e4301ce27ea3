-- ===== src/Tabs/Move.antt =====
-- multipleTab.ts, the operations on one tab in its place: `sortTabs`, `setTabTitle`, `updateTabPath`
-- and `refreshPage` with `useRedo` of usePage.ts.
pub mod Laws
use mathlib.Core.Bool.{not}
use mathlib.Core.Option
use kerthus.Base.{
  ℕ, ◌+◌, String, str_eq, Bool, List, Option, map, get_elem?, erase_idx, insert_idx, filter, any,
  ◌==◌, ◌&&◌, if◌then◌else◌, includes, is_empty,
}
use kerthus.Tabs.{Tab, TabState, Nav, redo, World}
use kerthus.Tabs.Open.{update_cache_tab}
use kerthus.Tabs.Close.{replace}

module _ {P : Type 0} where
  abbrev pub moved : ℕ → ℕ → Tab P → List (Tab P) → List (Tab P)
  moved old new t ts = insert_idx (erase_idx ts old) new t

  -- `none` is a list that holds `undefined`, where there is no tab at the old index.
  unfoldable pub sort_tabs : ℕ → ℕ → TabState P → Option (TabState P)
  sort_tabs old new s =
      Option.map
        (λ t. record s {
          tab_list = moved old new t s.tab_list;
          last_drag_end_index = s.last_drag_end_index + 1;
        })
        (get_elem? s.tab_list old)

  -- A write to the object `r`, which shows at every place of the list that holds the object.
  abbrev pub write : ℕ → (Tab P → Tab P) → List (Tab P) → List (Tab P)
  write r f = map (λ t. if t.ref == r then f t else t)

  abbrev write_tab : Tab P → (Tab P → Tab P) → TabState P → TabState P
  write_tab route f s =
      if any (λ t. t.ref == route.ref) s.tab_list
      then update_cache_tab (record s { tab_list = write route.ref f s.tab_list })
      else s

  abbrev pub titled : String → Tab P → Tab P
  titled title t = record t { info = record t.info { title = title } }

  unfoldable pub set_tab_title : String → Tab P → TabState P → TabState P
  set_tab_title title route s = write_tab route (titled title) s

  abbrev pub with_path : String → Tab P → Tab P
  with_path path t = record t { full_path = path; path = path }

  unfoldable pub update_tab_path : String → Tab P → TabState P → TabState P
  update_tab_path path route s = write_tab route (with_path path) s

  -- `cacheTabList.delete(findTab)`
  abbrev pub forget : String → TabState P → TabState P
  forget name s =
      if includes name s.cache_tab_list && not (is_empty name)
      then record s { cache_tab_list = filter (λ n. not (str_eq n name)) s.cache_tab_list }
      else s

module _ {P : Type 0} (home : String) (resolve : Nav P → Tab P) where
  -- The route of the redirection is not loaded again.
  abbrev redo_page : World P → World P
  redo_page w = if str_eq w.current.name "Redirect" then w else replace home resolve redo w

  unfoldable pub refresh_page : World P → World P
  refresh_page w = redo_page (record w { store = forget w.current.name w.store })
