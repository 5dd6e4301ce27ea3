-- ===== src/Tabs/Close.antt =====
-- multipleTab.ts, `closeTab` and `closeTabByKey`.
-- `home` is `userStore.getHomePage()`, and `resolve` gives the route that the router is at when it has
-- followed a call of `replace`.
pub mod Laws
use mathlib.Core.Option
use kerthus.Base.{
  ℕ, zero, suc, ◌+◌, String, str_eq, Bool, true, List, [], ◌∷◌, ◌++◌, Option, none, some, length,
  get_elem?, find_index, ltb, ◌==◌, if◌then◌else◌, is_some,
}
use kerthus.Tabs.{Tab, TabState, Nav, to_target, replace_path, World, tab_key}
use kerthus.Tabs.Open.{update_cache_tab, close_at}

module _ {P : Type 0} where
  -- The inner function `close`.
  unfoldable pub close : Tab P → TabState P → TabState P
  close r s = if r.info.affix then s else record s {
    tab_list = close_at (find_index (λ t. str_eq t.full_path r.full_path) s.tab_list) s.tab_list;
  }

  -- `getToTarget`
  abbrev pub get_to_target : Tab P → Nav P
  get_to_target t = to_target t.params t.path t.query

  -- Where the router goes when the active tab is closed, from the index of the tab with the active
  -- path (`none` is -1): `none` is the exception of `getToTarget(undefined)`.
  pub target_at : String → List (Tab P) → Option ℕ → Option (Nav P)
  target_at home ts none = none
  target_at home ts (some zero) =
      if length ts == 1 then some (replace_path home) else Option.map get_to_target (get_elem? ts 1)
  target_at home ts (some (suc i)) = Option.map get_to_target (get_elem? ts i)

module _ {P : Type 0} (home : String) (resolve : Nav P → Tab P) where
  abbrev pub replace : Nav P → World P → World P
  replace nav w = record w { current = resolve nav; navs = w.navs ++ nav ∷ [] }

  -- `none` is a rejected promise: an exception in the method.
  unfoldable pub close_tab : Tab P → World P → Option (World P)
  close_tab tab w =
      if str_eq w.current.path tab.path
      then Option.map (λ nav. replace nav (record w { store = close w.current w.store }))
          (target_at home w.store.tab_list
            (find_index (λ t. str_eq t.path w.current.path) w.store.tab_list))
      else some (record w { store = update_cache_tab (close tab w.store) })

  -- `pageIndex >= 0` for the index of the closed tab and the length of the list behind the closing.
  abbrev pub has_neighbour : ℕ → ℕ → Bool
  has_neighbour index len = if ltb 0 index then true else ltb (index + 1) len

  -- The jump to `tabList[index - 1]`.
  unfoldable pub jump_before : ℕ → World P → Option (World P)
  jump_before zero w = none
  jump_before (suc i) w =
      Option.map (λ t. replace (get_to_target t) w) (get_elem? w.store.tab_list i)

  -- Behind the closing: the jump, if the current route has no tab and there is a neighbour.
  unfoldable pub leave_closed : ℕ → World P → Option (World P)
  leave_closed index w =
      if is_some (find_index (λ t. str_eq t.full_path w.current.full_path) w.store.tab_list)
      then some w
      else if has_neighbour index (length w.store.tab_list)
      then jump_before index w
      else some w

  unfoldable pub close_tab_by_key : String → World P → Option (World P)
  close_tab_by_key key w = elim (find_index (λ t. str_eq (tab_key t) key) w.store.tab_list) [
    | none ↦ some w
    | some index ↦ elim (get_elem? w.store.tab_list index) [
      | none ↦ none
      | some tab ↦ Option.bind (close_tab tab w) (leave_closed index)
    ]
  ]
