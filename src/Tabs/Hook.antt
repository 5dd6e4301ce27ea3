-- ===== src/Tabs/Hook.antt =====
-- web/admin/src/hooks/web/useTabs.ts: the actions on tabs that pages call.
-- The test `!canIUse` of the hook is on a function and never holds, so no action has a guard. `none`
-- is a rejected promise: the current route has no tab, and a field of `undefined` is read.
pub mod Sides
use kerthus.Base.{String, str_eq, List, [], ◌∷◌, Option, none, some, find}
use kerthus.Tabs.{Tab, TabState, Nav, World}
use kerthus.Tabs.Close.{close_tab}
use kerthus.Tabs.Bulk.{close_left_tabs, close_right_tabs, close_other_tabs, close_all_tab}
use kerthus.Tabs.Move.{refresh_page, set_tab_title, update_tab_path}

-- `TableActionEnum`
pub data Action : Type 0 where
  refresh close_all close_left close_right close_other close_current close : Action

module _ {P : Type 0} where
  unfoldable pub get_current_tab : World P → Option (Tab P)
  get_current_tab w = find (λ t. str_eq t.full_path w.current.full_path) w.store.tab_list

  -- `tab || currentTab`
  abbrev or_tab : Option (Tab P) → Option (Tab P) → Option (Tab P)
  or_tab (some t) current = some t
  or_tab none current = current

  -- An operation of the store on a route that may be `undefined`: it reads a field of the route at the
  -- first tab, if there is one.
  abbrev pub on_route :
      (Tab P → World P → World P) → Option (Tab P) → World P → List (Tab P) → Option (World P)
  on_route op (some t) w ts = some (op t w)
  on_route op none w [] = some (op w.current w)
  on_route op none w (t ∷ ts) = none

  abbrev on_store : (Tab P → TabState P → TabState P) → Option (Tab P) → World P → World P
  on_store op none w = w
  on_store op (some t) w = record w { store = op t w.store }

  update_tab_title : String → Option (Tab P) → World P → World P
  update_tab_title title tab w = on_store (set_tab_title title) (or_tab tab (get_current_tab w)) w

  update_path : String → Option (Tab P) → World P → World P
  update_path path tab w = on_store (update_tab_path path) (or_tab tab (get_current_tab w)) w

module _ {P : Type 0} (home : String) (resolve : Nav P → Tab P) where
  abbrev close_given : Option (Tab P) → World P → Option (World P)
  close_given none w = none
  close_given (some t) w = close_tab home resolve t w

  unfoldable pub handle_tab_action : Action → Option (Tab P) → World P → Option (World P)
  handle_tab_action refresh tab w = some (refresh_page home resolve w)
  handle_tab_action close_all tab w = some (close_all_tab home resolve w)
  handle_tab_action close_left tab w =
      on_route (close_left_tabs home resolve) (get_current_tab w) w w.store.tab_list
  handle_tab_action close_right tab w =
      on_route (close_right_tabs home resolve) (get_current_tab w) w w.store.tab_list
  handle_tab_action close_other tab w =
      on_route (close_other_tabs home resolve) (get_current_tab w) w w.store.tab_list
  handle_tab_action close_current tab w = close_given (or_tab tab (get_current_tab w)) w
  handle_tab_action close tab w = close_given (or_tab tab (get_current_tab w)) w
