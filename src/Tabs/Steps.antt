-- ===== src/Tabs/Steps.antt =====
-- multipleTab.ts: the operations of the store as steps of a run, and what holds in every run.
-- `updateTabPath` may give a tab the path of another one: it is a step where no other tab has the path
-- as its key.
use mathlib.Core.Bool.{not}
use kerthus.Base.{
  arith, refl, ℕ, ◌≡◌, String, str_eq, Bool, Bool-cases, inl, inr, ◌&&◌, is_empty, some, includes,
}
use kerthus.Tabs.{Tab, TabState, Nav, World}
use kerthus.Tabs.Open.{add_tab, update_cache_tab}
use kerthus.Tabs.Close.{close_tab, close_tab_by_key}
use kerthus.Tabs.Bulk.{
  bulk_close_tabs, close_left_tabs, close_right_tabs, close_other_tabs, close_all_tab,
  clear_cache_tabs, reset_state, go_to_page,
}
use kerthus.Tabs.Move.{sort_tabs, set_tab_title, update_tab_path, refresh_page, forget}
use kerthus.Tabs.Kept.Closed.{close_tab-HasKeys, close_tab_by_key-HasKeys}
use kerthus.Tabs.Kept.Renamed.{IsFree, update_tab_path-HasKeys}
use kerthus.Tabs.Kept.{
  HasKeys, AreDistinct-filter, close_left-HasKeys, close_right-HasKeys, add_tab-HasKeys,
  sort_tabs-HasKeys, set_tab_title-HasKeys,
}

module _ {P : Type 0} where
  forget-tab_list : (name : String) (s : TabState P) → (forget name s).tab_list ≡ s.tab_list
  forget-tab_list name s =
      elim (Bool-cases (includes name s.cache_tab_list && not (is_empty name))) [
        | inl h ↦ rw h refl
        | inr h ↦ rw h refl
      ]

module _ {P : Type 0} (home : String) (resolve : Nav P → Tab P) (cache_tab : Bool) where
  -- One operation of the store. A close that ends in an exception is no step.
  pub data Step : World P → World P → Type 0 where
    opened : (r : Tab P) (w : World P) → Step w (record w { store = add_tab cache_tab r w.store })
    closed :
        {w' : World P} (tab : Tab P) (w : World P)
        → close_tab home resolve tab w ≡ some w'
        → Step w w'
    closed_by_key :
        {w' : World P} (key : String) (w : World P)
        → close_tab_by_key home resolve key w ≡ some w'
        → Step w w'
    sorted :
        {s : TabState P} (old new : ℕ) (w : World P)
        → sort_tabs old new w.store ≡ some s
        → Step w (record w { store = s })
    left_closed : (route : Tab P) (w : World P) → Step w (close_left_tabs home resolve route w)
    right_closed : (route : Tab P) (w : World P) → Step w (close_right_tabs home resolve route w)
    others_closed : (route : Tab P) (w : World P) → Step w (close_other_tabs home resolve route w)
    all_closed : (w : World P) → Step w (close_all_tab home resolve w)
    titled :
        (title : String) (route : Tab P) (w : World P)
        → Step w (record w { store = set_tab_title title route w.store })
    path_updated :
        (path : String) (route : Tab P) (w : World P)
        → IsFree path route.ref w.store.tab_list
        → Step w (record w { store = update_tab_path path route w.store })
    refreshed : (w : World P) → Step w (refresh_page home resolve w)
    reset : (w : World P) → Step w (record w { store = reset_state w.store })
    -- The router goes elsewhere, on its own.
    moved : (r : Tab P) (w : World P) → Step w (record w { current = r })

  pub data Run : World P → World P → Type 0 where
    stop : (w : World P) → Run w w
    next : {u v w : World P} → Step u v → Run v w → Run u w

  go_to_page-store : (w : World P) → (go_to_page home resolve w).store ≡ w.store
  unfolding go_to_page
  go_to_page-store w = ground arith

  refresh_page-tab_list :
      (w : World P) → (refresh_page home resolve w).store.tab_list ≡ w.store.tab_list
  unfolding refresh_page
  refresh_page-tab_list w = elim (Bool-cases (str_eq w.current.name "Redirect")) [
    | inl h ↦ rw h (forget-tab_list w.current.name w.store)
    | inr h ↦ rw h (forget-tab_list w.current.name w.store)
  ]

  Step-HasKeys : {u w : World P} → Step u w → HasKeys u.store → HasKeys w.store
  unfolding close_left_tabs close_right_tabs close_other_tabs close_all_tab reset_state
      clear_cache_tabs update_cache_tab bulk_close_tabs
  Step-HasKeys (opened r w) d = add_tab-HasKeys cache_tab r w.store d
  Step-HasKeys (closed {w'} tab w e) d = close_tab-HasKeys home resolve tab w w' e d
  Step-HasKeys (closed_by_key {w'} key w e) d = close_tab_by_key-HasKeys home resolve key w w' e d
  Step-HasKeys (sorted {s} old new w e) d = sort_tabs-HasKeys old new w.store s e d
  Step-HasKeys (left_closed route w) d = close_left-HasKeys _ w.store d
  Step-HasKeys (right_closed route w) d = close_right-HasKeys _ w.store d
  Step-HasKeys (others_closed route w) d = AreDistinct-filter _ w.store.tab_list d
  Step-HasKeys (all_closed w) d =
      rw (go_to_page-store (record w { store = reset_state w.store })) tt
  Step-HasKeys (titled title route w) d = set_tab_title-HasKeys title route w.store d
  Step-HasKeys (path_updated path route w f) d = update_tab_path-HasKeys path route w.store f d
  Step-HasKeys (refreshed w) d = rw (refresh_page-tab_list w) d
  Step-HasKeys (reset w) d = tt
  Step-HasKeys (moved r w) d = d

  -- In every run of the operations of the store and of moves of the router that begins with tabs whose
  -- keys `fullPath || path` differ from one another, they differ at the end. In the run each
  -- `updateTabPath` gives its tab, which stands in the list once, a path that is the key of no other
  -- tab; and no close ends in an exception.
  pub Run-HasKeys : {u w : World P} → Run u w → HasKeys u.store → HasKeys w.store
  Run-HasKeys (stop w) d = d
  Run-HasKeys (next s r) d = Run-HasKeys r (Step-HasKeys s d)
