-- ===== src/Tabs.antt =====
-- web/admin/src/store/modules/multipleTab.ts: the state of the store of the open tabs.
-- `P` is the type of the objects `params` and `query`, which the store only hands on. A text field is
-- "" where the source has `undefined` or "", which it never tells apart by a test.
pub mod Open
pub mod Close
pub mod Bulk
pub mod Move
pub mod Kept
pub mod Steps
pub mod Hook
pub mod Tests
use kerthus.Base.{ℕ, String, Bool, List, [], Option, none, some, or_text}

-- `meta` of a route. `dynamic_level` is 0 where the source has no level or one that is not positive,
-- and `real_path` is `none` where it is `null` or `undefined`.
pub record Meta : Type 0 where
  pub title : String
  pub affix : Bool
  pub ignore_keep_alive : Bool
  pub dynamic_level : ℕ
  pub real_path : Option String

-- `RouteLocationNormalized`; `ref` is the identity of the object.
pub record Tab (P : Type 0) : Type 0 where
  pub ref : ℕ
  pub name : String
  pub path : String
  pub full_path : String
  pub params : Option P
  pub query : Option P
  pub info : Meta

-- `MultipleTabState`; `saved` is the entry of `Persistent` at `MULTIPLE_TABS_KEY`.
pub record TabState (P : Type 0) : Type 0 where
  pub cache_tab_list : List String
  pub tab_list : List (Tab P)
  pub last_drag_end_index : ℕ
  pub saved : Option (List (Tab P))

-- A call of the router: `replace` with the target of `getToTarget` or with a path, `go` with a path.
pub data Nav (P : Type 0) : Type 0 where
  to_target : (params : Option P) → (path : String) → (query : Option P) → Nav P
  replace_path go_path : String → Nav P
  redo : Nav P

-- The store with the router: its current route, and the calls that it has received.
pub record World (P : Type 0) : Type 0 where
  pub store : TabState P
  pub current : Tab P
  pub navs : List (Nav P)

module _ {P : Type 0} where
  -- `tab.fullPath || tab.path`
  abbrev pub tab_key : Tab P → String
  tab_key t = or_text t.full_path t.path
