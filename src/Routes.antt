-- ===== src/Routes.antt =====
-- web/admin/src/router/helper and utils/externalUrl.ts: the routes and the menus that are made of the
-- records of the server, and the destinations that may leave the application. A record of a route is
-- the item of a node of Tree, whose children are the field `children`.
pub mod Url
pub mod Everywhere
pub mod Views
pub mod Build
pub mod Menu
pub mod Shown
pub mod Roles
pub mod Affix
pub mod Open
pub mod Tests
use kerthus.Base.{String, Bool, false, not, Option, none, some, is_empty, str_eq}

-- `RouteMeta`, the fields that are read; a title that is missing is "", a flag that is missing `false`.
pub record Meta : Type 0 where
  pub title : String
  pub frame_src : Option String
  pub single : Bool
  pub affix : Bool
  pub hide_menu : Bool
  pub hide_children_in_menu : Bool
  pub hide_path_for_children : Bool

-- A record of the server has a text as its `component`, or none; a route has a `Component`.
pub record RouteRecord (C : Type 0) : Type 0 where
  pub name : String
  pub path : String
  pub open_with : Option String
  pub redirect : Option String
  pub component : C
  pub meta : Meta

pub data Component : Type 0 where
  absent : Component
  text : String → Component
  layout : Component
  frame_blank : Component
  parent_layout : Component
  exception : Component
  view : String → Component

abbrev pub Given : Type 0
Given = RouteRecord (Option String)

abbrev pub Placed : Type 0
Placed = RouteRecord Component

-- A text that is given and not "".
abbrev pub is_set : Option String → Bool
is_set none = false
is_set (some s) = not (is_empty s)

abbrev pub is_given : String → Option String → Bool
is_given s none = false
is_given s (some t) = str_eq t s
