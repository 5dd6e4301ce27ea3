-- ===== src/Routes/Roles.antt =====
-- web/admin/src/router/menus/index.ts in the mode of roles: `basicFilter`, with the menus that it
-- leaves. `matches` is `pathToRegexp(path).test`; the icon of a menu is not modelled.
pub mod Allowed
pub mod Tests
use mathlib.Core.Option
use kerthus.Base.{
  ◌≡◌, refl, ◌∙◌, inl, inr, String, str_eq, Bool, true, false, not, ◌||◌, Bool-cases, Option-cases,
  List, Option, none, some, is_some, find, any, if◌then◌else◌, arith,
}
use kerthus.Tree.{Node, leaf, branch, Forest, nil, cons, item}
use kerthus.Routes.{Meta}
use kerthus.Routes.Menu.{Menu, is_url}
use kerthus.Routes.Shown.{menu_filter, children_at, shallow}

-- A record of the router.
pub record Record : Type 0 where
  pub path : String
  pub meta : Meta
  pub carry_param : Bool
  pub ignore_auth : Bool

module _ (matches : String → String → Bool) where
  abbrev pub matches_route : String → Record → Bool
  matches_route path r =
      if is_url path
      then true
      else if r.carry_param
      then matches r.path path
      else if not (str_eq r.path path)
      then false
      else if r.ignore_auth
      then true
      else str_eq r.path path || matches r.path path

  -- The menu with the `meta` of the first route that matches.
  unfoldable pub basic_filter : List Record → Menu → Option Menu
  basic_filter routes m =
      Option.map (λ r. record m { meta = r.meta }) (find (matches_route m.path) routes)

  abbrev pub keep_leaf : Option Menu → Forest Menu → Forest Menu
  keep_leaf none rest = rest
  keep_leaf (some m) rest = cons (leaf m) rest

  -- A menu that matches no route is kept for the children that do.
  abbrev pub keep_branch : Menu → Option Menu → Forest Menu → Forest Menu → Forest Menu
  keep_branch m (some m') f rest = cons (branch m' f) rest
  keep_branch m none nil rest = rest
  keep_branch m none (cons n f) rest = cons (branch m (cons n f)) rest

  unfoldable mutual
    pub role_node : List Record → Node Menu → Forest Menu → Forest Menu
    role_node routes (leaf m) rest = keep_leaf (basic_filter routes m) rest
    role_node routes (branch m f) rest =
        keep_branch m (basic_filter routes m) (role_filter routes f) rest

    -- `filter` of treeHelper.ts with `basicFilter`.
    pub role_filter : List Record → Forest Menu → Forest Menu
    role_filter routes nil = nil
    role_filter routes (cons n f) = role_node routes n (role_filter routes f)

  unfoldable pub get_menus : Bool → List Record → Forest Menu → Forest Menu
  get_menus is_role routes menus =
      if is_role then role_filter routes (menu_filter menus) else menu_filter menus

  unfoldable pub shallow_menus : Bool → List Record → Forest Menu → Forest Menu
  shallow_menus is_role routes menus =
      let list = shallow (menu_filter menus) in if is_role then role_filter routes list else list

  unfoldable pub children_menus : Bool → List Record → Forest Menu → String → Forest Menu
  children_menus is_role routes menus parent_path =
      let children = children_at parent_path (get_menus is_role routes menus) in
      if is_role then role_filter routes children else children
