-- ===== src/Routes/Shown.antt =====
-- web/admin/src/router/menus/index.ts in the modes that do not depend on roles: `getAsyncMenus`,
-- `getMenus`, `getShallowMenus` and `getChildrenMenus`, on the menus of Menu.
pub mod Laws
use kerthus.Base.{String, str_eq, Bool, not, ◌&&◌, if◌then◌else◌}
use kerthus.Tree.{Node, leaf, branch, Forest, nil, cons, item}
use kerthus.Routes.Menu.{Menu}

abbrev pub is_shown : Menu → Bool
is_shown m = not m.meta.hide_menu && not m.hide_menu

unfoldable mutual
  pub filter_below : Node Menu → Node Menu
  filter_below (leaf m) = leaf m
  filter_below (branch m f) = branch m (menu_filter f)

  pub menu_filter : Forest Menu → Forest Menu
  menu_filter nil = nil
  menu_filter (cons n f) =
      let rest = menu_filter f in if is_shown (item n) then cons (filter_below n) rest else rest

abbrev pub without_children : Node Menu → Node Menu
without_children (leaf m) = leaf m
without_children (branch m f) = leaf m

abbrev pub shallow : Forest Menu → Forest Menu
shallow nil = nil
shallow (cons n f) = cons (without_children n) (shallow f)

unfoldable pub get_shallow_menus : Forest Menu → Forest Menu
get_shallow_menus menus = shallow (menu_filter menus)

abbrev pub children_of : Node Menu → Forest Menu
children_of (leaf m) = nil
children_of (branch m f) = if m.meta.hide_children_in_menu then nil else f

abbrev pub children_at : String → Forest Menu → Forest Menu
children_at path nil = nil
children_at path (cons n f) =
    if str_eq (item n).path path then children_of n else children_at path f

unfoldable pub get_children_menus : Forest Menu → String → Forest Menu
get_children_menus menus parent_path = children_at parent_path (menu_filter menus)
