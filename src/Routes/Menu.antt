-- ===== src/Routes/Menu.antt =====
-- menuHelper.ts, `joinParentPath`, `transformRouteToMenu` and `transformMenuModule`, with `isUrl` of
-- utils/is.ts. A menu is the item of a node of Tree; the fields of `meta` that a menu has as its own,
-- too, are read from `meta`.
pub mod Rooted
pub mod Titles
use Prim.Native.Char.{code}
use Prim.Native.String as Text
use kerthus.Base.{
  ℕ, String, Bool, false, ◌&&◌, ◌||◌, ◌==◌, List, [], ◌∷◌, Option, none, some, is_some, or_else,
  if◌then◌else◌,
}
use kerthus.Tree.{Node, leaf, branch, Forest, nil, cons, item}
use kerthus.Tree.Convert.{tree_map}
use kerthus.Session.Home.{is_absolute}
use kerthus.Routes.{Meta, Placed, is_set}
use kerthus.Routes.Url.{in_range}

pub record Menu : Type 0 where
  pub name : String
  pub path : String
  pub hide_menu : Bool
  pub redirect : Option String
  pub meta : Meta

-- `[\w-]`
unfoldable pub is_word : ℕ → Bool
is_word c = in_range 97 122 c || in_range 65 90 c || in_range 48 57 c || c == b'_' || c == b'-'

abbrev pub starts_word : String → Bool
starts_word String.[] = false
starts_word (String.◌∷◌ c s) = is_word (code c)

-- What may follow a character of the first label: `[\w-]*\.[\w-]`. More labels and a path may follow,
-- which the test does not need.
unfoldable pub dotted : String → Bool
dotted String.[] = false
dotted (String.◌∷◌ c s) = if code c == b'.' then starts_word s else is_word (code c) && dotted s

abbrev pub names_domain : String → Bool
names_domain String.[] = false
names_domain (String.◌∷◌ c s) = is_word (code c) && dotted s

-- A beginning in the given case, and a domain behind it.
unfoldable pub domain_after : List ℕ → String → Bool
domain_after [] s = names_domain s
domain_after (p ∷ ps) String.[] = false
domain_after (p ∷ ps) (String.◌∷◌ c s) = code c == p && domain_after ps s

-- `isUrl`
unfoldable pub is_url : String → Bool
is_url s =
    domain_after (104 ∷ 116 ∷ 116 ∷ 112 ∷ 115 ∷ 58 ∷ 47 ∷ 47 ∷ []) s
    || domain_after (104 ∷ 116 ∷ 116 ∷ 112 ∷ 58 ∷ 47 ∷ 47 ∷ []) s

abbrev pub is_rooted : String → Bool
is_rooted path = is_absolute path || is_url path

abbrev pub joined : String → String → String
joined parent path = if is_rooted path then path else Text.◌++◌ parent (Text.◌++◌ "/" path)

abbrev pub with_path : String → Menu → Menu
with_path path m = record m { path = path }

-- The parent's path that the children are joined with.
abbrev pub below : String → Menu → String
below parent m = if m.meta.hide_path_for_children then parent else joined parent m.path

unfoldable mutual
  pub join_node : String → Node Menu → Node Menu
  join_node parent (leaf m) = leaf (with_path (joined parent m.path) m)
  join_node parent (branch m f) =
      branch (with_path (joined parent m.path) m) (join_parent_path (below parent m) f)

  pub join_parent_path : String → Forest Menu → Forest Menu
  join_parent_path parent nil = nil
  join_parent_path parent (cons n f) = cons (join_node parent n) (join_parent_path parent f)

pub transform_menu_module : Node Menu → Node Menu
transform_menu_module menu = join_node "" menu

abbrev pub redirected : Bool → Placed → Placed
redirected mapping r =
    if mapping && r.meta.hide_children_in_menu && is_some r.redirect
    then record r { path = or_else r.redirect r.path }
    else r

abbrev pub with_item {ℓ} : {A : Type ℓ} → A → Node A → Node A
with_item a (leaf b) = leaf a
with_item a (branch b f) = branch a f

-- `item?.children?.[0]`, in front of the list.
abbrev pub first_child {ℓ} : {A : Type ℓ} → Node A → Forest A → Forest A
first_child (leaf a) rest = rest
first_child (branch a nil) rest = rest
first_child (branch a (cons n f)) rest = cons n rest

unfoldable pub route_list : Bool → Forest Placed → Forest Placed
route_list mapping nil = nil
route_list mapping (cons n f) =
    let rest = route_list mapping f in
    if (item n).meta.single
    then first_child n rest
    else cons (with_item (redirected mapping (item n)) n) rest

abbrev pub menu_of : Placed → Menu
menu_of r = record {
  name = r.meta.title;
  path = r.path;
  hide_menu = r.meta.hide_menu;
  redirect = if is_set r.redirect then r.redirect else none;
  meta = r.meta;
}

-- `{}`
abbrev pub no_menu : Menu
no_menu = record {
  name = "";
  path = "";
  hide_menu = false;
  redirect = none;
  meta = record {
    title = "";
    frame_src = none;
    single = false;
    affix = false;
    hide_menu = false;
    hide_children_in_menu = false;
    hide_path_for_children = false;
  };
}

unfoldable pub transform_route_to_menu : Bool → Forest Placed → Forest Menu
transform_route_to_menu mapping routes =
    join_parent_path ""
      (tree_map no_menu (λ n. some (leaf (menu_of (item n)))) (route_list mapping routes))
