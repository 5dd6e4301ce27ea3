-- ===== src/Routes/Tests.antt =====
-- Runs of routeHelper.ts, menuHelper.ts, externalUrl.ts and useOpenKeys.ts on small inputs.
use kerthus.Base.{
  includes, ◌≡◌, refl, ◌⊎◌, ◌≤◌, String, Bool, true, false, str_eq, ◌||◌, List, [], ◌∷◌, map,
  Option, none, some, length, arith,
}
use kerthus.Tree.{Node, leaf, branch, Forest, nil, cons, item, preorders}
use kerthus.Routes.{Meta, Given, Placed, view, layout}
use kerthus.Routes.Everywhere.{Holds}
use kerthus.Routes.Url.{
  Location, external_url, after, trim_end, trim_start, is_space, lower, has_user, has_unsafe,
  is_unsafe, is_external_destination,
}
use kerthus.Routes.Url.Laws.{external_url_lem}
use kerthus.Routes.Views.{dynamic_import}
use kerthus.Routes.Build.{transform_obj_to_route}
use kerthus.Routes.Build.Internal.{redirects, Stays, transform_obj_to_route-Stays}
use kerthus.Routes.Build.Frames.{Shows, transform_obj_to_route-Shows}
use kerthus.Routes.Menu.{join_parent_path, transform_route_to_menu}
use kerthus.Routes.Menu.Rooted.{IsRooted, transform_route_to_menu-IsRooted}
use kerthus.Routes.Affix.{patch_home_affix, patcher, visit_route}
use kerthus.Routes.Open.{Mode, Opened, handle_open_change}
use kerthus.Routes.Open.Accordion.{open_roots, clicked, handle_open_change_lem}

-- A parser that takes every text for an address of one host.
abbrev one_host : String → Option Location
one_host s = some (record { protocol = "https:"; hostname = "a.b"; username = ""; password = "" })

abbrev same : String → String
same s = s

abbrev views : List String
views = "../../views/system/user.vue" ∷ "../../views/system/logs.vue" ∷ []

abbrev plain : Meta
plain = record {
  title = "";
  frame_src = none;
  single = false;
  affix = false;
  hide_menu = false;
  hide_children_in_menu = false;
  hide_path_for_children = false;
}

abbrev given : String → String → Option String → Option String → Given
given name path open_with component = record {
  name = name;
  path = path;
  open_with = open_with;
  redirect = none;
  component = component;
  meta = plain;
}

abbrev system : Node Given
system = branch (given "System" "/system" none (some "LAYOUT")) (
    cons (leaf (given "Users" "user" none (some "/system/user"))) (
      cons (leaf (given "Shop" "https://a.b" none none))
        (cons (leaf (given "Docs" "docs" (some "inside") (some "https://a.b/docs"))) nil)))

abbrev input : Forest Given
input = cons system (cons (leaf (given "About" "/about" none (some "/about/index"))) nil)

abbrev routes : Forest Placed
routes = transform_obj_to_route one_host same views input

abbrev logs : Mode
logs = record { horizontal = false; accordion = true; mix_sidebar = false; collapsed = false }

abbrev opened : Opened
opened = record {
  open_keys = "/system" ∷ "/system/user" ∷ [];
  collapsed_open_keys = [];
  selected_keys = [];
}

trimmed : external_url one_host (some " https://a.b/docs ") ≡ "https://a.b/docs"
unfolding external_url after trim_end trim_start is_space lower has_user has_unsafe is_unsafe
trimmed = refl

viewed : dynamic_import views "/system/user" ≡ view "../../views/system/user.vue"
unfolding dynamic_import
viewed = refl

external_url_example :
    (external_url one_host (some (external_url one_host (some " https://a.b/docs ")))
      ≡ external_url one_host (some " https://a.b/docs "))
    × ((external_url one_host (some " https://a.b/docs ") ≡ "")
        ⊎ (is_external_destination (external_url one_host (some " https://a.b/docs ")) ≡ true))
external_url_example = external_url_lem one_host (some " https://a.b/docs ")

transform_obj_to_route-Stays_example : Holds (Stays (λ s. includes s (redirects input))) routes
transform_obj_to_route-Stays_example = transform_obj_to_route-Stays one_host same views input

transform_obj_to_route-Shows_example : Holds (Shows one_host) routes
transform_obj_to_route-Shows_example = transform_obj_to_route-Shows one_host same views input

transform_route_to_menu-IsRooted_example :
    Holds IsRooted (transform_route_to_menu true routes)
    × (join_parent_path "/top" (transform_route_to_menu true routes)
        ≡ transform_route_to_menu true routes)
transform_route_to_menu-IsRooted_example = transform_route_to_menu-IsRooted true routes "/top"

handle_open_change_example :
    length (
      open_roots
        ("/system" ∷ "/shop" ∷ [])
        (handle_open_change logs
          ("/system" ∷ "/shop" ∷ [])
          (clicked "/shop" opened.open_keys)
          opened).open_keys)
    ≤ 1
handle_open_change_example =
    handle_open_change_lem logs ("/system" ∷ "/shop" ∷ []) "/shop" opened refl refl refl refl
      (omega arith)

abbrev placed_at : String → Option String → Placed
placed_at path redirect = record {
  name = path;
  path = path;
  open_with = none;
  redirect = redirect;
  component = layout;
  meta = plain;
}

-- `/system`, which redirects to its child `user`.
abbrev home_routes : Forest Placed
home_routes =
    cons
      (branch (placed_at "/system" (some "/system/user")) (cons (leaf (placed_at "user" none)) nil))
      (cons (leaf (placed_at "/about" none)) nil)

abbrev home_targets : String → Bool
home_targets s = str_eq s "/system" || str_eq s "/system/user"

user_fixed :
    map
      (λ (n : Node Placed). (item n).meta.affix)
      (preorders (patch_home_affix "/system" home_routes))
    ≡ false ∷ true ∷ false ∷ []
unfolding patch_home_affix patcher visit_route preorders
user_fixed = refl
