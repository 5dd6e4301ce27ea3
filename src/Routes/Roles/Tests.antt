-- ===== src/Routes/Roles/Tests.antt =====
-- Menus in the mode of roles, where the router has one of two routes.
use kerthus.Base.{◌≡◌, refl, String, str_eq, true, false, [], ◌∷◌, some, none}
use kerthus.Tree.{Forest, leaf, branch, nil, cons}
use kerthus.Routes.{Meta}
use kerthus.Routes.Menu.{Menu, is_url, domain_after, dotted, is_word}
use kerthus.Routes.Shown.{menu_filter}
use kerthus.Routes.Roles.{Record, basic_filter, role_node, get_menus, children_menus}
use kerthus.Routes.Roles.Allowed.{Allowed, get_menus-Allowed}

abbrev meta : String → Meta
meta title = record {
  title = title;
  frame_src = none;
  single = false;
  affix = false;
  hide_menu = false;
  hide_children_in_menu = false;
  hide_path_for_children = false;
}

abbrev menu : String → Menu
menu path = record { name = path; path = path; hide_menu = false; redirect = none; meta = meta "" }

abbrev route : Record
route = record { path = "/users"; meta = meta "Users"; carry_param = false; ignore_auth = false }

abbrev menus : Forest Menu
menus =
    cons (branch (menu "/system") (cons (leaf (menu "/users")) (cons (leaf (menu "/roles")) nil)))
      (cons (leaf (menu "/about")) nil)

get_menus-Allowed_example :
    Allowed str_eq (route ∷ []) (get_menus str_eq true (route ∷ []) menus)
    × Allowed str_eq (route ∷ []) (children_menus str_eq true (route ∷ []) menus "/system")
get_menus-Allowed_example = get_menus-Allowed str_eq (route ∷ []) menus "/system"

one_left :
    get_menus str_eq true (route ∷ []) menus
    ≡ cons
        (branch (menu "/system") (cons (leaf (record (menu "/users") { meta = meta "Users" })) nil))
        nil
unfolding get_menus menu_filter role_node basic_filter is_url domain_after
one_left = refl

-- An address outside matches the first route, and takes its `meta`.
outside_named :
    basic_filter str_eq (route ∷ []) (menu "https://a.b")
    ≡ some (record (menu "https://a.b") { meta = meta "Users" })
unfolding basic_filter is_url domain_after dotted is_word
outside_named = refl
