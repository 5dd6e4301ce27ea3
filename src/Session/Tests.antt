-- ===== src/Session/Tests.antt =====
-- A session that begins with a login and ends with a logout.
use kerthus.Base.{
  ℕ, ◌≡◌, refl, ◌⊎◌, String, str_eq, Bool, true, false, List, [], ◌∷◌, ◌++◌, none, some,
}
use kerthus.Tree.{leaf, branch, Forest, nil, cons}
use kerthus.Session.{World, Token, access_token, logout}
use kerthus.Session.Home.{Route, authorized_home, visit, IsLanding}
use kerthus.Session.Home.Shown.{shows, authorized_home_lem}
use kerthus.Session.Login.{AuthInfo, login, auth_answered}
use kerthus.Session.Logout.{IsCleared, logout_lem}
use kerthus.Session.Login.Laws.{IsLoggedIn, login_lem, auth_answered-logout}

abbrev pub names : String → String
names s = s

abbrev pub basic_names : String → Bool
basic_names s = str_eq s "Login"

abbrev view : String → Route
view path = record {
  path = path;
  hide_menu = false;
  meta_hide_menu = false;
  disabled = false;
  open_with = "";
  component = "VIEW";
  kind = "";
}

-- `/user` with the view `list` below it.
abbrev routes : Forest Route
routes =
    cons (branch (record (view "/user") { component = "LAYOUT" }) (cons (leaf (view "list")) nil))
      nil

authorized_home_example :
    IsLanding names names (authorized_home names names routes "/list")
    × ((((path : String) → shows names names routes "" path ≡ false)
          × (authorized_home names names routes "/list" ≡ "/profile/setting"))
        ⊎ (shows names names routes "" (authorized_home names names routes "/list") ≡ true))
    × (shows names names routes "" "/list" ≡ true
        → authorized_home names names routes "/list" ≡ "/list")
authorized_home_example = authorized_home_lem names names routes "/list"

list_is_home : authorized_home names names routes "/list" ≡ "/user/list"
unfolding authorized_home visit
list_is_home = refl

abbrev token : Token ℕ
token = record { access_token = "token"; ids = 1 }

abbrev nobody : World ℕ ℕ
nobody = record {
  user = record {
    user_info = none;
    token_info = none;
    session_timeout = true;
    last_update_time = 0;
    saas_conf = none;
  };
  permission = record {
    platform_admin = false;
    permissions = [];
    roles = [];
    menus = nil;
    routes = nil;
    is_dynamic_added_route = false;
    last_build_menu_time = 0;
  };
  cache = record {
    user_info = none;
    token_info = none;
    saas_conf = none;
    permissions = [];
    roles = [];
    menus = nil;
    routes = nil;
  };
  tabs = record { cache_tab_list = []; tab_list = []; last_drag_end_index = 0; saved = none };
  router_routes = "Login" ∷ [];
  replaced = [];
  logged_out = [];
}

abbrev pub signed_in : World ℕ ℕ
signed_in = record nobody { user = record nobody.user { token_info = some token } }

abbrev info : AuthInfo
info = record {
  roles = "admin" ∷ [];
  permissions = "user:add" ∷ [];
  menus = nil;
  routes = routes;
  platform_admin = true;
  home = "";
}

abbrev built : Forest Route → List String
built f = "User" ∷ []

login_example :
    ((login names names built 9 (some token) (some "ann") (some info) true nobody).0 ≡ true)
    × IsLoggedIn names names built token "ann" info
        (login names names built 9 (some token) (some "ann") (some info) true nobody).1
    × ((login names names built 9 (some token) (some "ann") (some info) true nobody).1.router_routes
        ≡ "Login" ∷ "User" ∷ "ErrorLog" ∷ [])
    × ((login names names built 9 (some token) (some "ann") (some info) true nobody).1.replaced
        ≡ authorized_home names names routes "" ∷ [])
login_example = login_lem names names built 9 token "ann" info true nobody

logout_example :
    IsCleared basic_names (logout basic_names true signed_in)
    × ((logout basic_names true signed_in).replaced ≡ "/login" ∷ [])
    × ((logout basic_names true signed_in).logged_out ≡ "token" ∷ [])
    × ((logout basic_names true (logout basic_names true signed_in)).logged_out
        ≡ (logout basic_names true signed_in).logged_out)
logout_example = logout_lem basic_names true signed_in

auth_answered-logout_example :
    (access_token (auth_answered names names built 9 info false (logout basic_names true signed_in))
      ≡ "")
    × ((auth_answered names names built 9 info false
          (logout basic_names true signed_in)).permission.permissions
        ≡ "user:add" ∷ [])
    × ((auth_answered names names built 9 info false
          (logout basic_names true signed_in)).permission.platform_admin
        ≡ true)
    × ((auth_answered names names built 9 info false
          (logout basic_names true signed_in)).permission.is_dynamic_added_route
        ≡ true)
    × ((auth_answered names names built 9 info false
          (logout basic_names true signed_in)).router_routes
        ≡ (logout basic_names true signed_in).router_routes ++ (("User" ∷ []) ++ "ErrorLog" ∷ []))
auth_answered-logout_example =
    auth_answered-logout names names built basic_names true 9 info false signed_in
