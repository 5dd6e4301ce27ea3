-- ===== src/Session.antt =====
-- web/admin/src/store/modules/user.ts and permission.ts: the session of a user, from the login to the
-- logout, with the entries of the cache that utils/auth writes and the routes of the router.
-- `I` is what a token names beside itself: the tenant, the unit, the section and the app.
pub mod Home
pub mod Logout
pub mod Login
pub mod Tests
use kerthus.Base.{
  ℕ, String, Bool, true, false, not, ◌&&◌, List, [], ◌∷◌, ◌++◌, Option, none, some, or_text,
  is_empty, if◌then◌else◌, filter,
}
use kerthus.Tree.{Forest, nil}
use kerthus.Tabs.{TabState}
use kerthus.Tabs.Bulk as Bulk
use kerthus.Session.Home.{Route}

pub record Token (I : Type 0) : Type 0 where
  pub access_token : String
  pub ids : I

-- `saasConf`: the fields of the token, which may be missing, and the home page, "" where it is missing.
pub record Conf (I : Type 0) : Type 0 where
  pub ids : Option I
  pub home : String

-- `UserState`; a user is known by the name.
pub record UserState (I : Type 0) : Type 0 where
  pub user_info : Option String
  pub token_info : Option (Token I)
  pub session_timeout : Bool
  pub last_update_time : ℕ
  pub saas_conf : Option (Conf I)

-- `PermissionState`
pub record PermissionState : Type 0 where
  pub platform_admin : Bool
  pub permissions : List String
  pub roles : List String
  pub menus : Forest Route
  pub routes : Forest Route
  pub is_dynamic_added_route : Bool
  pub last_build_menu_time : ℕ

-- The entries that `setAuthCache` writes; `none` is `null` or a missing entry.
pub record Cache (I : Type 0) : Type 0 where
  pub user_info : Option String
  pub token_info : Option (Token I)
  pub saas_conf : Option (Conf I)
  pub permissions : List String
  pub roles : List String
  pub menus : Forest Route
  pub routes : Forest Route

-- The stores with the router: the names of its routes, and the paths that `replace` was called with.
-- `logged_out` has the tokens that the server was asked to log out.
pub record World (I P : Type 0) : Type 0 where
  pub user : UserState I
  pub permission : PermissionState
  pub cache : Cache I
  pub tabs : TabState P
  pub router_routes : List String
  pub replaced : List String
  pub logged_out : List String

-- `a || b` for an object of the state and one of the cache
abbrev pub or_cached {ℓ} : {A : Type ℓ} → Option A → Option A → Option A
or_cached none o = o
or_cached (some a) o = some a

abbrev pub token_text : {I : Type 0} → Option (Token I) → String
token_text none = ""
token_text (some t) = t.access_token

abbrev pub conf_of : {I : Type 0} → Option (Conf I) → Conf I
conf_of none = record { ids = none; home = "" }
conf_of (some c) = c

module _ {I P : Type 0} where
  -- `getTokenInfo.access_token`, "" where it is missing
  abbrev pub access_token : World I P → String
  access_token w = token_text (or_cached w.user.token_info w.cache.token_info)

  abbrev pub get_saas_conf : World I P → Conf I
  get_saas_conf w = conf_of (or_cached w.user.saas_conf w.cache.saas_conf)

  abbrev pub get_home_page : World I P → String
  get_home_page w =
      or_text (get_saas_conf w).home
        (if is_empty (access_token w) then "/login" else "/profile/setting")

  abbrev pub set_token_info : Option (Token I) → World I P → World I P
  set_token_info t w = record w {
    user = record w.user { token_info = t };
    cache = record w.cache { token_info = t };
  }

  abbrev pub set_user_info : ℕ → Option String → World I P → World I P
  set_user_info now info w = record w {
    user = record w.user { user_info = info; last_update_time = now };
    cache = record w.cache { user_info = info };
  }

  abbrev pub set_session_timeout : Bool → World I P → World I P
  set_session_timeout flag w = record w { user = record w.user { session_timeout = flag } }

  abbrev pub set_saas_conf : Option (Conf I) → World I P → World I P
  set_saas_conf c w = record w {
    user = record w.user { saas_conf = c };
    cache = record w.cache { saas_conf = c };
  }

  -- `setRoles`, `setPermissions`, `setMenus` and `setRoutes`
  abbrev pub set_rights :
      (roles permissions : List String) (menus routes : Forest Route) → World I P → World I P
  set_rights roles permissions menus routes w = record w {
    permission = record w.permission {
      roles = roles;
      permissions = permissions;
      menus = menus;
      routes = routes;
    };
    cache = record w.cache {
      roles = roles;
      permissions = permissions;
      menus = menus;
      routes = routes;
    };
  }

  -- `resetState` of the store of the permissions
  abbrev pub reset_permission : World I P → World I P
  reset_permission w =
      let v = set_rights [] [] nil nil w in
      record v {
        permission = record v.permission {
          platform_admin = false;
          is_dynamic_added_route = false;
          last_build_menu_time = 0;
        };
      }

  abbrev log_out_remotely : Bool → String → World I P → World I P
  log_out_remotely clear_remote token w =
      if clear_remote && not (is_empty token)
      then record w { logged_out = w.logged_out ++ token ∷ [] }
      else w

  -- `is_basic` says that a name is on the list of the routes that `resetRouter` leaves.
  module _ (is_basic : String → Bool) where
    abbrev clear_locally : World I P → World I P
    clear_locally w =
        let u = set_user_info 0 none (set_token_info none (set_session_timeout true w)) in
        let v = reset_permission (set_saas_conf none u) in
        record v {
          tabs = Bulk.reset_state v.tabs;
          router_routes = filter is_basic v.router_routes;
          replaced = v.replaced ++ "/login" ∷ [];
        }

    -- `logout`, up to its wait for the router and the server.
    unfoldable pub logout : (clear_remote : Bool) → World I P → World I P
    logout clear_remote w = log_out_remotely clear_remote (access_token w) (clear_locally w)
