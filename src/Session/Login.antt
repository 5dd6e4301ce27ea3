-- ===== src/Session/Login.antt =====
-- user.ts, `login` with the actions behind it, and permission.ts, `getUserAuthAction`. An action that
-- waits for the server is a function for each answer, so that other actions may come in between.
pub mod Laws
use kerthus.Base.{
  ℕ, String, Bool, true, false, List, [], ◌∷◌, ◌++◌, Option, none, some, if◌then◌else◌,
}
use kerthus.Tree.{Forest}
use kerthus.Session.Home.{Route, authorized_home}
use kerthus.Session.{
  Token, World, set_token_info, set_user_info, set_session_timeout, set_saas_conf, set_rights,
  get_saas_conf, get_home_page,
}

-- The answer of `getAuthInfo`; `home` is `context?.home`.
pub record AuthInfo : Type 0 where
  pub roles : List String
  pub permissions : List String
  pub menus : Forest Route
  pub routes : Forest Route
  pub platform_admin : Bool
  pub home : String

module _ {I P : Type 0} where
  -- Behind `loginApi`.
  unfoldable pub login_answered : Token I → World I P → World I P
  login_answered t w =
      set_saas_conf (some (record { ids = some t.ids; home = "" })) (set_token_info (some t) w)

  -- `getUserInfoAction` behind its answer.
  unfoldable pub user_info_answered : ℕ → String → World I P → World I P
  user_info_answered now name w = set_user_info now (some name) w

  abbrev clear_timeout : World I P → World I P
  clear_timeout w = if w.user.session_timeout then set_session_timeout false w else w

  -- `build` answers the names of the routes that `buildRoutesAction` makes of those of the server.
  module _ (upper external_url : String → String) (build : Forest Route → List String) where
    abbrev add_routes : World I P → World I P
    add_routes w = if w.permission.is_dynamic_added_route then w else record w {
      router_routes = w.router_routes ++ (build w.permission.routes ++ "ErrorLog" ∷ []);
      permission = record w.permission { is_dynamic_added_route = true };
    }

    abbrev set_auth_info : ℕ → AuthInfo → World I P → World I P
    set_auth_info now a w =
        let u = record w {
          permission = record w.permission { platform_admin = a.platform_admin };
        } in
        let home = authorized_home upper external_url a.routes a.home in
        let v = set_saas_conf (some (record (get_saas_conf u) { home = home })) u in
        let r = set_rights a.roles a.permissions a.menus a.routes v in
        record r { permission = record r.permission { last_build_menu_time = now } }

    abbrev go_home_page : Bool → World I P → World I P
    go_home_page go_home w =
        if go_home then record w { replaced = w.replaced ++ get_home_page w ∷ [] } else w

    -- `getUserAuthAction` behind its answer.
    unfoldable pub auth_answered : ℕ → AuthInfo → (go_home : Bool) → World I P → World I P
    auth_answered now a go_home w =
        go_home_page go_home (clear_timeout (add_routes (set_auth_info now a w)))

    -- `getUserAuthAction`, `getAuthInfoAction` and `afterLoginAction`, where nothing comes in between:
    -- whether they end without an exception. `none` is an answer that is rejected.
    abbrev auth_action : ℕ → Option AuthInfo → Bool → World I P → Bool × World I P
    auth_action now none go_home w = (false, clear_timeout w)
    auth_action now (some a) go_home w = (true, auth_answered now a go_home (clear_timeout w))

    abbrev after_login_action :
        ℕ → Option String → Option AuthInfo → Bool → World I P → Bool × World I P
    after_login_action now none auth go_home w = (false, w)
    after_login_action now (some name) auth go_home w =
        auth_action now auth go_home (user_info_answered now name w)

    unfoldable pub login :
        ℕ
        → Option (Token I)
        → Option String
        → Option AuthInfo
        → (go_home : Bool) → World I P
        → Bool × World I P
    login now none user auth go_home w = (false, w)
    login now (some t) user auth go_home w =
        after_login_action now user auth go_home (login_answered t w)
