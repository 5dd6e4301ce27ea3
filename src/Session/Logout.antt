-- ===== src/Session/Logout.antt =====
-- user.ts, `logout`: what it leaves of the session.
use kerthus.Base.{
  ◌≡◌, refl, ap, ◌∙◌, String, is_empty, Bool, true, false, not, List, [], ◌∷◌, ◌++◌, none,
  if◌then◌else◌, filter, filter-filter,
}
use kerthus.Tree.{nil}
use kerthus.Tabs.Bulk.{reset_state, clear_cache_tabs}
use kerthus.Session.{World, access_token, get_home_page, get_saas_conf, logout, clear_locally}

module _ {I P : Type 0} (is_basic : String → Bool) where
  -- What `logout` leaves.
  pub record IsCleared (w : World I P) : Type 0 where
    pub no_token : access_token w ≡ ""
    pub no_user : w.user.user_info ≡ none
    pub login_page : get_home_page w ≡ "/login"
    pub no_roles : w.permission.roles ≡ []
    pub no_permissions : w.permission.permissions ≡ []
    pub no_admin : w.permission.platform_admin ≡ false
    pub no_menus : w.permission.menus ≡ nil
    pub no_routes : w.permission.routes ≡ nil
    pub not_added : w.permission.is_dynamic_added_route ≡ false
    pub no_tabs : w.tabs.tab_list ≡ []
    pub basic : filter is_basic w.router_routes ≡ w.router_routes
    pub no_conf : get_saas_conf w ≡ record { ids = none; home = "" }
    pub no_saved_user : w.cache.user_info ≡ none
    pub no_saved_token : w.cache.token_info ≡ none
    pub no_saved_conf : w.cache.saas_conf ≡ none
    pub no_saved_roles : w.cache.roles ≡ []
    pub no_saved_permissions : w.cache.permissions ≡ []
    pub no_saved_menus : w.cache.menus ≡ nil
    pub no_saved_routes : w.cache.routes ≡ nil

  clear_locally-IsCleared : (w : World I P) → IsCleared (clear_locally is_basic w)
  unfolding reset_state clear_cache_tabs
  clear_locally-IsCleared w = record {
    no_token = refl;
    no_user = refl;
    login_page = refl;
    no_roles = refl;
    no_permissions = refl;
    no_admin = refl;
    no_menus = refl;
    no_routes = refl;
    not_added = refl;
    no_tabs = refl;
    basic = filter-filter is_basic w.router_routes;
    no_conf = refl;
    no_saved_user = refl;
    no_saved_token = refl;
    no_saved_conf = refl;
    no_saved_roles = refl;
    no_saved_permissions = refl;
    no_saved_menus = refl;
    no_saved_routes = refl;
  }

  asked-IsCleared :
      {w : World I P} (asked : List String)
      → IsCleared w
      → IsCleared (record w { logged_out = asked })
  asked-IsCleared asked c = record {
    no_token = c.no_token;
    no_user = c.no_user;
    login_page = c.login_page;
    no_roles = c.no_roles;
    no_permissions = c.no_permissions;
    no_admin = c.no_admin;
    no_menus = c.no_menus;
    no_routes = c.no_routes;
    not_added = c.not_added;
    no_tabs = c.no_tabs;
    basic = c.basic;
    no_conf = c.no_conf;
    no_saved_user = c.no_saved_user;
    no_saved_token = c.no_saved_token;
    no_saved_conf = c.no_saved_conf;
    no_saved_roles = c.no_saved_roles;
    no_saved_permissions = c.no_saved_permissions;
    no_saved_menus = c.no_saved_menus;
    no_saved_routes = c.no_saved_routes;
  }

  -- A session that is cleared, and what the server was asked.
  abbrev pub Leaves : World I P → List String → World I P → Type 0
  Leaves w asked w' =
      IsCleared w' × (w'.replaced ≡ w.replaced ++ "/login" ∷ []) × (w'.logged_out ≡ asked)

  pub logout-Leaves :
      (clear_remote : Bool) (w : World I P)
      → Leaves w
          (if clear_remote
            then if is_empty (access_token w)
              then w.logged_out
              else w.logged_out ++ access_token w ∷ []
            else w.logged_out)
          (logout is_basic clear_remote w)
  unfolding logout
  logout-Leaves false w = (clear_locally-IsCleared w, refl, refl)
  logout-Leaves true w = remote (is_empty (access_token w))
    where
      remote :
          (b : Bool)
          → Leaves w (if b then w.logged_out else w.logged_out ++ access_token w ∷ []) (
              if not b
              then record (clear_locally is_basic w) {
                logged_out = w.logged_out ++ access_token w ∷ [];
              }
              else clear_locally is_basic w)
      remote true = (clear_locally-IsCleared w, refl, refl)
      remote false = (
        asked-IsCleared (w.logged_out ++ access_token w ∷ []) (clear_locally-IsCleared w),
        refl,
        refl,
      )

  -- Behind `logout` there is no token, user, configuration, role, permission, menu and route of the
  -- user in the stores and in the entries of the cache that the session writes, the router has no
  -- route but the basic ones, the store of the tabs has no open tab, and the router was sent to the
  -- login page; the server was asked to log the token out exactly if there was one and the caller
  -- wanted it. A second logout asks the server for nothing.
  pub logout_lem :
      (clear_remote : Bool) (w : World I P)
      → let w' = logout is_basic clear_remote w in
        IsCleared w'
        × (w'.replaced ≡ w.replaced ++ "/login" ∷ [])
        × (w'.logged_out ≡ (
            if clear_remote
            then if is_empty (access_token w)
              then w.logged_out
              else w.logged_out ++ access_token w ∷ []
            else w.logged_out))
        × ((logout is_basic true w').logged_out ≡ w'.logged_out)
  logout_lem clear_remote w =
      let w' = logout is_basic clear_remote w in
      let (cleared, replaced, asked) = logout-Leaves clear_remote w in
      (
        cleared,
        replaced,
        asked,
        (logout-Leaves true w').2
            ∙ ap (λ t. if is_empty t then w'.logged_out else w'.logged_out ++ t ∷ [])
                cleared.no_token,
      )
