-- ===== src/Session/Login/Laws.antt =====
-- The session behind a login, and behind an answer that comes too late.
use kerthus.Base.{
  ℕ, ◌≡◌, refl, sym, ap, ◌∙◌, subst, String, is_empty, or_text, Bool, true, false, List, [], ◌∷◌,
  ◌++◌, some, if◌then◌else◌,
}
use kerthus.Tree.{Forest}
use kerthus.Session.Home.{Route, authorized_home, IsLanding-nonempty}
use kerthus.Session.Home.Shown.{authorized_home_lem}
use kerthus.Session.{World, Token, access_token, get_home_page, set_session_timeout, logout}
use kerthus.Session.Logout.{logout-Leaves}
use kerthus.Session.Login.{
  AuthInfo, login, login_answered, user_info_answered, auth_answered, clear_timeout, add_routes,
  go_home_page, set_auth_info,
}

home_lem :
    (upper external_url : String → String) (a : AuthInfo) (page : String)
    → or_text (authorized_home upper external_url a.routes a.home) page
      ≡ authorized_home upper external_url a.routes a.home
home_lem upper external_url a page =
    let l = (authorized_home_lem upper external_url a.routes a.home).0 in
    rw
      (IsLanding-nonempty upper external_url (authorized_home upper external_url a.routes a.home) l)
      refl

module _ {I P : Type 0} (upper external_url : String → String)
    (build : Forest Route → List String) where
  -- The actions that leave out what is so already.
  clear_timeout-set : (w : World I P) → clear_timeout w ≡ set_session_timeout false w
  clear_timeout-set w = cleared w.user.session_timeout refl
    where
      cleared :
          (b : Bool)
          → w.user.session_timeout ≡ b
          → (if b then set_session_timeout false w else w) ≡ set_session_timeout false w
      cleared true e = refl
      cleared false e = λ i. record w { user = record w.user { session_timeout = e i } }

  abbrev all_routes : World I P → List String
  all_routes w =
      if w.permission.is_dynamic_added_route
      then w.router_routes
      else w.router_routes ++ (build w.permission.routes ++ "ErrorLog" ∷ [])

  abbrev with_routes : World I P → World I P
  with_routes w = record w {
    router_routes = all_routes w;
    permission = record w.permission { is_dynamic_added_route = true };
  }

  add_routes-set : (w : World I P) → add_routes upper external_url build w ≡ with_routes w
  add_routes-set w = added w.permission.is_dynamic_added_route refl
    where
      added :
          (b : Bool)
          → w.permission.is_dynamic_added_route ≡ b
          → (if b then w else record w {
            router_routes = w.router_routes ++ (build w.permission.routes ++ "ErrorLog" ∷ []);
            permission = record w.permission { is_dynamic_added_route = true };
          })
            ≡ record w {
              router_routes =
                  if b
                  then w.router_routes
                  else w.router_routes ++ (build w.permission.routes ++ "ErrorLog" ∷ []);
              permission = record w.permission { is_dynamic_added_route = true };
            }
      added true e =
          λ i. record w { permission = record w.permission { is_dynamic_added_route = e i } }
      added false e = refl

  abbrev at_home : Bool → World I P → World I P
  at_home go_home w = record w {
    replaced = if go_home then w.replaced ++ get_home_page w ∷ [] else w.replaced;
  }

  go_home_page-set :
      (go_home : Bool) (w : World I P)
      → go_home_page upper external_url build go_home w ≡ at_home go_home w
  go_home_page-set true w = refl
  go_home_page-set false w = refl

  abbrev settled : ℕ → AuthInfo → Bool → World I P → World I P
  settled now a go_home w =
      at_home go_home
        (set_session_timeout false (with_routes (set_auth_info upper external_url build now a w)))

  pub auth_answered-set :
      (now : ℕ) (a : AuthInfo) (go_home : Bool) (w : World I P)
      → auth_answered upper external_url build now a go_home w ≡ settled now a go_home w
  unfolding auth_answered
  auth_answered-set now a go_home w =
      let u = set_auth_info upper external_url build now a w in
      go_home_page-set go_home (clear_timeout (add_routes upper external_url build u))
      ∙ ap (at_home go_home) (
          clear_timeout-set (add_routes upper external_url build u)
          ∙ ap (set_session_timeout false) (add_routes-set u))

  -- The session of the token `t`, of the user and with the rights of `a`.
  pub record IsLoggedIn (t : Token I) (name : String) (a : AuthInfo) (w : World I P) : Type 0 where
    pub its_token : access_token w ≡ t.access_token
    pub its_user : w.user.user_info ≡ some name
    pub its_roles : w.permission.roles ≡ a.roles
    pub its_permissions : w.permission.permissions ≡ a.permissions
    pub its_menus : w.permission.menus ≡ a.menus
    pub its_routes : w.permission.routes ≡ a.routes
    pub its_admin : w.permission.platform_admin ≡ a.platform_admin
    pub added : w.permission.is_dynamic_added_route ≡ true
    pub no_timeout : w.user.session_timeout ≡ false
    pub its_home : get_home_page w ≡ authorized_home upper external_url a.routes a.home

  -- A login that the server answers ends without an exception, with the token, the user, the rights,
  -- the menus and the routes of the answers. What is built of these routes, and the page of errors,
  -- is added to the router behind the routes that it has, unless the session's routes were added
  -- before. The home page is the one of `authorizedHome`, and the router was sent there exactly if the
  -- caller asked for it.
  pub login_lem :
      (now : ℕ) (t : Token I) (name : String) (a : AuthInfo) (go_home : Bool) (w : World I P)
      → let r = login upper external_url build now (some t) (some name) (some a) go_home w in
        (r.0 ≡ true)
        × IsLoggedIn t name a r.1
        × (r.1.router_routes ≡ (
            if w.permission.is_dynamic_added_route
            then w.router_routes
            else w.router_routes ++ (build a.routes ++ "ErrorLog" ∷ [])))
        × (r.1.replaced ≡ (
            if go_home
            then w.replaced ++ authorized_home upper external_url a.routes a.home ∷ []
            else w.replaced))
  unfolding login login_answered user_info_answered
  login_lem now t name a go_home w =
      let v = user_info_answered now name (login_answered t w) in
      let e =
        auth_answered-set now a go_home (clear_timeout v)
        ∙ ap (settled now a go_home) (clear_timeout-set v) in
      let home =
        home_lem upper external_url a
          (if is_empty t.access_token then "/login" else "/profile/setting") in
      (
        refl,
        subst (IsLoggedIn t name a) (sym e) (record {
          its_token = refl;
          its_user = refl;
          its_roles = refl;
          its_permissions = refl;
          its_menus = refl;
          its_routes = refl;
          its_admin = refl;
          added = refl;
          no_timeout = refl;
          its_home = home;
        }),
        ap (λ r. r.router_routes) e,
        ap (λ r. r.replaced) e
            ∙ ap (λ p. if go_home then w.replaced ++ p ∷ [] else w.replaced) home,
      )

  -- Where the answer of `getUserAuthAction` comes behind a logout, its rights and its routes are there
  -- without a token: the administrator is one, the codes are the user's, and the routes are added.
  pub auth_answered-logout :
      (is_basic : String → Bool) (clear_remote : Bool) (now : ℕ) (a : AuthInfo) (go_home : Bool)
      (w : World I P)
      → let w' =
          auth_answered upper external_url build now a go_home (logout is_basic clear_remote w) in
        (access_token w' ≡ "")
        × (w'.permission.permissions ≡ a.permissions)
        × (w'.permission.platform_admin ≡ a.platform_admin)
        × (w'.permission.is_dynamic_added_route ≡ true)
        × (w'.router_routes
            ≡ (logout is_basic clear_remote w).router_routes ++ (build a.routes ++ "ErrorLog" ∷ []))
  auth_answered-logout is_basic clear_remote now a go_home w =
      let v = logout is_basic clear_remote w in
      let c = (logout-Leaves is_basic clear_remote w).0 in
      let e = auth_answered-set now a go_home v in
      (
        ap access_token e ∙ c.no_token,
        ap (λ r. r.permission.permissions) e,
        ap (λ r. r.permission.platform_admin) e,
        ap (λ r. r.permission.is_dynamic_added_route) e,
        ap (λ r. r.router_routes) e
            ∙ ap
                (λ b.
                  if b
                  then v.router_routes
                  else v.router_routes ++ (build a.routes ++ "ErrorLog" ∷ []))
                c.not_added,
      )
