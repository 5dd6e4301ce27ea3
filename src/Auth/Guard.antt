-- ===== src/Auth/Guard.antt =====
-- permissionGuard.ts, the hook `beforeEach` of the router.
use kerthus.Base.{
  ◌≡◌, sym, subst, refl, ◌⊎◌, inl, inr, String, str_eq, Bool, true, false, Bool-cases, Option, none,
  some, or_text, arith, if◌then◌else◌, is_empty,
}

-- The route `to`; `redirect` is `to.query.redirect`, "" where it is missing.
pub record Target : Type 0 where
  pub path : String
  pub full_path : String
  pub name : String
  pub ignore_auth : Bool
  pub redirect : String

-- What the guard reads of the stores: `has_token` says that the object of the token has keys, and
-- `fetched` that the time of the last update is not 0.
pub record Session : Type 0 where
  pub has_token : Bool
  pub has_access_token : Bool
  pub session_timeout : Bool
  pub dynamic_added : Bool
  pub fetched : Bool
  pub home : String

-- The argument of `next`.
pub data Next : Type 0 where
  pass abort login_again : Next
  go_path : String → Next
  to_login : (redirect : Option String) → Next
  replace_path : (path : String) → (with_query : Bool) → Next
  replace_target : Next
  redirect_path : String → Next

-- How a call of the server ends: with an answer, or rejected, where the session may have been left,
-- as the hooks of the failed responses do.
pub data Reply : Type 0 where
  ok : String → Reply
  failed : Session → Reply

abbrev pub Call : Type 0
Call = Session → Reply

abbrev pub is_login : Target → Bool
is_login to = str_eq to.path "/login"

-- The end of `getUserAuthAction`, with the home page of the answer.
abbrev authorized : Reply → Session → Bool × Session
authorized (ok home) s =
    (true, record s { home = home; dynamic_added = true; session_timeout = false })
authorized (failed s') s = (false, s')

-- The end of `getUserInfoAction`.
abbrev informed : Reply → Session → Bool × Session
informed (ok name) s = (true, record s { fetched = true })
informed (failed s') s = (false, s')

abbrev then_user : Call → Bool × Session → Bool × Session
then_user get_user (false, s) = (false, s)
then_user get_user (true, s) = if s.fetched then (true, s) else informed (get_user s) s

-- The body of the `try`: whether it ends without an exception.
abbrev load : Call → Call → Session → Bool × Session
load get_auth get_user s = then_user get_user (authorized (get_auth s) s)

-- `from_redirect` is `from.query.redirect`, `is_missing` says that the router resolves a path to the
-- page that is not found, and `decode` is `decodeURIComponent`.
module _ (get_auth get_user : Call) (is_missing : String → Bool) (decode : String → String) where
  -- Behind the catch: the routes have been added, or not.
  unfoldable pub enter : Target → String → Session → Next
  enter to from_redirect s =
      let redirect = decode (or_text from_redirect to.path) in
      let path = if is_missing to.full_path then s.home else to.full_path in
      if s.dynamic_added
      then if str_eq to.name "PageNotFound"
        then replace_path path (str_eq path to.full_path)
        else if str_eq to.path redirect
        then replace_target
        else redirect_path redirect
      else pass

  unfoldable pub after_load : Target → String → Bool × Session → Next × Session
  after_load to from_redirect (true, s) = (enter to from_redirect s, s)
  after_load to from_redirect (false, s) = (if s.has_access_token then abort else login_again, s)

  unfoldable pub guard : Target → String → Session → Next × Session
  guard to from_redirect s =
      let home = go_path (or_text to.redirect s.home) in
      let loaded = after_load to from_redirect (load get_auth get_user s) in
      if is_login to
      then if s.has_token then if s.session_timeout then (pass, s) else (home, s) else (pass, s)
      else if s.has_token
      then if s.dynamic_added then (pass, s) else loaded
      else if to.ignore_auth
      then (pass, s)
      else (to_login (if is_empty to.path then none else some to.path), s)

  -- The navigation goes to the page that it was started for.
  abbrev pub Admits : Next → Type 0
  Admits n = (n ≡ pass) ⊎ (n ≡ replace_target)

  Admits-to_login : (o : Option String) → Admits (to_login o) → ⊥
  Admits-to_login o (inl e) = cc
  Admits-to_login o (inr e) = cc

  Admits-failed : (b : Bool) → Admits (if b then abort else login_again) → ⊥
  Admits-failed true (inl e) = cc
  Admits-failed true (inr e) = cc
  Admits-failed false (inl e) = cc
  Admits-failed false (inr e) = cc

  -- The routes have been added if the calls succeed.
  abbrev IsReady : Bool × Session → Type 0
  IsReady r = r.0 ≡ true → r.1.dynamic_added ≡ true

  authorized-IsReady : (r : Reply) (s : Session) → IsReady (authorized r s)
  authorized-IsReady (ok home) s e = refl
  authorized-IsReady (failed s') s e = cc

  informed-IsReady : (r : Reply) (s : Session) → s.dynamic_added ≡ true → IsReady (informed r s)
  informed-IsReady (ok home) s d e = d
  informed-IsReady (failed s') s d e = cc

  either-IsReady :
      (b : Bool) (x y : Bool × Session) → IsReady x → IsReady y → IsReady (if b then x else y)
  either-IsReady true x y f g = f
  either-IsReady false x y f g = g

  then_user-IsReady : (r : Bool × Session) → IsReady r → IsReady (then_user get_user r)
  then_user-IsReady (false, s) f = λ e. cc
  then_user-IsReady (true, s) f =
      either-IsReady s.fetched (true, s) (informed (get_user s) s) f
        (informed-IsReady (get_user s) s (f refl))

  after_load-Admits :
      (to : Target) (from_redirect : String) (r : Bool × Session)
      → IsReady r
      → Admits (after_load to from_redirect r).0
      → (after_load to from_redirect r).1.dynamic_added ≡ true
  unfolding after_load
  after_load-Admits to from_redirect (true, s) f a = f refl
  after_load-Admits to from_redirect (false, s) f a = absurd (Admits-failed s.has_access_token a)

  loaded-Admits :
      (to : Target) (from_redirect : String) (s : Session)
      → is_login to ≡ false
      → s.has_token ≡ true
      → s.dynamic_added ≡ false
      → Admits (guard to from_redirect s).0
      → (guard to from_redirect s).1.dynamic_added ≡ true
  unfolding guard
  loaded-Admits to from_redirect s l t d =
      let g : guard to from_redirect s ≡ after_load to from_redirect (load get_auth get_user s) =
        ground arith in
      subst (λ r. Admits r.0 → r.1.dynamic_added ≡ true) (sym g)
        (after_load-Admits to from_redirect (load get_auth get_user s)
          (then_user-IsReady (authorized (get_auth s) s) (authorized-IsReady (get_auth s) s)))

  -- The guard lets a navigation go on to its page only for the login page, without a token for a page
  -- that ignores the authorization, or with a token when the authorized routes have been added.
  pub guard-Admits :
      (to : Target) (from_redirect : String) (s : Session)
      → Admits (guard to from_redirect s).0
      → (is_login to ≡ true)
        ⊎ ((s.has_token ≡ false) × (to.ignore_auth ≡ true))
        ⊎ ((s.has_token ≡ true) × ((guard to from_redirect s).1.dynamic_added ≡ true))
  unfolding guard
  guard-Admits to from_redirect s a = elim (Bool-cases (is_login to)) [
    | inl l ↦ inl l
    | inr l ↦ elim (Bool-cases s.has_token) [
      | inr t ↦ elim (Bool-cases to.ignore_auth) [
        | inl i ↦ inr (inl (t, i))
        | inr i ↦ absurd (Admits-to_login _ (rw (l, t, i) at a))
      ]
      | inl t ↦ elim (Bool-cases s.dynamic_added) [
        | inl d ↦ inr (inr (t, rw (l, t, d) refl))
        | inr d ↦ inr (inr (t, loaded-Admits to from_redirect s l t d a))
      ]
    ]
  ]
