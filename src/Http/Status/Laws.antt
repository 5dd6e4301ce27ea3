-- ===== src/Http/Status/Laws.antt =====
-- checkStatus.ts and unauthorized.ts: a late or a repeated failure does not end a session.
use kerthus.Base.{
  ℕ, ◌≡◌, refl, sym, ap, ◌∙◌, subst, ◌⊎◌, inl, inr, String, str_eq, is_empty, Bool, true, false,
  not, ◌||◌, ◌==◌, ==_iff, Bool-cases, eq_iff, List, [], Option, none, some, if◌then◌else◌, arith,
  length, ◌≤◌,
}
use kerthus.Session.{World, access_token, logout}
use kerthus.Session.Logout.{IsCleared, logout_lem}
use kerthus.Http.Status.{
  MessageMode, modal, message, silent, Notice, Sent, notify, err_message, handle_unauthorized,
  is_stale, ended, refuse, check_status, shown, refused,
}

notify-length : (mode : MessageMode) (content key : String) → length (notify mode content key) ≤ 1
notify-length modal content key = omega arith
notify-length message content key = omega arith
notify-length silent content key = omega arith

module _ {I P : Type 0} (t : String → String) (is_basic : String → Bool) where
  by_token :
      (sent : Sent) (msg : String) (mode : MessageMode) (w : World I P)
      → sent.with_token ≡ true
      → handle_unauthorized t is_basic sent msg mode w
        ≡ (if is_stale sent w then (w, []) else ended t is_basic mode w)
  unfolding handle_unauthorized
  by_token sent msg mode w h =
      ap
        (λ b.
          if b
          then if is_stale sent w then (w, []) else ended t is_basic mode w
          else refuse t is_basic msg mode w)
        h

  stale-keeps :
      (sent : Sent) (msg : String) (mode : MessageMode) (w : World I P)
      → sent.with_token ≡ true
      → is_stale sent w ≡ true
      → handle_unauthorized t is_basic sent msg mode w ≡ (w, [])
  stale-keeps sent msg mode w h k =
      by_token sent msg mode w h ∙ ap (λ b. if b then (w, []) else ended t is_basic mode w) k

  -- Behind a logout every token is stale.
  cleared-stale : (sent : Sent) (w : World I P) → IsCleared is_basic w → is_stale sent w ≡ true
  cleared-stale sent w c =
      ap (λ s. is_empty sent.token || not (str_eq sent.token s)) c.no_token
      ∙ either (is_empty sent.token)
    where
      either : (b : Bool) → (b || not b) ≡ true
      either true = refl
      either false = refl

  fresh-token :
      (sent : Sent) (w : World I P) → is_stale sent w ≡ false → sent.token ≡ access_token w
  fresh-token sent w h = (eq_iff sent.token (access_token w)).0 (ground arith)

  -- A response that is not authorized ends the session only if its request was sent with the token that
  -- the session has now; else, where requests have tokens, it changes nothing and shows nothing. If it
  -- ends the session, this is cleared as by a logout that does not ask the server. Whatever it was, a
  -- further failure of a request with the same token changes and shows nothing.
  pub handle_unauthorized_lem :
      (sent : Sent) (msg later_msg : String) (mode later_mode : MessageMode) (w : World I P)
      → sent.with_token ≡ true
      → let r = handle_unauthorized t is_basic sent msg mode w in
        (((is_stale sent w ≡ true) × (r ≡ (w, [])))
          ⊎ ((sent.token ≡ access_token w)
              × IsCleared is_basic r.0
              × (r.0.logged_out ≡ w.logged_out)
              × (r.1 ≡ notify mode (t "sys.api.timeoutMessage") "global_error_message_status_401")))
        × (handle_unauthorized t is_basic sent later_msg later_mode r.0 ≡ (r.0, []))
  handle_unauthorized_lem sent msg later_msg mode later_mode w h =
      elim (Bool-cases (is_stale sent w)) [
        | inl k ↦
            let e = stale-keeps sent msg mode w h k in
            (
              inl (k, e),
              subst (λ r. handle_unauthorized t is_basic sent later_msg later_mode r.0 ≡ (r.0, []))
                  (sym e) (stale-keeps sent later_msg later_mode w h k),
            )
        | inr k ↦
            let e =
              by_token sent msg mode w h
              ∙ ap (λ b. if b then (w, []) else ended t is_basic mode w) k in
            let (c, _, asked, _) = logout_lem is_basic false w in
            let v = logout is_basic false w in
            (
              inr (
                fresh-token sent w k,
                subst (λ r. IsCleared is_basic r.0) (sym e) c,
                ap (λ r. r.0.logged_out) e ∙ asked,
                ap (λ r. r.1) e,
              ),
              subst (λ r. handle_unauthorized t is_basic sent later_msg later_mode r.0 ≡ (r.0, []))
                  (sym e) (stale-keeps sent later_msg later_mode v h (cleared-stale sent v c)),
            )
      ]

  -- The session of a call of `checkStatus`, in its result.
  abbrev Judged : Sent → Option ℕ → World I P → Bool × World I P × List Notice → Type 0
  Judged sent status w r =
      (length r.2 ≤ 1)
      × (r.0 ≡ true → (r.1 ≡ w) × (r.2 ≡ []))
      × ((r.1 ≡ w) ⊎ ((status ≡ some 401) × (sent.with_token ≡ true) × (is_stale sent w ≡ false)))

  module _ (digits : ℕ → String) where
    shown-Judged :
        (sent : Sent) (o : Option ℕ) (status : ℕ) (err : String) (mode : MessageMode)
        (w : World I P)
        → Judged sent o w (shown t is_basic digits status err mode w)
    shown-Judged sent o status err mode w = elim (Bool-cases (is_empty err)) [
      | inl e ↦ rw e (omega arith, (λ h. (refl, refl)), inl refl)
      | inr e ↦ rw e (notify-length mode err _, (λ h. cc), inl refl)
    ]

    refused-Judged :
        (sent : Sent) (msg : String) (mode : MessageMode) (w : World I P)
        → Judged sent
            (some 401)
            w
            (refused t is_basic digits (handle_unauthorized t is_basic sent msg mode w))
    unfolding handle_unauthorized
    refused-Judged sent msg mode w = judged sent.with_token (is_stale sent w) refl refl
      where
        judged :
            (a b : Bool)
            → sent.with_token ≡ a
            → is_stale sent w ≡ b
            → Judged sent (some 401) w (
                refused t is_basic digits (
                  if a
                  then if b then (w, []) else ended t is_basic mode w
                  else refuse t is_basic msg mode w))
        judged true true e f = (omega arith, (λ h. cc), inl refl)
        judged true false e f =
            (notify-length mode (t "sys.api.timeoutMessage") _, (λ h. cc), inr (refl, e, f))
        judged false b e f = (notify-length mode _ _, (λ h. cc), inl refl)

    -- `checkStatus` shows one notice at most. Where it answers true it shows nothing and leaves the
    -- session as it is; it changes the session only for the status 401 of a request that was sent with
    -- the token of the session.
    pub check_status_lem :
        (sent : Sent) (status : Option ℕ) (msg : String) (mode : MessageMode) (w : World I P)
        → let r = check_status t is_basic digits sent status msg mode w in
          (length r.2 ≤ 1)
          × (r.0 ≡ true → (r.1 ≡ w) × (r.2 ≡ []))
          × ((r.1 ≡ w)
              ⊎ ((status ≡ some 401) × (sent.with_token ≡ true) × (is_stale sent w ≡ false)))
    unfolding check_status
    check_status_lem sent none msg mode w = (omega arith, (λ h. (refl, refl)), inl refl)
    check_status_lem sent (some status) msg mode w = elim (Bool-cases (status == 401)) [
      | inl e ↦
          subst
            (λ b. Judged sent (some status) w (
              if b
              then refused t is_basic digits (handle_unauthorized t is_basic sent msg mode w)
              else shown t is_basic digits status (err_message t status msg) mode w))
            (sym e)
            (subst
              (λ n.
                Judged sent (some n) w
                  (refused t is_basic digits (handle_unauthorized t is_basic sent msg mode w)))
              (sym ((==_iff status 401).0 e)) (refused-Judged sent msg mode w))
      | inr e ↦
          subst
            (λ b. Judged sent (some status) w (
              if b
              then refused t is_basic digits (handle_unauthorized t is_basic sent msg mode w)
              else shown t is_basic digits status (err_message t status msg) mode w))
            (sym e) (shown-Judged sent (some status) status (err_message t status msg) mode w)
    ]
