-- ===== src/Http/Response/Laws.antt =====
-- index.ts of utils/http/axios: when data is handed over, and when a request is sent again.
use kerthus.Base.{
  ℕ, ◌≡◌, ◌≢◌, refl, sym, ap, ◌∙◌, subst, ◌⊎◌, inl, inr, String, is_empty, or_text, Bool, true,
  false, not, ◌&&◌, &&-split, List, [], Option, none, some, if◌then◌else◌,
}
use kerthus.Session.{World}
use kerthus.Http.ErrorLog.{ErrorLog, add_ajax_error_info}
use kerthus.Http.Status.{Notice, Sent, notify, check_status}
use kerthus.Http.Status.Laws.{check_status_lem}
use kerthus.Http.Response.{
  Code, success, timeout, other, Body, Options, Outcome, native, body, result, thrown, Failure,
  Caught, notify_success, by_code, transformed, transform_response_hook, connection_message,
  checked, only_notify, response_interceptors_catch,
}

no_success :
    {D : Type 0} (a : Body D) (c : Code)
    → a.code ≡ c
    → c ≢ success
    → (b : Body D) → some a ≡ some b
    → b.code ≢ success
no_success a c e n b f g = let q : a ≡ b = cc f in n (sym e ∙ ap (λ x. x.code) q ∙ g)

module _ {I P D : Type 0} (t : String → String) (is_basic : String → Bool) where
  -- What the hook makes of an answer that it transforms.
  abbrev Handed :
      Options → Option (Body D) → World I P → Outcome D × World I P × List Notice → Type 0
  Handed o b w r =
      ((a : Body D) × (b ≡ some a)
        × (a.code ≡ success)
        × (r.0 ≡ result a.value)
        × (r.1 ≡ w)
        × (r.2
            ≡ notify_success o.success_message_mode (or_text a.msg (t "sys.api.operationSuccess"))))
      ⊎ (((a : Body D) → b ≡ some a → a.code ≢ success) × ((s : String) × (r.0 ≡ thrown s)))

  by_code-Handed :
      (o : Options) (sent : Sent) (c : Code) (a : Body D) (w : World I P)
      → a.code ≡ c
      → Handed o (some a) w (by_code t is_basic o sent c a w)
  by_code-Handed o sent success a w e = inl (a, refl, e, refl, refl, refl)
  by_code-Handed o sent timeout a w e = inr (no_success a _ e (λ h. cc), (_, refl))
  by_code-Handed o sent other a w e = inr (no_success a _ e (λ h. cc), (_, refl))

  transformed-Handed :
      (o : Options) (sent : Sent) (b : Option (Body D)) (w : World I P)
      → Handed o b w (transformed t is_basic o sent b w)
  transformed-Handed o sent none w = inr ((λ a f. cc), (_, refl))
  transformed-Handed o sent (some a) w = by_code-Handed o sent a.code a w refl

  -- Where a response is to be transformed, the data of its body is handed over exactly if there is a
  -- body with the code of success: the session is as it was, and the message of the body is shown, or
  -- the general one where it is missing, in the way that was asked for. In all other cases the hook
  -- throws.
  pub transform_response_hook_lem :
      (o : Options) (sent : Sent) (b : Option (Body D)) (w : World I P)
      → o.is_return_native_response ≡ false
      → o.is_transform_response ≡ true
      → let r = transform_response_hook t is_basic o sent b w in
        ((a : Body D) × (b ≡ some a)
          × (a.code ≡ success)
          × (r.0 ≡ result a.value)
          × (r.1 ≡ w)
          × (r.2
              ≡ notify_success o.success_message_mode
                  (or_text a.msg (t "sys.api.operationSuccess"))))
        ⊎ (((a : Body D) → b ≡ some a → a.code ≢ success) × ((s : String) × (r.0 ≡ thrown s)))
  unfolding transform_response_hook
  transform_response_hook_lem o sent b w h k =
      let e : transform_response_hook t is_basic o sent b w ≡ transformed t is_basic o sent b w =
        ap
          (λ x.
            if x
            then (native, w, [])
            else if not o.is_transform_response
            then (body b, w, [])
            else transformed t is_basic o sent b w)
          h
        ∙ ap (λ x. if not x then (body b, w, []) else transformed t is_basic o sent b w) k in
      subst (Handed o b w) (sym e) (transformed-Handed o sent b w)

module _ {I P : Type 0} (t : String → String) (is_basic : String → Bool) (digits : ℕ → String) where
  abbrev Resent : Failure → ErrorLog → World I P → Caught I P → Type 0
  Resent f log w r =
      (r.log ≡ log)
      × (r.is_retried ≡ true
          → (f.is_get ≡ true)
            × (f.is_open_retry ≡ true)
            × (f.is_cancel ≡ false)
            × (is_empty (connection_message t f) ≡ true)
            × (r.notices ≡ [])
            × (r.world ≡ w))

  checked-Resent :
      (f : Failure) (log : ErrorLog) (w : World I P)
      → f.is_cancel ≡ false
      → is_empty (connection_message t f) ≡ true
      → Resent f log w (
          checked t is_basic digits f log
            (check_status t is_basic digits f.sent f.status f.msg f.error_message_mode w))
  checked-Resent f log w c e =
      let r = check_status t is_basic digits f.sent f.status f.msg f.error_message_mode w in
      let (_, quiet, _) =
        check_status_lem t is_basic digits f.sent f.status f.msg f.error_message_mode w in
      (
        refl,
        λ h.
            let (ok, both) = &&-split r.0 (f.is_get && f.is_open_retry) h in
            let (get, open_retry) = &&-split f.is_get f.is_open_retry both in
            let (same, none_shown) = quiet ok in (get, open_retry, c, e, none_shown, same),
      )

  caught-Resent :
      (f : Failure) (log : ErrorLog) (w : World I P) (c e : Bool)
      → f.is_cancel ≡ c
      → is_empty (connection_message t f) ≡ e
      → Resent f log w (
          if c
          then only_notify t is_basic digits log w []
          else if e
          then checked t is_basic digits f log
              (check_status t is_basic digits f.sent f.status f.msg f.error_message_mode w)
          else only_notify t is_basic digits log w
              (notify f.error_message_mode (connection_message t f) ""))
  caught-Resent f log w true e p q = (refl, λ h. cc)
  caught-Resent f log w false true p q = checked-Resent f log w p q
  caught-Resent f log w false false p q = (refl, λ h. cc)

  -- A request is sent again behind a failure only if it is a GET request with the retries open that was
  -- not cancelled, where the failure is none of the connection and its status shows no notice; then
  -- nothing was shown, and the session is as it was. The failure is logged in any case.
  pub response_interceptors_catch_lem :
      (handle : Bool) (now : ℕ) (f : Failure) (s : ErrorLog) (w : World I P)
      → let r = response_interceptors_catch t is_basic digits handle now f s w in
        (r.log ≡ add_ajax_error_info handle now f.message f.response s)
        × (r.is_retried ≡ true
            → (f.is_get ≡ true)
              × (f.is_open_retry ≡ true)
              × (f.is_cancel ≡ false)
              × (is_empty (connection_message t f) ≡ true)
              × (r.notices ≡ [])
              × (r.world ≡ w))
  unfolding response_interceptors_catch
  response_interceptors_catch_lem handle now f s w =
      caught-Resent f (add_ajax_error_info handle now f.message f.response s) w f.is_cancel
        (is_empty (connection_message t f)) refl refl
