-- ===== src/Http/Cancel.antt =====
-- axiosCancel.ts: the pending requests by method and address, of which there is one for each.
-- A canceler is the number of its token; what is cancelled is listed in the order of the calls.
use Prim.Native.String.{◌++◌ as text_append}
use kerthus.Base.{
  ℕ, suc, ◌≡◌, ◌≢◌, refl, sym, ap, subst, ◌∙◌, String, str_eq_ne, List, [], ◌∷◌, ◌++◌, Option, none,
  some, is_some, map, if◌then◌else◌, lookup, put, erase, lookup-put_self, lookup-put_ne,
  lookup-erase_self, lookup-erase_ne,
}

-- `AxiosRequestConfig`; a text is "" where the field is missing.
pub record Config : Type 0 where
  pub method : String
  pub url : String
  pub cancel_token : Option ℕ

-- `pendingMap`, with the cancelled tokens and the number of the next token of axios.
pub record Pending : Type 0 where
  pub pending_map : List (String × ℕ)
  pub cancelled : List ℕ
  pub next_token : ℕ

unfoldable pub get_pending_url : Config → String
get_pending_url c = text_append c.method (text_append "&" c.url)

-- `cancel && cancel(url)`
abbrev pub cancel_all : Option ℕ → List ℕ → List ℕ
cancel_all none cancelled = cancelled
cancel_all (some i) cancelled = cancelled ++ i ∷ []

remove_pending : Config → Pending → Pending
remove_pending c p =
    let url = get_pending_url c in
    record p {
      pending_map = erase url p.pending_map;
      cancelled = cancel_all (lookup url p.pending_map) p.cancelled;
    }

-- `new axios.CancelToken(executor)`: the executor registers the canceler if none is pending.
abbrev new_token : String → Pending → Pending
new_token url p = record p {
  pending_map =
      if is_some (lookup url p.pending_map)
      then p.pending_map
      else put url p.next_token p.pending_map;
  next_token = suc p.next_token;
}

-- `config.cancelToken || new axios.CancelToken(…)`, from the token of the configuration.
with_token : Option ℕ → Config → Pending → Config × Pending
with_token (some i) c p = (c, p)
with_token none c p =
    (record c { cancel_token = some p.next_token }, new_token (get_pending_url c) p)

-- The answer is the configuration behind the write to `cancelToken`, and the map.
pub add_pending : Config → Pending → Config × Pending
add_pending c p = with_token c.cancel_token c (remove_pending c p)

remove_all_pending : Pending → Pending
remove_all_pending p = record p {
  pending_map = [];
  cancelled = p.cancelled ++ map (λ e. e.1) p.pending_map;
}

pub reset : Pending → Pending
reset p = record p { pending_map = [] }

-- What `addPending` leaves of a request without a token.
abbrev Sent : Config → Config × Pending → Pending → Type 0
Sent c r p =
    (r.0 ≡ record c { cancel_token = some p.next_token })
    × (r.1 ≡ record {
      pending_map = put (get_pending_url c) p.next_token (erase (get_pending_url c) p.pending_map);
      cancelled = cancel_all (lookup (get_pending_url c) p.pending_map) p.cancelled;
      next_token = suc p.next_token;
    })

add_pending-Sent : (c : Config) (p : Pending) → c.cancel_token ≡ none → Sent c (add_pending c p) p
unfolding add_pending remove_pending with_token
add_pending-Sent c p n =
    subst (λ o. Sent c (with_token o c (remove_pending c p)) p) (sym n)
      (refl, rw (lookup-erase_self (get_pending_url c) p.pending_map) refl)

get_pending_url-token :
    (c : Config) (o : Option ℕ)
    → get_pending_url (record c { cancel_token = o }) ≡ get_pending_url c
unfolding get_pending_url
get_pending_url-token c o = refl

-- Behind `addPending` of a request without a token, the request is the pending one of its method and
-- address, the one that was pending there is cancelled, and no other one is; and what is pending
-- at another method or address stays so.
pub add_pending_lem :
    (c : Config) (p : Pending) (url : String)
    → c.cancel_token ≡ none
    → get_pending_url c ≢ url
    → ((add_pending c p).0.cancel_token ≡ some p.next_token)
      × (lookup (get_pending_url c) (add_pending c p).1.pending_map ≡ some p.next_token)
      × ((add_pending c p).1.cancelled
          ≡ cancel_all (lookup (get_pending_url c) p.pending_map) p.cancelled)
      × (lookup url (add_pending c p).1.pending_map ≡ lookup url p.pending_map)
add_pending_lem c p url n ne =
    let (e, f) = add_pending-Sent c p n in
    let k = get_pending_url c in
    let apart = str_eq_ne k url ne in
    (
      ap (λ x. x.cancel_token) e,
      ap (λ x. lookup k x.pending_map) f ∙ lookup-put_self k p.next_token (erase k p.pending_map),
      ap (λ x. x.cancelled) f,
      ap (λ x. lookup url x.pending_map) f
          ∙ lookup-put_ne k url p.next_token (erase k p.pending_map) apart
          ∙ lookup-erase_ne k url p.pending_map apart,
    )

resent :
    (c : Config) (p : Pending) (i : ℕ)
    → c.cancel_token ≡ some i
    → lookup (get_pending_url c) p.pending_map ≡ some i
    → (add_pending c p).1.cancelled ≡ p.cancelled ++ i ∷ []
unfolding add_pending remove_pending with_token
resent c p i t g =
    subst (λ o. (with_token o c (remove_pending c p)).1.cancelled ≡ p.cancelled ++ i ∷ []) (sym t)
      (ap (λ o. cancel_all o p.cancelled) g)

-- A request that is sent again with the token of its first sending, while it is pending, cancels this
-- token: so does a retry, since a failure does not take the request out of those pending.
pub add_pending_again :
    (c : Config) (p : Pending)
    → c.cancel_token ≡ none
    → (add_pending (add_pending c p).0 (add_pending c p).1).1.cancelled
      ≡ (add_pending c p).1.cancelled ++ p.next_token ∷ []
add_pending_again c p n =
    let (e, f) = add_pending-Sent c p n in
    let k = get_pending_url c in
    let g : lookup (get_pending_url (add_pending c p).0) (add_pending c p).1.pending_map
        ≡ some p.next_token =
      ap (λ x. lookup (get_pending_url x) (add_pending c p).1.pending_map) e
      ∙ ap (λ u. lookup u (add_pending c p).1.pending_map)
          (get_pending_url-token c (some p.next_token))
      ∙ ap (λ x. lookup k x.pending_map) f
      ∙ lookup-put_self k p.next_token (erase k p.pending_map) in
    resent (add_pending c p).0 (add_pending c p).1 p.next_token (ap (λ x. x.cancel_token) e) g
