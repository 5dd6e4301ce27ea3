-- ===== src/Http/Query/Back.antt =====
-- utils/index.ts, `setObjToUrlParams`: the query that is added is read back.
use kerthus.Http.Query.Texts.{
  lacks, is_plain, plain_keys, cons_filled, filled, split_on-lacks, split_on-append, lacks-append,
  lacks-drop_last, lacks-ends_in, drop_last-append,
}
use Prim.Native.Char.{Char}
use Prim.Native.String as Text
use mathlib.Core.Path.{ap₂}
use text.Mathlib.TextLemmas.{nil-append, cons-append, append-nil, append_assoc}
use kerthus.Base.{
  ◌≡◌, refl, sym, ap, ◌∙◌, ℕ, String, Bool, true, false, not, ◌&&◌, &&-split, ◌==◌, List, [], ◌∷◌,
  map, is_empty, split_on, arith,
}
use kerthus.Value.{Value, Fields, no_fields, with_field}
use kerthus.Http.Query.{parameters, drop_last, set_obj_to_url_params}

-- `key=value`, and the query of the fields of an object.
abbrev pair : (Value → String) → String → Value → String
pair encode k v = Text.◌++◌ k (Text.◌++◌ "=" (encode v))

abbrev pub query : (Value → String) → Fields → String
query encode f = drop_last b'&' (parameters encode f)

-- The keys with their values in the encoding.
abbrev pub entries : (Value → String) → Fields → List (List String)
entries encode no_fields = []
entries encode (with_field k v f) = (k ∷ encode v ∷ []) ∷ entries encode f

one-append : (c : Char) (t : String) → Text.◌++◌ (String.◌∷◌ c "") t ≡ String.◌∷◌ c t
one-append c t = cons-append c "" t ∙ ap (String.◌∷◌ c) (nil-append t)

parameters-pair :
    (encode : Value → String) (k : String) (v : Value) (f : Fields)
    → parameters encode (with_field k v f)
      ≡ Text.◌++◌ (pair encode k v) (String.◌∷◌ "&" (parameters encode f))
unfolding parameters
parameters-pair encode k v f =
    ap (λ t. Text.◌++◌ k (Text.◌++◌ "=" (Text.◌++◌ (encode v) t)))
      (one-append "&" (parameters encode f))
    ∙ ap (Text.◌++◌ k) (sym (append_assoc "=" (encode v) (String.◌∷◌ "&" (parameters encode f))))
    ∙ sym (append_assoc k (Text.◌++◌ "=" (encode v)) (String.◌∷◌ "&" (parameters encode f)))

query-pair :
    (encode : Value → String) (k : String) (v : Value) (f : Fields)
    → query encode (with_field k v f)
      ≡ Text.◌++◌ (pair encode k v) (drop_last b'&' (String.◌∷◌ "&" (parameters encode f)))
query-pair encode k v f =
    ap (drop_last b'&') (parameters-pair encode k v f)
    ∙ drop_last-append b'&' (pair encode k v) (String.◌∷◌ "&" (parameters encode f))
        (cons_filled "&" (parameters encode f))

query-last :
    (encode : Value → String) (k : String) (v : Value)
    → query encode (with_field k v no_fields) ≡ pair encode k v
unfolding parameters drop_last
query-last encode k v = query-pair encode k v no_fields ∙ append-nil (pair encode k v)

query-next :
    (encode : Value → String) (k : String) (v : Value) (j : String) (w : Value) (f : Fields)
    → query encode (with_field k v (with_field j w f))
      ≡ Text.◌++◌ (pair encode k v) (String.◌∷◌ "&" (query encode (with_field j w f)))
unfolding drop_last
query-next encode k v j w f =
    query-pair encode k v (with_field j w f)
    ∙ ap (Text.◌++◌ (pair encode k v)) (rw (filled_parameters) refl)
  where
    filled_parameters : is_empty (parameters encode (with_field j w f)) ≡ false
    filled_parameters =
        ap is_empty (parameters-pair encode j w f)
        ∙ filled (pair encode j w) (String.◌∷◌ "&" (parameters encode f))
            (cons_filled "&" (parameters encode f))

no_parameters : (encode : Value → String) → lacks b'?' (parameters encode no_fields) ≡ true
unfolding parameters
no_parameters encode = refl

plain-split :
    (s : String)
    → is_plain s ≡ true
    → (lacks b'&' s ≡ true) × (lacks b'?' s ≡ true) × (lacks b'=' s ≡ true)
plain-split s h =
    let (a, b) = &&-split (lacks b'&' s && lacks b'?' s) (lacks b'=' s) h in
    let (c, d) = &&-split (lacks b'&' s) (lacks b'?' s) a in (c, d, b)

module _ (encode : Value → String) (encoded : (v : Value) → is_plain (encode v) ≡ true) where
  split-pair :
      (k : String) (v : Value)
      → is_plain k ≡ true
      → split_on b'=' (pair encode k v) ≡ k ∷ encode v ∷ []
  split-pair k v h =
      ap (λ t. split_on b'=' (Text.◌++◌ k t)) (one-append "=" (encode v))
      ∙ split_on-append b'=' k (encode v) "=" (plain-split k h).2 refl
      ∙ ap (◌∷◌ k) (split_on-lacks b'=' (encode v) (plain-split (encode v) (encoded v)).2)

  pair-lacks :
      (p : ℕ) (k : String) (v : Value)
      → (61 == p) ≡ false
      → lacks p k ≡ true
      → lacks p (encode v) ≡ true
      → lacks p (pair encode k v) ≡ true
  pair-lacks p k v n a b =
      ap (λ t. lacks p (Text.◌++◌ k t)) (one-append "=" (encode v))
      ∙ lacks-append p k (String.◌∷◌ "=" (encode v))
      ∙ both (lacks p k) (61 == p) (lacks p (encode v)) n a b
    where
      both : (x y z : Bool) → y ≡ false → x ≡ true → z ≡ true → (x && (not y && z)) ≡ true
      both x y z h i j = ground (arith, h, i, j)

  split-query :
      (k : String) (v : Value) (f : Fields)
      → plain_keys (with_field k v f) ≡ true
      → map (split_on b'=') (split_on b'&' (query encode (with_field k v f)))
        ≡ entries encode (with_field k v f)
  split-query k v no_fields h =
      let (a, b) = &&-split (is_plain k) true h in
      ap (λ q. map (split_on b'=') (split_on b'&' q)) (query-last encode k v)
      ∙ ap (map (split_on b'=')) (
          split_on-lacks b'&' (pair encode k v)
            (pair-lacks b'&' k v refl (plain-split k a).0 (plain-split (encode v) (encoded v)).0))
      ∙ ap (λ e. e ∷ []) (split-pair k v a)
  split-query k v (with_field j w f) h =
      let (a, b) = &&-split (is_plain k) (plain_keys (with_field j w f)) h in
      ap (λ q. map (split_on b'=') (split_on b'&' q)) (query-next encode k v j w f)
      ∙ ap (map (split_on b'=')) (
          split_on-append b'&' (pair encode k v) (query encode (with_field j w f)) "&"
            (pair-lacks b'&' k v refl (plain-split k a).0 (plain-split (encode v) (encoded v)).0)
            refl)
      ∙ ap₂ (λ e es. e ∷ es) (split-pair k v a) (split-query j w f b)

  parameters-lacks : (f : Fields) → plain_keys f ≡ true → lacks b'?' (parameters encode f) ≡ true
  parameters-lacks no_fields h = no_parameters encode
  parameters-lacks (with_field k v f) h =
      let (a, b) = &&-split (is_plain k) (plain_keys f) h in
      ap (lacks b'?') (parameters-pair encode k v f)
      ∙ lacks-append b'?' (pair encode k v) (String.◌∷◌ "&" (parameters encode f))
      ∙ rw
          (
            pair-lacks b'?' k v refl (plain-split k a).1 (plain-split (encode v) (encoded v)).1,
            parameters-lacks f b,
          )
          refl

-- For a base without a question mark, and keys and encodings without the separators, the addition of at
-- least one field gives the base without a last slash, a question mark and a query whose parts are the
-- keys with their encodings, in the order of the fields.
pub set_obj_to_url_params_lem :
    (encode : Value → String) (base : String) (k : String) (v : Value) (f : Fields)
    → ((w : Value) → is_plain (encode w) ≡ true)
    → lacks b'?' base ≡ true
    → plain_keys (with_field k v f) ≡ true
    → (q : String) × (split_on b'?' (set_obj_to_url_params encode base (with_field k v f))
        ≡ drop_last b'/' base ∷ q ∷ [])
      × (map (split_on b'=') (split_on b'&' q) ≡ entries encode (with_field k v f))
unfolding set_obj_to_url_params
set_obj_to_url_params_lem encode base k v f encoded n h =
    let q = query encode (with_field k v f) in
    let marked =
      ap (λ t. Text.◌++◌ t q) (rw (lacks-ends_in b'?' base n) refl)
      ∙ append_assoc (drop_last b'/' base) "?" q
      ∙ ap (Text.◌++◌ (drop_last b'/' base)) (one-append "?" q) in
    (
      q,
      ap (split_on b'?') marked
          ∙ split_on-append b'?' (drop_last b'/' base) q "?" (lacks-drop_last b'?' b'/' base n) refl
          ∙ ap (λ r. drop_last b'/' base ∷ r)
              (split_on-lacks b'?' q (
                lacks-drop_last b'?' b'&' (parameters encode (with_field k v f))
                  (parameters-lacks encode encoded (with_field k v f) h))),
      split-query encode encoded k v f h,
    )
