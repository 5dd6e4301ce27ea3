-- ===== src/Form/Events/Appended.antt =====
-- useFormEvents.ts, `appendSchemaByField`: a schema is put behind the one of a field, and the watcher
-- of the schemas in BasicForm.vue runs.
use kerthus.Base.{
  ◌≡◌, refl, subst, ◌⊎◌, ap, ◌∙◌, inl, inr, ℕ, suc, String, str_eq, eq_iff, is_empty, Bool, true,
  false, not, ◌&&◌, ◌||◌, Bool-cases, List, [], ◌∷◌, ◌++◌, map, take, drop, Option, some,
  find_index, any, filter, includes, arith,
}
use kerthus.Value.{Fields, no_fields, get, is_text}
use kerthus.Form.Values.{field_of}
use kerthus.Form.Events.{
  Env, Form, is_field, is_date_component, has_dot, get_schema, fields_of, set_fields_value,
}
use kerthus.Form.Events.Schemas.{
  get_fields_value, default_values, with_defaults, set_default_value, then_schemas, has_prefix,
  is_prefix, append_at, append_schema_by_field,
}
use kerthus.Form.Events.Basic.{Basic, schema_changed}
use kerthus.Form.Events.Kept.{set_fields_value_lem}

includes-filter :
    (k : String) (p : String → Bool) (ks : List String)
    → includes k ks ≡ false
    → includes k (filter p ks) ≡ false
includes-filter k p [] n = refl
includes-filter k p (q ∷ ks) n = ground (arith, includes-filter k p ks)

apart : (b : Bool) → b ≡ false → b ≡ true → ⊥
apart b e h = cc

other_head :
    (k t : String) (ts : List String)
    → is_empty k ≡ false
    → includes k (filter (λ q. not (is_empty q)) (t ∷ ts)) ≡ false
    → (str_eq t k ≡ false) × (includes k (filter (λ q. not (is_empty q)) ts) ≡ false)
other_head k t ts e n = elim (Bool-cases (is_empty t)) [
  | inl h ↦ (differ (Bool-cases (str_eq t k)) h, (rw h at n))
  | inr h ↦ neither (str_eq t k) (includes k (filter (λ q. not (is_empty q)) ts)) (rw h at n)
]
  where
    neither : (a b : Bool) → (a || b) ≡ false → (a ≡ false) × (b ≡ false)
    neither a b h = ground (arith, h)

    differ : ((str_eq t k ≡ true) ⊎ (str_eq t k ≡ false)) → is_empty t ≡ true → str_eq t k ≡ false
    differ (inr d) h = d
    differ (inl d) h =
        absurd (apart (is_empty k) e (subst (λ r. is_empty r ≡ true) ((eq_iff t k).0 d) h))

and_false : (a b : Bool) → ((a && false) && b || false) ≡ false
and_false a b = ground arith

no_such_field :
    (k : String) (q : Fields → Bool) (ss : List Fields)
    → is_empty k ≡ false
    → includes k (fields_of ss) ≡ false
    → any (λ s. is_field k s && q s) ss ≡ false
no_such_field k q [] e n = refl
no_such_field k q (s ∷ ss) e n =
    let (h, m) = other_head k (field_of s) (map field_of ss) e n in
    rw (h, no_such_field k q ss e m) (and_false (is_text (get "field" s)) (q s))

-- What is no field of the form is not written.
set_fields_value-kept :
    (env : Env) (values : Fields) (form : Form) (k : String)
    → is_empty k ≡ false
    → includes k (fields_of (get_schema env form)) ≡ false
    → get k (set_fields_value env values form).model ≡ get k form.model
set_fields_value-kept env values form k e n =
    set_fields_value_lem env values form k
      (includes-filter k has_dot (fields_of (get_schema env form)) n)
      (no_such_field k is_date_component (get_schema env form) e n)
    ∙ ground (arith, n)

append-at :
    (env : Env) (new : List Fields) (prefix : Option String) (form : Form) (i : ℕ)
    → has_prefix prefix ≡ true
    → find_index (is_prefix prefix) (get_schema env form) ≡ some i
    → append_schema_by_field env new prefix false form
      ≡ append_at env new (get_schema env form) false form (some i)
unfolding append_schema_by_field
append-at env new prefix form i h e = rw (h, e) refl

set_default-with :
    (env : Env) (new : List Fields) (form : Form) (current : Fields)
    → get_fields_value env form ≡ some current
    → set_default_value env new form ≡ with_defaults env new form (some current)
unfolding set_default_value
set_default-with env new form current e = ap (with_defaults env new form) e

appended_lem :
    (env : Env) (new : List Fields) (prefix : Option String) (form : Form) (i : ℕ)
    (current : Fields) (k : String)
    → has_prefix prefix ≡ true
    → find_index (is_prefix prefix) (get_schema env form) ≡ some i
    → get_fields_value env form ≡ some current
    → is_empty k ≡ false
    → includes k (fields_of (get_schema env form)) ≡ false
    → ((append_schema_by_field env new prefix false form).0.schema_ref
        ≡ some (take (suc i) (get_schema env form) ++ new ++ drop (suc i) (get_schema env form)))
      × (get k (append_schema_by_field env new prefix false form).0.model ≡ get k form.model)
appended_lem env new prefix form i current k h e c n a =
    let ss = get_schema env form in
    let placed = take (suc i) ss ++ new ++ drop (suc i) ss in
    let run =
      append-at env new prefix form i h e
      ∙ ap (then_schemas placed) (set_default-with env new form current c) in
    (
      ap (λ r. r.0.schema_ref) run,
      ap (λ r. get k r.0.model) run
          ∙ set_fields_value-kept env (default_values current new no_fields) form k n a,
    )

-- The watcher of the schemas does nothing once it has written the defaults.
schema_changed-kept :
    (env : Env) (form : Form) (b : Bool)
    → b ≡ true
    → (schema_changed env (record { form = form; is_inited_default = b })).form ≡ form
unfolding schema_changed
schema_changed-kept env form b e = rw e refl

-- Schemas that are put behind the field of another one become schemas of the form, but their defaults
-- stay out of its model if the watcher of the schemas has run `initDefault` before, as it does at the
-- first change of the schemas: behind the change, and the watcher of it, the model is as it was at
-- every key that was no field of the form.
pub append_schema_by_field_lem :
    (env : Env) (new : List Fields) (prefix : Option String) (b : Basic) (i : ℕ) (current : Fields)
    (k : String)
    → b.is_inited_default ≡ true
    → has_prefix prefix ≡ true
    → find_index (is_prefix prefix) (get_schema env b.form) ≡ some i
    → get_fields_value env b.form ≡ some current
    → is_empty k ≡ false
    → includes k (fields_of (get_schema env b.form)) ≡ false
    → let form' = (append_schema_by_field env new prefix false b.form).0 in
      let shown = (schema_changed env (record b { form = form' })).form in
      (shown.schema_ref
        ≡ some
            (take (suc i) (get_schema env b.form) ++ new ++ drop (suc i) (get_schema env b.form)))
      × (get k shown.model ≡ get k b.form.model)
append_schema_by_field_lem env new prefix b i current k inited h e c n a =
    let form' = (append_schema_by_field env new prefix false b.form).0 in
    let same = schema_changed-kept env form' b.is_inited_default inited in
    let (placed, kept) = appended_lem env new prefix b.form i current k h e c n a in
    (ap (λ f. f.schema_ref) same ∙ placed, ap (λ f. get k f.model) same ∙ kept)
