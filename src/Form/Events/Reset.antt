-- ===== src/Form/Events/Reset.antt =====
-- useFormEvents.ts, `resetFields`: the model behind a reset.
use kerthus.Base.{
  ◌≡◌, refl, ap, ◌∙◌, inl, inr, String, str_eq, eq_iff, Bool, true, false, not, ◌||◌, Bool-cases,
  List, [], ◌∷◌, Option, none, some, includes, if◌then◌else◌, arith,
}
use kerthus.Value.{undefined, Fields, get, has, put, keys}
use kerthus.Value.Maps.{get-put, has-put, get-absent, includes-keys}
use kerthus.Form.Events.{Env, Form, put_model, get_schema}
use kerthus.Form.Events.Submit.{
  Validation, valid, invalid, handle_submit, submit_answer, submit_values, reset_value, reset_keys,
  reset_form, reset_fields,
}

-- The writes of a reset, one after the other.
abbrev put_resets : List Fields → Fields → List String → Fields → Fields
put_resets ss defaults [] m = m
put_resets ss defaults (k ∷ ks) m = put_resets ss defaults ks (put k (reset_value ss defaults k) m)

module _ (ss : List Fields) (defaults : Fields) where
  get-put_reset :
      (q k : String) (m : Fields)
      → get q (put k (reset_value ss defaults k) m)
        ≡ (if str_eq k q then reset_value ss defaults q else get q m)
  get-put_reset q k m = elim (Bool-cases (str_eq k q)) [
    | inl t ↦
        get-put q k (reset_value ss defaults k) m
        ∙ rw t (ap (reset_value ss defaults) ((eq_iff k q).0 t))
    | inr t ↦ get-put q k (reset_value ss defaults k) m ∙ rw t refl
  ]

  get-put_resets :
      (q : String) (ks : List String) (m : Fields)
      → get q (put_resets ss defaults ks m)
        ≡ (if includes q ks then reset_value ss defaults q else get q m)
  get-put_resets q [] m = refl
  get-put_resets q (k ∷ ks) m =
      get-put_resets q ks (put k (reset_value ss defaults k) m)
      ∙ ground (arith, get-put_reset q k m)

  has-put_resets :
      (q : String) (ks : List String) (m : Fields)
      → has q (put_resets ss defaults ks m) ≡ (has q m || includes q ks)
  has-put_resets q [] m = ground arith
  has-put_resets q (k ∷ ks) m =
      has-put_resets q ks (put k (reset_value ss defaults k) m)
      ∙ ground (arith, has-put q k (reset_value ss defaults k) m)

reset_keys-model :
    (env : Env) (ks : List String) (form : Form)
    → reset_keys env ks form
      ≡ record form { model = put_resets (get_schema env form) form.defaults ks form.model }
unfolding reset_keys get_schema
reset_keys-model env [] form = refl
reset_keys-model env (k ∷ ks) form =
    reset_keys-model env ks (put_model k (reset_value (get_schema env form) form.defaults k) form)

either_model :
    (b : Bool) (x y : Form × Bool) (m : Fields)
    → x.0.model ≡ m
    → y.0.model ≡ m
    → (if b then x else y).0.model ≡ m
either_model true x y m p q = p
either_model false x y m p q = q

reset_branch :
    (e b : Bool) (x y z : Form)
    → e ≡ true
    → y.model ≡ z.model
    → (if not e then x else if b then y else z).model ≡ z.model
reset_branch true true x y z h p = p
reset_branch true false x y z h p = refl
reset_branch false b x y z h p = cc

handle_submit-model :
    (env : Env) (answer : Validation) (form : Form)
    → (handle_submit env none answer form).0.model ≡ form.model
unfolding handle_submit
handle_submit-model env answer form =
    either_model form.has_element (submit_answer env form answer) (form, true) form.model
      (answered answer) refl
  where
    handled : (o : Option Fields) → (submit_values form o).0.model ≡ form.model
    handled none = refl
    handled (some f) = refl

    answered : (v : Validation) → (submit_answer env form v).0.model ≡ form.model
    answered (valid f) = handled (env.handle f)
    answered (invalid a b) = refl

get-reset_form :
    (env : Env) (form : Form) (k : String)
    → get k (reset_form env form).model
      ≡ (if has k form.model then reset_value (get_schema env form) form.defaults k else undefined)
get-reset_form env form k =
    ap (λ f. get k f.model) (reset_keys-model env (keys form.model) form)
    ∙ get-put_resets (get_schema env form) form.defaults k (keys form.model) form.model
    ∙ ground (arith, includes-keys k form.model, get-absent k form.model)

has-reset_form :
    (env : Env) (form : Form) (k : String) → has k (reset_form env form).model ≡ has k form.model
has-reset_form env form k =
    ap (λ f. has k f.model) (reset_keys-model env (keys form.model) form)
    ∙ has-put_resets (get_schema env form) form.defaults k (keys form.model) form.model
    ∙ ground (arith, includes-keys k form.model)

reset_fields-model :
    (env : Env) (on_reset : Bool) (answer : Validation) (form : Form)
    → form.has_element ≡ true
    → (reset_fields env none none on_reset answer form).model ≡ (reset_form env form).model
unfolding reset_fields
reset_fields-model env on_reset answer form e =
    reset_branch form.has_element on_reset form
      (handle_submit env none answer (reset_form env form)).0 (reset_form env form) e
      (handle_submit-model env answer (reset_form env form))

-- A reset without a `resetFunc` and a `submitFunc` leaves the keys of the model, and each has its
-- default, an empty text for an input without one, whatever the validation answers.
pub reset_fields_lem :
    (env : Env) (on_reset : Bool) (answer : Validation) (form : Form) (k : String)
    → form.has_element ≡ true
    → (has k (reset_fields env none none on_reset answer form).model ≡ has k form.model)
      × (get k (reset_fields env none none on_reset answer form).model ≡ (
          if has k form.model
          then reset_value (get_schema env form) form.defaults k
          else undefined))
reset_fields_lem env on_reset answer form k e =
    let same = reset_fields-model env on_reset answer form e in
    (ap (has k) same ∙ has-reset_form env form k, ap (get k) same ∙ get-reset_form env form k)
