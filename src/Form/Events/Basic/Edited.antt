-- ===== src/Form/Events/Basic/Edited.antt =====
-- BasicForm.vue: the defaults of a form that is mounted, and what a reset gives back behind an edit.
use mathlib.Core.Path.{ap₂}
use kerthus.Base.{
  ◌≡◌, refl, sym, ap, ◌∙◌, subst, inl, inr, String, str_eq, eq_iff, str_eq_refl, Bool, true, false,
  not, ◌&&◌, ◌||◌, Bool-cases, List, [], ◌∷◌, map, none, some, find, includes, AreDistinct,
  if◌then◌else◌, if_true, if_false, &&-split, arith,
}
use kerthus.Value.{
  Value, undefined, text, Fields, no_fields, get, has, put, is_def, is_true, is_text,
  is_null_or_un_def,
}
use kerthus.Value.Maps.{get-put, has-put}
use kerthus.Form.Values.{field_of, as_fields, init_default}
use kerthus.Form.Events.{
  Event, validated, field_value_change, emit, validate_fields, Env, Form, is_field, is_input,
  get_schema, put_model,
}
use kerthus.Form.Events.Submit.{Validation, chosen, reset_value, reset_fields}
use kerthus.Form.Events.Reset.{reset_fields_lem}
use kerthus.Form.Events.Basic.{init_form, set_form_model}

-- The default of a schema.
abbrev default_of : Fields → Value
default_of s = get "defaultValue" s

-- The defaults and the model behind one schema.
abbrev obj_behind : Fields → Fields → Fields
obj_behind s obj =
    if is_null_or_un_def (default_of s) then obj else put (field_of s) (default_of s) obj

abbrev model_behind : Fields → Fields → Fields
model_behind s model =
    if is_null_or_un_def (default_of s)
    then model
    else if not (is_def (get (field_of s) model))
    then put (field_of s) (default_of s) model
    else model

init_default-next :
    (s : Fields) (ss : List Fields) (obj model : Fields)
    → init_default (s ∷ ss) obj model ≡ init_default ss (obj_behind s obj) (model_behind s model)
unfolding init_default
init_default-next s ss obj model = refl

get-obj_behind :
    (k : String) (s obj : Fields)
    → get k (obj_behind s obj) ≡ (
        if is_null_or_un_def (default_of s)
        then get k obj
        else if str_eq (field_of s) k
        then default_of s
        else get k obj)
get-obj_behind k s obj = elim (Bool-cases (is_null_or_un_def (default_of s))) [
  | inl t ↦
      ap (get k) (if_true _ obj (put (field_of s) (default_of s) obj) t) ∙ sym (if_true _ _ _ t)
  | inr t ↦
      ap (get k) (if_false _ obj (put (field_of s) (default_of s) obj) t)
      ∙ get-put k (field_of s) (default_of s) obj
      ∙ sym (if_false _ _ _ t)
]

-- The defaults of the fields that no schema has are as they were.
defaults-other :
    (k : String) (ss : List Fields) (obj model : Fields)
    → includes k (map field_of ss) ≡ false
    → get k (init_default ss obj model).0 ≡ get k obj
unfolding init_default
defaults-other k [] obj model n = refl
defaults-other k (s ∷ ss) obj model n =
    ap (λ r. get k r.0) (init_default-next s ss obj model)
    ∙ defaults-other k ss (obj_behind s obj) (model_behind s model) (ground (arith, n))
    ∙ get-obj_behind k s obj
    ∙ either (is_null_or_un_def (default_of s)) (str_eq (field_of s) k) (default_of s)
        (ground (arith, n))
  where
    either :
        (a b : Bool) (v : Value)
        → b ≡ false
        → (if a then get k obj else if b then v else get k obj) ≡ get k obj
    either a b v e = ground (arith, e)

-- Of schemas with different fields each gives its default.
defaults-found :
    (k : String) (s : Fields) (ss : List Fields) (obj model : Fields)
    → AreDistinct (map field_of ss)
    → find (is_field k) ss ≡ some s
    → is_null_or_un_def (default_of s) ≡ false
    → get k (init_default ss obj model).0 ≡ default_of s
unfolding init_default
defaults-found k s [] obj model d f n = cc
defaults-found k s (t ∷ ss) obj model d f n = elim (Bool-cases (is_field k t)) [
  | inl h ↦ first h (some_same (sym (if_true _ (some t) (find (is_field k) ss) h) ∙ f))
  | inr h ↦
      ap (λ r. get k r.0) (init_default-next t ss obj model)
      ∙ defaults-found k s ss (obj_behind t obj) (model_behind t model) d.1
          (sym (if_false _ (some t) (find (is_field k) ss) h) ∙ f) n
]
  where
    some_same : {a b : Fields} → some a ≡ some b → a ≡ b
    some_same h = cc

    first : is_field k t ≡ true → t ≡ s → get k (init_default (t ∷ ss) obj model).0 ≡ default_of s
    first h e =
        let same = (&&-split (is_text (get "field" t)) (str_eq (field_of t) k) h).1 in
        ap (λ r. get k r.0) (init_default-next t ss obj model)
        ∙ defaults-other k ss (obj_behind t obj) (model_behind t model)
            (subst (λ q. includes q (map field_of ss) ≡ false) ((eq_iff (field_of t) k).0 same) d.0)
        ∙ get-obj_behind k t obj
        ∙ if_false _ _ _ (ap (λ r. is_null_or_un_def (default_of r)) e ∙ n)
        ∙ if_true _ _ _ same
        ∙ ap default_of e

-- What does not look at the events of a form sees an edit as a write to the model.
set_form_model-sees :
    {C : Type 0} (g : Form → C) (k : String) (v : Value) (schema : Fields) (form : Form)
    → ((f : Form) (e : Event) → g (emit e f) ≡ g f)
    → g (set_form_model k v schema form) ≡ g (put_model k v form)
unfolding set_form_model
set_form_model-sees g k v schema form h = either (
    is_true (get "itemProps" schema)
    && not (is_true (get "autoLink" (as_fields (get "itemProps" schema)))))
  where
    edited : Form
    edited = emit (field_value_change k v) (put_model k v form)

    linked :
        (b : Bool)
        → g (if b then emit (validated (k ∷ [])) edited else edited) ≡ g (put_model k v form)
    linked true = h edited (validated (k ∷ [])) ∙ h (put_model k v form) (field_value_change k v)
    linked false = h (put_model k v form) (field_value_change k v)

    either :
        (b : Bool)
        → g (if b then validate_fields (k ∷ []) edited else edited) ≡ g (put_model k v form)
    either true = linked form.has_element
    either false = h (put_model k v form) (field_value_change k v)

-- The value of a reset, from the schemas and the defaults of a form.
abbrev reset_of : Env → String → Form → Value
reset_of env k form = reset_value (get_schema env form) form.defaults k

reset_of-put_model :
    (env : Env) (k q : String) (v : Value) (form : Form)
    → reset_of env k (put_model q v form) ≡ reset_of env k form
unfolding get_schema
reset_of-put_model env k q v form = refl

reset_of-emit :
    (env : Env) (k : String) (form : Form) (e : Event)
    → reset_of env k (emit e form) ≡ reset_of env k form
unfolding get_schema
reset_of-emit env k form e = refl

has-edited :
    (k : String) (v : Value) (schema : Fields) (form : Form)
    → has k (set_form_model k v schema form).model ≡ true
has-edited k v schema form =
    set_form_model-sees (λ f. has k f.model) k v schema form (λ f e. refl)
    ∙ has-put k k v form.model
    ∙ last (has k form.model) (str_eq_refl k)
  where
    last : (a : Bool) → str_eq k k ≡ true → (a || str_eq k k) ≡ true
    last a h = ground (arith, h)

edited-has_element :
    (env : Env) (k : String) (v : Value) (schema : Fields) (form : Form)
    → (set_form_model k v schema (init_form env form)).has_element ≡ form.has_element
unfolding init_form
edited-has_element env k v schema form =
    set_form_model-sees (λ f. f.has_element) k v schema (init_form env form) (λ f e. refl)

reset_of-init_form :
    (env : Env) (form : Form) (k : String) (s : Fields)
    → AreDistinct (map field_of (get_schema env form))
    → find (is_field k) (get_schema env form) ≡ some s
    → is_null_or_un_def (default_of s) ≡ false
    → reset_of env k (init_form env form)
      ≡ (if is_input s && not (is_true (default_of s)) then text "" else default_of s)
unfolding init_form get_schema
reset_of-init_form env form k s d f n =
    ap₂ chosen f (defaults-found k s (get_schema env form) no_fields form.model d f n)

-- A form with different fields is mounted, the user edits a field with a default, and a reset gives the
-- default back, or an empty text for an input whose default is falsy.
pub edit_reset_lem :
    (env : Env) (on_reset : Bool) (answer : Validation) (form : Form) (k : String) (v : Value)
    (schema s : Fields)
    → form.has_element ≡ true
    → AreDistinct (map field_of (get_schema env form))
    → find (is_field k) (get_schema env form) ≡ some s
    → is_null_or_un_def (default_of s) ≡ false
    → get k
        (reset_fields env none none on_reset answer
          (set_form_model k v schema (init_form env form))).model
      ≡ (if is_input s && not (is_true (default_of s)) then text "" else default_of s)
edit_reset_lem env on_reset answer form k v schema s e d f n =
    let mounted = init_form env form in
    let edited = set_form_model k v schema mounted in
    (reset_fields_lem env on_reset answer edited k (edited-has_element env k v schema form ∙ e)).1
    ∙ if_true _ (reset_of env k edited) undefined (has-edited k v schema mounted)
    ∙ set_form_model-sees (reset_of env k) k v schema mounted (reset_of-emit env k)
    ∙ reset_of-put_model env k k v mounted
    ∙ reset_of-init_form env form k s d f n
