-- ===== src/Form/Events/Kept.antt =====
-- useFormEvents.ts, `setFieldsValue`: what the model of the form holds behind it.
use kerthus.Base.{
  ◌≡◌, refl, sym, subst, ap, ◌∙◌, inl, inr, String, str_eq, eq_iff, str_eq_refl, Bool, true, false,
  ◌&&◌, ◌||◌, Bool-cases, List, [], ◌∷◌, Option, none, some, find, any, includes, if◌then◌else◌,
  if_true, if_false, split_on, arith,
}
use kerthus.Value.{Value, Fields, object, get, has, keys, is_def, is_true}
use kerthus.Value.Maps.{get-put, includes-keys}
use kerthus.Form.Values.{as_fields}
use kerthus.Form.Events.{
  Env, Form, Writing, put_model, is_field, is_date_component, get_schema, fields_of, nest_keys,
  handle_input_number_value, component_props, read_path, write_nest, write_nests, write_own,
  write_key, write_keys, validate_fields, set_fields_value,
}

-- The field has a component for dates.
abbrev pub is_date_key : String → List Fields → Bool
is_date_key k ss = any (λ s. is_field k s && is_date_component s) ss

-- What is written for a key.
abbrev pub written : Env → List Fields → Fields → String → Value
written env ss values k = handle_input_number_value env (find (is_field k) ss) (get k values)

get-put_model_ne :
    (k q : String) (v : Value) (form : Form)
    → str_eq q k ≡ false
    → get k (put_model q v form).model ≡ get k form.model
get-put_model_ne k q v form n = rw (get-put k q v form.model, n) refl

write_nest-kept :
    (env : Env) (k q : String) (o : Option Value) (w : Writing)
    → str_eq q k ≡ false
    → get k (write_nest env q o w).0.model ≡ get k w.0.model
write_nest-kept env k q none (form, valid) n = elim (Bool-cases (is_def (get q form.defaults))) [
  | inl t ↦ rw t (get-put_model_ne k q (get q form.defaults) form n)
  | inr t ↦ rw t refl
]
write_nest-kept env k q (some v) (form, valid) n = elim (Bool-cases (is_def v)) [
  | inl t ↦ rw t (get-put_model_ne k q v form n)
  | inr t ↦ rw t refl
]

write_nests-kept :
    (env : Env) (values : Fields) (k : String) (ks : List String) (w : Writing)
    → includes k ks ≡ false
    → get k (write_nests env values ks w).0.model ≡ get k w.0.model
write_nests-kept env values k [] w n = refl
write_nests-kept env values k (q ∷ ks) w n =
    write_nests-kept env values k ks
      (write_nest env q (read_path env (split_on b'.' q) (some (object values))) w)
      (ground (arith, n))
    ∙ write_nest-kept env k q (read_path env (split_on b'.' q) (some (object values))) w
        (ground (arith, n, eq_iff q k, eq_iff k q))

get-write_own :
    (env : Env) (ss : List Fields) (k : String) (v props : Value) (w : Writing)
    → is_date_key k ss ≡ false
    → get k (write_own env ss k v props w).0.model ≡ v
get-write_own env ss k v props (form, valid) d =
    elim (Bool-cases (is_true (get "onChange" (as_fields props)))) [
      | inl t ↦ rw (t, d, get-put k k v form.model, str_eq_refl k) refl
      | inr t ↦ rw (t, d, get-put k k v form.model, str_eq_refl k) refl
    ]

write_own-kept :
    (env : Env) (ss : List Fields) (k q : String) (v props : Value) (w : Writing)
    → str_eq q k ≡ false
    → get k (write_own env ss q v props w).0.model ≡ get k w.0.model
write_own-kept env ss k q v props (form, valid) n =
    elim (Bool-cases (is_true (get "onChange" (as_fields props)))) [
      | inl t ↦ rw t (get-put_model_ne k q _ form n)
      | inr t ↦ rw t (get-put_model_ne k q _ form n)
    ]

two_writes :
    {C : Type 0} (v x y : C) (a b c : Bool)
    → y ≡ (if b && c then v else x)
    → (if a && c then v else y) ≡ (if (b || a) && c then v else x)
two_writes v x y a b c e = ground (arith, e)

module _ (env : Env) (ss : List Fields) (values : Fields) (k : String) where
  write_key_self :
      (w : Writing)
      → includes k (fields_of ss) ≡ true
      → is_date_key k ss ≡ false
      → get k (write_key env ss values k w).0.model ≡ written env ss values k
  write_key_self w t d = rw t (
      get-write_own env ss k (written env ss values k)
        (component_props env w.0.model (find (is_field k) ss)) w d)

  write_key-nests :
      (q : String) (w : Writing)
      → includes k (nest_keys ss) ≡ false
      → includes q (fields_of ss) ≡ false
      → get k (write_key env ss values q w).0.model ≡ get k w.0.model
  write_key-nests q w n t = rw t (write_nests-kept env values k (nest_keys ss) w n)

  write_key-other :
      (q : String) (w : Writing)
      → includes k (nest_keys ss) ≡ false
      → str_eq q k ≡ false
      → get k (write_key env ss values q w).0.model ≡ get k w.0.model
  write_key-other q w n e = elim (Bool-cases (includes q (fields_of ss))) [
    | inl t ↦ rw t (
        write_own-kept env ss k q (written env ss values q)
          (component_props env w.0.model (find (is_field q) ss)) w e)
    | inr t ↦ write_key-nests q w n t
  ]

  write_key-same :
      (w : Writing)
      → includes k (nest_keys ss) ≡ false
      → is_date_key k ss ≡ false
      → get k (write_key env ss values k w).0.model
        ≡ (if includes k (fields_of ss) then written env ss values k else get k w.0.model)
  write_key-same w n d = elim (Bool-cases (includes k (fields_of ss))) [
    | inl t ↦ write_key_self w t d ∙ sym (if_true _ _ _ t)
    | inr t ↦ write_key-nests k w n t ∙ sym (if_false _ _ _ t)
  ]

  -- One key of the values: the write of the field, if it is `k`.
  get-write_key :
      (q : String) (w : Writing)
      → includes k (nest_keys ss) ≡ false
      → is_date_key k ss ≡ false
      → get k (write_key env ss values q w).0.model ≡ (
          if str_eq q k && includes k (fields_of ss)
          then written env ss values k
          else get k w.0.model)
  get-write_key q w n d = elim (Bool-cases (str_eq q k)) [
    | inr e ↦ rw e (write_key-other q w n e)
    | inl e ↦ rw e (
        subst
          (λ r.
            get k (write_key env ss values r w).0.model
            ≡ (if includes k (fields_of ss) then written env ss values k else get k w.0.model))
          (sym ((eq_iff q k).0 e)) (write_key-same w n d))
  ]

  get-write_keys :
      (qs : List String) (w : Writing)
      → includes k (nest_keys ss) ≡ false
      → is_date_key k ss ≡ false
      → get k (write_keys env ss values qs w).0.model ≡ (
          if includes k qs && includes k (fields_of ss)
          then written env ss values k
          else get k w.0.model)
  unfolding write_keys
  get-write_keys [] w n d = refl
  get-write_keys (q ∷ qs) w n d =
      get-write_keys qs (write_key env ss values q w) n d
      ∙ two_writes _ _ _ (includes k qs) (str_eq q k) (includes k (fields_of ss))
          (get-write_key q w n d)

validated_model :
    (k : String) (w : Writing) → get k (validate_fields w.1 w.0).model ≡ get k w.0.model
validated_model k w = elim (Bool-cases w.0.has_element) [ inl t ↦ rw t refl | inr t ↦ rw t refl ]

-- The model holds what the values give for a field of the form, where its name is no path and its
-- component none for dates, and is as it was at every key that is no field, paths included.
pub set_fields_value_lem :
    (env : Env) (values : Fields) (form : Form) (k : String)
    → includes k (nest_keys (get_schema env form)) ≡ false
    → is_date_key k (get_schema env form) ≡ false
    → get k (set_fields_value env values form).model ≡ (
        if has k values && includes k (fields_of (get_schema env form))
        then written env (get_schema env form) values k
        else get k form.model)
unfolding set_fields_value
set_fields_value_lem env values form k n d =
    validated_model k (write_keys env (get_schema env form) values (keys values) (form, []))
    ∙ get-write_keys env (get_schema env form) values k (keys values) (form, []) n d
    ∙ ap
        (λ b.
          if b && includes k (fields_of (get_schema env form))
          then written env (get_schema env form) values k
          else get k form.model)
        (includes-keys k values)
