-- ===== src/Http/Before/Dates.antt =====
-- helper.ts, `formatRequestDate`: no date is left, and no key comes or goes.
use kerthus.Base.{
  ◌≡◌, refl, ap, inl, inr, String, Bool, true, false, ◌||◌, Bool-cases, str_eq, arith,
}
use kerthus.Value.{
  Value, undefined, null, bool, number, text, date, blob, func, array, object, Fields, no_fields,
  with_field, get, has,
}
use kerthus.Http.Before.{Env, is_func, called, format_value, format_fields}

-- A date, here or in the objects inside; arrays are not looked into.
unfoldable mutual
  pub has_date : Value → Bool
  has_date (date n) = true
  has_date (object f) = have_date f
  has_date undefined = false
  has_date null = false
  has_date (bool b) = false
  has_date (number n) = false
  has_date (text s) = false
  has_date (blob n) = false
  has_date (func n) = false
  has_date (array vs) = false

  pub have_date : Fields → Bool
  have_date no_fields = false
  have_date (with_field k v f) = has_date v || have_date f

pub has-format_fields :
    (env : Env) (k : String) (f : Fields) → has k (format_fields env f) ≡ has k f
unfolding format_fields
has-format_fields env k no_fields = refl
has-format_fields env k (with_field q v f) = ap (λ b. str_eq q k || b) (has-format_fields env k f)

called_no_date : (env : Env) (v : Value) → is_func v ≡ true → has_date (called env v) ≡ false
unfolding has_date
called_no_date env v h = ground (arith, h)

mutual
  unfolding has_date format_value

  format_value-no_date : (env : Env) (v : Value) → has_date (format_value env v) ≡ false
  format_value-no_date env (object f) = elim (Bool-cases (is_func (get "format" f))) [
    | inl t ↦ rw t (called_no_date env (get "format" f) t)
    | inr t ↦ rw t (format_fields-no_date env f)
  ]
  format_value-no_date env undefined = refl
  format_value-no_date env null = refl
  format_value-no_date env (bool b) = refl
  format_value-no_date env (number n) = refl
  format_value-no_date env (text s) = refl
  format_value-no_date env (date n) = refl
  format_value-no_date env (blob n) = refl
  format_value-no_date env (func n) = refl
  format_value-no_date env (array vs) = refl

  -- No date is left in the fields of an object, nor in the objects inside them.
  pub format_fields-no_date : (env : Env) (f : Fields) → have_date (format_fields env f) ≡ false
  format_fields-no_date env no_fields = refl
  format_fields-no_date env (with_field k v f) =
      rw (format_value-no_date env v) (format_fields-no_date env f)
