-- ===== src/Form/Events/Removed.antt =====
-- useFormEvents.ts, `removeSchemaByField`: a removal is a filter of the schemas.
use kerthus.Form.Events.Once.{IsOnce, filter-none, find_index-none, find_index-some}
use kerthus.Base.{
  ◌≡◌, refl, subst, &&-split, sym, ap, ◌∙◌, inl, inr, String, str_eq, eq_iff, Bool, true, false,
  not, ◌&&◌, ◌||◌, Bool-cases, Option-cases, List, [], ◌∷◌, map, some, find_index, any, filter,
  includes, AreDistinct, if◌then◌else◌, arith,
}
use kerthus.Value.{Fields, get, has, is_text}
use kerthus.Value.Maps.{has-erase}
use kerthus.Form.Values.{field_of}
use kerthus.Form.Events.{Env, Form, is_field, get_schema}
use kerthus.Form.Events.Schemas.{remove_at, remove_one, remove_all, remove_schema_by_field}

includes-fields :
    (k : String) (ss : List Fields)
    → includes k (map field_of ss) ≡ false
    → any (is_field k) ss ≡ false
includes-fields k [] n = refl
includes-fields k (s ∷ ss) n = ground (arith, includes-fields k ss)

fields-IsOnce :
    (k : String) (ss : List Fields) → AreDistinct (map field_of ss) → IsOnce (is_field k) ss
fields-IsOnce k [] d = tt
fields-IsOnce k (s ∷ ss) d = (
  λ h. includes-fields k ss (
      subst (λ q. includes q (map field_of ss) ≡ false)
        ((eq_iff (field_of s) k).0 (&&-split (is_text (get "field" s)) (str_eq (field_of s) k) h).1)
        d.0),
  fields-IsOnce k ss d.1,
)

-- The schema is one of those to remove.
abbrev pub is_removed : List String → Fields → Bool
is_removed ks s = is_text (get "field" s) && includes (field_of s) ks

absent : (a b c : Bool) → c ≡ false → a ≡ (a && not (b && c))
absent a b c e = ground (arith, e)

present : (a b c : Bool) → c ≡ true → (if b then false else a) ≡ (a && not (b && c))
present a b c e = ground (arith, e)

module _ (k : String) (ss : List Fields) (model : Fields) where
  removed_schemas :
      IsOnce (is_field k) ss → (remove_one k (ss, model)).0 ≡ filter (λ s. not (is_field k s)) ss
  removed_schemas o = elim (Option-cases (find_index (is_field k) ss)) [
    | inl n ↦
        ap (λ i. (remove_at k i (ss, model)).0) n
        ∙ sym (filter-none (is_field k) ss (find_index-none (is_field k) ss n))
    | inr (i, e) ↦
        ap (λ i. (remove_at k i (ss, model)).0) e ∙ (find_index-some (is_field k) ss i o e).1
  ]

  removed_model :
      (q : String)
      → IsOnce (is_field k) ss
      → has q (remove_one k (ss, model)).1
        ≡ (has q model && not (str_eq k q && any (is_field k) ss))
  removed_model q o = elim (Option-cases (find_index (is_field k) ss)) [
    | inl n ↦
        ap (λ i. has q (remove_at k i (ss, model)).1) n
        ∙ absent (has q model) (str_eq k q) (any (is_field k) ss)
            (find_index-none (is_field k) ss n)
    | inr (i, e) ↦
        ap (λ i. has q (remove_at k i (ss, model)).1) e
        ∙ has-erase q k model
        ∙ present (has q model) (str_eq k q) (any (is_field k) ss)
            (find_index-some (is_field k) ss i o e).0
  ]

removed-cons :
    (k : String) (ks : List String) (s : Fields)
    → is_removed (k ∷ ks) s ≡ (is_field k s || is_removed ks s)
removed-cons k ks s =
    ordered (is_text (get "field" s)) (str_eq k (field_of s)) (str_eq (field_of s) k)
      (includes (field_of s) ks) (ground (arith, eq_iff k (field_of s), eq_iff (field_of s) k))
  where
    ordered : (a b c d : Bool) → b ≡ c → (a && (b || d)) ≡ ((a && c) || (a && d))
    ordered a b c d e = ground (arith, e)

filter-both :
    (p q r : Fields → Bool) (ss : List Fields)
    → ((s : Fields) → r s ≡ (p s || q s))
    → filter (λ s. not (q s)) (filter (λ s. not (p s)) ss) ≡ filter (λ s. not (r s)) ss
filter-both p q r [] h = refl
filter-both p q r (s ∷ ss) h = ground (arith, h s, filter-both p q r ss h)

any-filter_self :
    (p : Fields → Bool) (ss : List Fields) → any p (filter (λ s. not (p s)) ss) ≡ false
any-filter_self p [] = refl
any-filter_self p (s ∷ ss) = ground (arith, any-filter_self p ss)

any-filter_apart :
    (p r : Fields → Bool) (ss : List Fields)
    → ((s : Fields) → (p s && r s) ≡ false)
    → any p (filter (λ s. not (r s)) ss) ≡ any p ss
any-filter_apart p r [] h = refl
any-filter_apart p r (s ∷ ss) h = ground (arith, h s, any-filter_apart p r ss h)

fields_apart :
    (k q : String) (s : Fields) → str_eq k q ≡ false → (is_field q s && is_field k s) ≡ false
fields_apart k q s e =
    bools (is_text (get "field" s)) (str_eq (field_of s) q) (str_eq (field_of s) k)
      (ground (arith, e, eq_iff (field_of s) q, eq_iff (field_of s) k, eq_iff k q))
  where
    bools : (a b c : Bool) → (b && c) ≡ false → ((a && b) && (a && c)) ≡ false
    bools a b c h = ground (arith, h)

any-filter_other :
    (k q : String) (ss : List Fields)
    → any (is_field q) (filter (λ s. not (is_field k s)) ss)
      ≡ (not (str_eq k q) && any (is_field q) ss)
any-filter_other k q ss = elim (Bool-cases (str_eq k q)) [
  | inl t ↦
      subst (λ r. any (is_field q) (filter (λ s. not (is_field r s)) ss) ≡ false)
        (sym ((eq_iff k q).0 t)) (any-filter_self (is_field q) ss)
      ∙ sym (and_true (str_eq k q) (any (is_field q) ss) t)
  | inr t ↦
      any-filter_apart (is_field q) (is_field k) ss (λ s. fields_apart k q s t)
      ∙ sym (and_not (str_eq k q) (any (is_field q) ss) t)
]
  where
    and_true : (a b : Bool) → a ≡ true → (not a && b) ≡ false
    and_true a b h = ground (arith, h)

    and_not : (a b : Bool) → a ≡ false → (not a && b) ≡ b
    and_not a b h = ground (arith, h)

filter-twice :
    (k : String) (ks : List String) (ss : List Fields)
    → filter (λ s. not (is_removed ks s)) (filter (λ s. not (is_field k s)) ss)
      ≡ filter (λ s. not (is_removed (k ∷ ks) s)) ss
filter-twice k ks ss =
    filter-both (is_field k) (is_removed ks) (is_removed (k ∷ ks)) ss (removed-cons k ks)

includes-filter_fields :
    (t : String) (q : Fields → Bool) (ss : List Fields)
    → includes t (map field_of ss) ≡ false
    → includes t (map field_of (filter q ss)) ≡ false
includes-filter_fields t q [] n = refl
includes-filter_fields t q (s ∷ ss) n = ground (arith, includes-filter_fields t q ss)

distinct-filter :
    (q : Fields → Bool) (ss : List Fields)
    → AreDistinct (map field_of ss)
    → AreDistinct (map field_of (filter q ss))
distinct-filter q [] d = tt
distinct-filter q (s ∷ ss) d = elim (Bool-cases (q s)) [
  | inl t ↦ rw t (includes-filter_fields (field_of s) q ss d.0, distinct-filter q ss d.1)
  | inr t ↦ rw t (distinct-filter q ss d.1)
]

remove_all_lem :
    (ks : List String) (ss : List Fields) (model : Fields) (q : String)
    → AreDistinct (map field_of ss)
    → ((remove_all ks (ss, model)).0 ≡ filter (λ s. not (is_removed ks s)) ss)
      × (has q (remove_all ks (ss, model)).1
          ≡ (has q model && not (includes q ks && any (is_field q) ss)))
remove_all_lem [] ss model q d = (sym (all_kept ss), ground arith)
  where
    all_kept : (ts : List Fields) → filter (λ s. not (is_removed [] s)) ts ≡ ts
    all_kept [] = refl
    all_kept (t ∷ ts) = ground (arith, all_kept ts)
remove_all_lem (k ∷ ks) ss model q d =
    let o = fields-IsOnce k ss d in
    let e = removed_schemas k ss model o in
    let r = remove_one k (ss, model) in
    let rest = remove_all_lem ks r.0 r.1 q (
      subst (λ ts. AreDistinct (map field_of ts)) (sym e)
        (distinct-filter (λ s. not (is_field k s)) ss d)) in
    (
      rest.0 ∙ ap (filter (λ s. not (is_removed ks s))) e ∙ filter-twice k ks ss,
      rest.1
          ∙ step (has q model) (str_eq k q) (includes q ks) (any (is_field q) ss)
              (any (is_field k) ss) (has q r.1) (any (is_field q) r.0)
              (removed_model k ss model q o) (ap (any (is_field q)) e ∙ any-filter_other k q ss)
              (λ t. ap (λ p. any (is_field p) ss) ((eq_iff k q).0 t)),
    )
  where
    step :
        (a b c f g m n : Bool)
        → m ≡ (a && not (b && g))
        → n ≡ (not b && f)
        → (b ≡ true → g ≡ f)
        → (m && not (c && n)) ≡ (a && not ((b || c) && f))
    step a true c f g m n h i j = ground (arith, h, i, j refl)
    step a false c f g m n h i j = ground (arith, h, i)

-- For schemas with different fields, a removal keeps those whose field is not among the given ones, in
-- their order, and takes from the model the keys that are the field of a schema that goes.
pub remove_schema_by_field_lem :
    (env : Env) (ks : List String) (form : Form) (q : String)
    → AreDistinct (map field_of (get_schema env form))
    → ((remove_schema_by_field env ks form).schema_ref
        ≡ some (filter (λ s. not (is_removed ks s)) (get_schema env form)))
      × (has q (remove_schema_by_field env ks form).model
          ≡ (has q form.model && not (includes q ks && any (is_field q) (get_schema env form))))
unfolding remove_schema_by_field
remove_schema_by_field_lem env ks form q d =
    let r = remove_all_lem ks (get_schema env form) form.model q d in (ap some r.0, r.1)
