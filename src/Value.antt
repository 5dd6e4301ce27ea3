-- ===== src/Value.antt =====
-- The values of the language that web/admin/src/utils and the forms handle, with `isObject`, `isEmpty`
-- and `isNullOrUnDef` of utils/is.ts, and `deepMerge` of utils/index.ts.
pub mod Maps
pub mod Merge
pub mod Tests
use kerthus.Base.{
  ℕ, String, Bool, true, false, not, ◌||◌, List, [], ◌∷◌, is_empty, str_eq, if◌then◌else◌, ◌==◌,
}

-- A number is natural; `date` is an object of dayjs, `blob` an object of another class, as a file is,
-- and `func` a function.
mutual
  pub data Value : Type 0 where
    undefined : Value
    null : Value
    bool : Bool → Value
    number : ℕ → Value
    text : String → Value
    date : ℕ → Value
    blob : ℕ → Value
    func : ℕ → Value
    array : Values → Value
    object : Fields → Value

  pub data Values : Type 0 where
    no_values : Values
    more : Value → Values → Values

  -- The fields of an object, in the order of their insertion.
  pub data Fields : Type 0 where
    no_fields : Fields
    with_field : String → Value → Fields → Fields

abbrev pub get : String → Fields → Value
get k no_fields = undefined
get k (with_field q v f) = if str_eq q k then v else get k f

-- `k in f`
abbrev pub has : String → Fields → Bool
has k no_fields = false
has k (with_field q v f) = str_eq q k || has k f

-- `f[k] = v`
abbrev pub put : String → Value → Fields → Fields
put k v no_fields = with_field k v no_fields
put k v (with_field q x f) =
    let rest = put k v f in if str_eq q k then with_field q v f else with_field q x rest

-- `delete f[k]`
abbrev pub erase : String → Fields → Fields
erase k no_fields = no_fields
erase k (with_field q x f) =
    let rest = erase k f in if str_eq q k then rest else with_field q x rest

-- `Object.keys(f)`
abbrev pub keys : Fields → List String
keys no_fields = []
keys (with_field k v f) = k ∷ keys f

abbrev pub is_true : Value → Bool
is_true undefined = false
is_true null = false
is_true (bool b) = b
is_true (number n) = not (n == 0)
is_true (text s) = not (is_empty s)
is_true (date n) = true
is_true (blob n) = true
is_true (func n) = true
is_true (array vs) = true
is_true (object f) = true

-- An object of dayjs is one.
abbrev pub is_object : Value → Bool
is_object (date n) = true
is_object (object f) = true
is_object v = false

abbrev pub is_text : Value → Bool
is_text (text s) = true
is_text v = false

abbrev pub is_def : Value → Bool
is_def undefined = false
is_def v = true

abbrev pub is_null_or_un_def : Value → Bool
is_null_or_un_def undefined = true
is_null_or_un_def null = true
is_null_or_un_def v = false

-- `isEmpty`; a date of dayjs has fields.
abbrev pub is_empty_value : Value → Bool
is_empty_value (text s) = is_empty s
is_empty_value (array no_values) = true
is_empty_value (object no_fields) = true
is_empty_value v = false
