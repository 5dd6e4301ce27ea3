-- ===== src/Value/Maps.antt =====
-- The fields of an object as a map: reads behind writes.
use kerthus.Base.{
  ◌≡◌, refl, String, str_eq, eq_iff, true, false, ◌||◌, includes, if◌then◌else◌, arith,
}
use kerthus.Value.{Value, undefined, Fields, no_fields, with_field, get, has, put, erase, keys}

pub get-put :
    (j k : String) (v : Value) (f : Fields)
    → get j (put k v f) ≡ (if str_eq k j then v else get j f)
get-put j k v no_fields = ground arith
get-put j k v (with_field q x f) =
    ground (arith, get-put j k v f, eq_iff q k, eq_iff q j, eq_iff k j)

pub has-put : (j k : String) (v : Value) (f : Fields) → has j (put k v f) ≡ (has j f || str_eq k j)
has-put j k v no_fields = ground arith
has-put j k v (with_field q x f) =
    ground (arith, has-put j k v f, eq_iff q k, eq_iff q j, eq_iff k j)

pub get-erase :
    (j k : String) (f : Fields) → get j (erase k f) ≡ (if str_eq k j then undefined else get j f)
get-erase j k no_fields = ground arith
get-erase j k (with_field q x f) =
    ground (arith, get-erase j k f, eq_iff q k, eq_iff q j, eq_iff k j)

pub has-erase :
    (j k : String) (f : Fields) → has j (erase k f) ≡ (if str_eq k j then false else has j f)
has-erase j k no_fields = ground arith
has-erase j k (with_field q x f) =
    ground (arith, has-erase j k f, eq_iff q k, eq_iff q j, eq_iff k j)

pub get-absent : (j : String) (f : Fields) → has j f ≡ false → get j f ≡ undefined
get-absent j no_fields h = refl
get-absent j (with_field q x f) h = ground (arith, get-absent j f)

pub includes-keys : (j : String) (f : Fields) → includes j (keys f) ≡ has j f
includes-keys j no_fields = refl
includes-keys j (with_field q x f) = ground (arith, includes-keys j f)

-- A write of the value that is there changes nothing.
pub put-same : (k : String) (v : Value) (f : Fields) → has k f ≡ true → get k f ≡ v → put k v f ≡ f
put-same k v no_fields h e = cc
put-same k v (with_field q x f) h e = ground (arith, put-same k v f)
