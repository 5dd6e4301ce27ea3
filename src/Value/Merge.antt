-- ===== src/Value/Merge.antt =====
-- utils/index.ts, `deepMerge`. `indices` has the fields that `for (key in target)` goes through: of an
-- array or a text its elements by index, and of an object of dayjs or a file its own and inherited
-- ones. An object of dayjs as the source takes the date of another one, and no fields of the model.
pub mod Laws
pub mod Again
use kerthus.Value.{
  Value, undefined, null, bool, number, text, date, blob, func, array, object, Fields, no_fields,
  with_field, get, put, is_object,
}

module _ (indices : Value → Fields) where
  -- `res[key]` behind the merge with a target that has no fields of its own, or the fields of `g`.
  abbrev pub merged_flat : Value → Value → Value
  merged_flat (object f) v = object f
  merged_flat (date d) v = date d
  merged_flat r v = v

  abbrev pub put_all : Fields → Fields → Fields
  put_all no_fields f = f
  put_all (with_field k v g) f = put_all g (put k v f)

  abbrev pub merged_indexed : Value → Value → Value
  merged_indexed (object f) v = object (put_all (indices v) f)
  merged_indexed (date d) v = date d
  merged_indexed r v = v

  abbrev pub merged_date : Value → Value → Value
  merged_date (object f) v = object (put_all (indices v) f)
  merged_date r v = v

  abbrev pub merged_object : Value → Fields → (Fields → Fields) → Value
  merged_object (object f) g merge = object (merge f)
  merged_object (date d) g merge = date d
  merged_object r g merge = object g

  unfoldable mutual
    -- The value at a key, from that of the target and that of the result so far.
    pub merge_value : Value → Value → Value
    merge_value (object g) r = merged_object r g (λ f. deep_merge g f)
    merge_value (array vs) r = merged_indexed r (array vs)
    merge_value (text s) r = merged_indexed r (text s)
    merge_value undefined r = merged_flat r undefined
    merge_value null r = merged_flat r null
    merge_value (bool b) r = merged_flat r (bool b)
    merge_value (number n) r = merged_flat r (number n)
    merge_value (date d) r = merged_date r (date d)
    merge_value (blob n) r = merged_indexed r (blob n)
    merge_value (func n) r = merged_flat r (func n)

    -- The loop over the target; `f` is the copy of the source.
    pub deep_merge : Fields → Fields → Fields
    deep_merge no_fields f = f
    deep_merge (with_field k v g) f = deep_merge g (put k (merge_value v (get k f)) f)
