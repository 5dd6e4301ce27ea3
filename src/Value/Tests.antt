-- ===== src/Value/Tests.antt =====
-- Objects that are merged, as the schemas of a form are.
use kerthus.Base.{◌≡◌, refl, true}
use kerthus.Value.{Value, text, bool, object, Fields, no_fields, with_field, get}
use kerthus.Value.Merge.{deep_merge}

abbrev no_indices : Value → Fields
no_indices v = no_fields

abbrev schema : Fields
schema =
    with_field "field" (text "name")
      (with_field "componentProps" (object (with_field "size" (text "small") no_fields)) no_fields)

abbrev update : Fields
update =
    with_field "field" (text "name")
      (with_field "componentProps" (object (with_field "disabled" (bool true) no_fields)) no_fields)

-- The two objects are joined, and a text does not take the place of an object.
merged_props :
    get "componentProps" (deep_merge no_indices update schema)
    ≡ object (with_field "size" (text "small") (with_field "disabled" (bool true) no_fields))
unfolding deep_merge
merged_props = refl

text_ignored :
    deep_merge no_indices (with_field "componentProps" (text "none") no_fields) schema ≡ schema
unfolding deep_merge
text_ignored = refl
