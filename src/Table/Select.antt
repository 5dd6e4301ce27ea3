-- ===== src/Table/Select.antt =====
-- useRowSelection.ts and useCustomRow.ts: the rows of a table that are selected, and a click on a row.
pub mod Laws
use kerthus.Base.{
  ℕ, ◌≡◌, String, Bool, true, false, ◌&&◌, Option, none, some, List, [], ◌∷◌, ◌++◌, if◌then◌else◌,
  lookup, includes, find, str_eq, is_empty,
}
use mathlib.Core.Option
use kerthus.Tree.{Node, Forest, nil, cons, item}
use kerthus.Tree.Breadth.{find_node_all}
use kerthus.Table.{Fields, RowKey, named, computed, is_text}

pub record Selection {ℓ} (V : Type ℓ) : Type ℓ where
  pub keys : List String
  pub rows : List (Node (Fields V))

pub data Kind : Type 0 where
  checkbox radio neither : Kind

-- `keys.splice(keys.findIndex((item) => item === k), 1)`, where there is such an index.
abbrev pub without : String → List String → List String
without k [] = []
without k (j ∷ js) = if str_eq j k then js else j ∷ without k js

-- What a click leaves of the keys in a table with checkboxes.
abbrev pub toggled : String → List String → List String
toggled k keys = if includes k keys then without k keys else keys ++ k ∷ []

abbrev pub is_none : List String → Bool
is_none [] = true
is_none (k ∷ ks) = false

abbrev pub join : Option (Option String) → Option String
join none = none
join (some o) = o

abbrev pub among : Option String → List String → Bool
among none keys = false
among (some k) keys = includes k keys

module _ {ℓ} {V : Type ℓ} where
  -- `found && trueSelectedRows.push(found)`
  abbrev pub push : Option (Node (Fields V)) → List (Node (Fields V)) → List (Node (Fields V))
  push none ns = ns
  push (some n) ns = n ∷ ns

  -- `clearSelectedRowKeys`
  abbrev pub cleared : Selection V
  cleared = record { keys = []; rows = [] }

  -- `deleteSelectRowByKey`
  pub delete_select_row_by_key : String → Selection V → Selection V
  delete_select_row_by_key k s = record s { keys = without k s.keys }

  -- `table.concat(rows)`
  abbrev pub concat : Forest (Fields V) → List (Node (Fields V)) → Forest (Fields V)
  concat nil [] = nil
  concat nil (n ∷ ns) = cons n (concat nil ns)
  concat (cons n f) ns = cons n (concat f ns)

  -- `text` reads a value of a field that is a text.
  module _ (text : V → Option String) where
    abbrev text_at : String → Fields V → Option String
    text_at name row = join (Option.map text (lookup name row))

    -- `item[unref(getRowKey)]`, which is undefined where the key is a function, or missing.
    abbrev pub key_at : Option (RowKey V) → (auto : Bool) → Fields V → Option String
    key_at none auto row = if auto then text_at "key" row else none
    key_at (some (named name)) auto row = text_at name row
    key_at (some (computed f)) auto row = none

    -- `getKey`, which reads the field with the name that a function answers.
    abbrev pub get_key : Option (RowKey V) → (auto : Bool) → Fields V → Option String
    get_key none auto row = text_at "key" row
    get_key (some (named name)) auto row = text_at name row
    get_key (some (computed f)) auto row = text_at (f row) row

    module _ (row_key : Option (RowKey V)) (auto : Bool) where
      abbrev pub has_key : String → Node (Fields V) → Bool
      has_key k n = is_text (key_at row_key auto (item n)) k

      -- `rowKeys?.includes(item[...])`
      abbrev pub is_asked : List String → Node (Fields V) → Bool
      is_asked keys n = among (key_at row_key auto (item n)) keys

      -- The loop over the keys, which finds a row for each.
      abbrev pub picked : List (Node (Fields V)) → List String → List (Node (Fields V))
      picked all [] = []
      picked all (k ∷ ks) = push (find (has_key k) all) (picked all ks)

      pub set_selected_row_keys :
          List String → Forest (Fields V) → Selection V → Option (Selection V)
      set_selected_row_keys keys table s =
          Option.map (λ all. record { keys = keys; rows = picked all keys })
            (find_node_all (is_asked keys) (concat table s.rows))

      -- A click on a row with the key `k`. `is_enabled` says that the row shows a checkbox that is
      -- not disabled.
      abbrev pub click_key :
          Kind
          → (is_enabled : Bool) → String
          → Forest (Fields V)
          → Selection V
          → Option (Selection V)
      click_key checkbox false k table s = some s
      click_key checkbox true k table s = set_selected_row_keys (toggled k s.keys) table s
      click_key radio is_enabled k table s =
          if includes k s.keys
          then some cleared
          else set_selected_row_keys (k ∷ []) table (if is_none s.keys then s else cleared)
      click_key neither is_enabled k table s = some s

      abbrev click_found :
          Kind → Bool → Option String → Forest (Fields V) → Selection V → Option (Selection V)
      click_found kind is_enabled none table s = some s
      click_found kind is_enabled (some k) table s =
          if is_empty k then some s else click_key kind is_enabled k table s

      -- `handleClick`; `is_selectable` is `rowSelection && clickToRowSelect`.
      pub click_row :
          (is_selectable : Bool)
          → Kind
          → (is_enabled : Bool) → Fields V
          → Forest (Fields V)
          → Selection V
          → Option (Selection V)
      click_row false kind is_enabled row table s = some s
      click_row true kind is_enabled row table s =
          click_found kind is_enabled (get_key row_key auto row) table s
