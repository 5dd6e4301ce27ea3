-- ===== src/Table.antt =====
-- web/admin/src/components/Table/src/hooks: the rows, the requests, the selection and the columns of
-- a table. A row is an object with its fields in order, and may have children of its own.
pub mod Rows
pub mod Keys
pub mod Fetch
pub mod Select
pub mod Columns
pub mod Tests
use kerthus.Base.{String, str_eq, Bool, false, List, Option, none, some, lookup}

abbrev pub Fields {ℓ} : Type ℓ → Type ℓ
Fields V = List (String × V)

-- The property `rowKey`: the name of a field, or a function of the row.
pub data RowKey {ℓ} (V : Type ℓ) : Type ℓ where
  named : String → RowKey V
  computed : (Fields V → String) → RowKey V

abbrev pub is_text : Option String → String → Bool
is_text none key = false
is_text (some t) key = str_eq t key

-- `value === key`; `text` reads a value that is a text.
abbrev pub value_equals {ℓ} : {V : Type ℓ} → (V → Option String) → Option V → String → Bool
value_equals text none key = false
value_equals text (some v) key = is_text (text v) key

-- `row[name] === key`
abbrev pub field_equals {ℓ} : {V : Type ℓ} → (V → Option String) → String → String → Fields V → Bool
field_equals text name key row = value_equals text (lookup name row) key
