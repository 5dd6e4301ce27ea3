-- ===== src/Table/Rows.antt =====
-- useDataSource.ts, the operations on single rows. An edit of a row or of an array in place is a
-- function to the rows behind it; `text` reads a value of a field that is a text.
pub mod Items
pub mod Cut
pub mod Found
use kerthus.Base.{
  ℕ, suc, zero, String, str_eq, Bool, true, false, List, [], ◌∷◌, Option, none, some, if◌then◌else◌,
  lookup, put, or_else,
}
use mathlib.Core.Option
use kerthus.Tree.{Node, leaf, branch, Forest, nil, cons, item}
use kerthus.Table.{Fields, RowKey, named, computed, field_equals}

module _ {ℓ} {A : Type ℓ} where
  abbrev pub first_of : Option (Node A) → Option (Node A) → Option (Node A)
  first_of none o = o
  first_of (some n) o = some n

  -- A row or an array behind a splice in it, or the splice further on.
  abbrev pub spliced : Option (Node A) → Node A → Option (Forest A) → Forest A → Option (Forest A)
  spliced none n rest f = Option.map (cons n) rest
  spliced (some m) n rest f = some (cons m f)

  abbrev pub patched : (A → A) → Node A → Node A
  patched patch (leaf a) = leaf (patch a)
  patched patch (branch a f) = branch (patch a) f

module _ {ℓ} {A : Type ℓ} (p : A → Bool) where
  -- `array.some(iter)` of `findTableDataRecord` ends at the row that it finds.
  unfoldable mutual
    pub find_row : Forest A → Option (Node A)
    find_row nil = none
    find_row (cons n f) = if p (item n) then some n else first_of (find_below n) (find_row f)

    pub find_below : Node A → Option (Node A)
    find_below (leaf a) = none
    find_below (branch a f) = find_row f

  -- `deleteRow`: `none` where `findRow` answers `null`.
  unfoldable mutual
    pub delete_row : Forest A → Option (Forest A)
    delete_row nil = none
    delete_row (cons n f) =
        if p (item n) then some f else spliced (delete_below n) n (delete_row f) f

    pub delete_below : Node A → Option (Node A)
    delete_below (leaf a) = none
    delete_below (branch a f) = Option.map (branch a) (delete_row f)

  -- A write to the row that is found.
  module _ (patch : A → A) where
    unfoldable mutual
      pub update_row : Forest A → Option (Forest A)
      update_row nil = none
      update_row (cons n f) =
          if p (item n)
          then some (cons (patched patch n) f)
          else spliced (update_below n) n (update_row f) f

      pub update_below : Node A → Option (Node A)
      update_below (leaf a) = none
      update_below (branch a f) = Option.map (branch a) (update_row f)

-- The array `dataSource` of the properties: missing, the array of the rows itself, as the watcher
-- sets it where there is no `api`, or another array.
pub data Given {ℓ} (V : Type ℓ) : Type ℓ where
  absent same : Given V
  other : Forest (Fields V) → Given V

pub record Source {ℓ} (V : Type ℓ) : Type ℓ where
  pub rows : Forest (Fields V)
  pub given : Given V
  -- The field `total` of the pagination; `none` is `undefined`.
  pub total : Option ℕ

module _ {ℓ} {V : Type ℓ} where
  -- `for (const field in row) if (Reflect.has(record, field)) row[field] = record[field]`
  abbrev pub assign_fields : Fields V → Fields V → Fields V
  assign_fields record' [] = []
  assign_fields record' ((name, v) ∷ row) =
      (name, or_else (lookup name record') v) ∷ assign_fields record' row

  abbrev pub count : Forest (Fields V) → ℕ
  count nil = 0
  count (cons n f) = suc (count f)

  abbrev total_of : Forest (Fields V) × Given V → Option ℕ
  total_of (rows, absent) = none
  total_of (rows, same) = some (count rows)
  total_of (rows, other g) = some (count g)

  abbrev pub is_no_row : Forest (Fields V) → Bool
  is_no_row nil = true
  is_no_row (cons n f) = false

  abbrev prepend : List (Node (Fields V)) → Forest (Fields V) → Forest (Fields V)
  prepend [] f = f
  prepend (n ∷ ns) f = cons n (prepend ns f)

  -- `dataSource.splice(i, 0, ...records)`
  abbrev pub insert_rows : ℕ → Forest (Fields V) → List (Node (Fields V)) → Forest (Fields V)
  insert_rows zero f ns = prepend ns f
  insert_rows (suc i) nil ns = prepend ns nil
  insert_rows (suc i) (cons n f) ns = cons n (insert_rows i f ns)

  -- `none` is an index that is left out.
  pub insert_table_data_record : List (Node (Fields V)) → Option ℕ → Source V → Source V
  insert_table_data_record records index s = record s {
    rows = insert_rows (or_else index (count s.rows)) s.rows records;
  }

  -- `dataSourceRef.value[index][key] = value`, where there is a row with the index.
  abbrev set_field : ℕ → String → V → Forest (Fields V) → Forest (Fields V)
  set_field i name v nil = nil
  set_field zero name v (cons n f) = cons (patched (put name v) n) f
  set_field (suc i) name v (cons n f) = cons n (set_field i name v f)

  pub update_table_data : ℕ → String → V → Source V → Source V
  update_table_data i name v s = record s { rows = set_field i name v s.rows }

  -- The array of the properties, when the rows are no longer that array.
  abbrev apart : Source V → Given V
  apart s = elim s.given [ absent ↦ absent | same ↦ other s.rows | other g ↦ other g ]

  pub set_table_data : Forest (Fields V) → Source V → Source V
  set_table_data values s = record s { rows = values; given = apart s }

  -- The watcher of `dataSource`, behind a change of it.
  pub watch_data_source : (has_api : Bool) → Option (Forest (Fields V)) → Source V → Source V
  watch_data_source has_api none s = record s { given = absent }
  watch_data_source true (some g) s = record s { given = other g }
  watch_data_source false (some g) s = record s { rows = g; given = same }

module _ {ℓ} {V : Type ℓ} (text : V → Option String) where
  -- The test of `findTableDataRecord`.
  abbrev pub is_found : RowKey V → String → Fields V → Bool
  is_found (named name) key row = field_equals text name key row
  is_found (computed f) key row = str_eq (f row) key

  -- The test of `deleteTableDataRecord`, which reads the field with the name that the function answers.
  abbrev pub is_deleted : RowKey V → String → Fields V → Bool
  is_deleted (named name) key row = field_equals text name key row
  is_deleted (computed f) key row = field_equals text (f row) key row

  pub find_table_data_record :
      Option (RowKey V) → String → Forest (Fields V) → Option (Node (Fields V))
  find_table_data_record none key rows = none
  find_table_data_record (some k) key rows = find_row (is_found k key) rows

  pub update_table_data_record :
      Option (RowKey V) → String → Fields V → Forest (Fields V) → Forest (Fields V)
  update_table_data_record none key record' rows = rows
  update_table_data_record (some k) key record' rows =
      or_else (update_row (is_found k key) (assign_fields record') rows) rows

  abbrev delete_first : RowKey V → String → Forest (Fields V) → Forest (Fields V)
  delete_first k key rows = or_else (delete_row (is_deleted k key) rows) rows

  -- The two calls of `deleteRow` for a key.
  abbrev delete_given :
      RowKey V → String → Forest (Fields V) → Given V → Forest (Fields V) × Given V
  delete_given k key rows absent = (delete_first k key rows, absent)
  delete_given k key rows same = (delete_first k key (delete_first k key rows), same)
  delete_given k key rows (other g) = (delete_first k key rows, other (delete_first k key g))

  abbrev pub delete_keys :
      RowKey V → List String → Forest (Fields V) × Given V → Forest (Fields V) × Given V
  delete_keys k [] s = s
  delete_keys k (key ∷ keys) s = delete_keys k keys (delete_given k key s.0 s.1)

  abbrev delete_all : Option (RowKey V) → List String → Source V → Source V
  delete_all none keys s = s
  delete_all (some k) keys s =
      let r = delete_keys k keys (s.rows, s.given) in
      record { rows = r.0; given = r.1; total = total_of r }

  unfoldable pub delete_table_data_record : Option (RowKey V) → List String → Source V → Source V
  delete_table_data_record k keys s = if is_no_row s.rows then s else delete_all k keys s
