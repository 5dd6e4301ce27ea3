-- ===== src/Table/Tests.antt =====
-- A table with nested rows, its requests, its selection and its columns.
use mathlib.Core.Bool.{not}
use kerthus.Base.{
  ℕ, ◌≡◌, refl, String, str_eq, Bool, true, false, Option, none, some, List, [], ◌∷◌, All, lookup,
}
use kerthus.Tree.{leaf, branch, Forest, nil, cons, preorders}
use kerthus.Table.{Fields, named}
use kerthus.Table.Rows.{Source, other, delete_table_data_record, count, delete_row}
use kerthus.Table.Rows.Items.{items, items_of, no_items}
use kerthus.Table.Rows.Cut.{Changed}
use kerthus.Table.Rows.Found.{has_key, delete_table_data_record_lem}
use kerthus.Table.Fetch.{object, Paging, TableState, Props}
use kerthus.Table.Select.{Selection}
use kerthus.Table.Columns.{Column, Side, Flag, plain, index, action, left, right, nowhere}

abbrev text : String → Option String
text s = some s

abbrev row : String → Fields String
row id = ("id", id) ∷ ("name", "n") ∷ []

-- The row 1 with the row 2 below it, and the row 3.
abbrev rows : Forest (Fields String)
rows = cons (branch (row "1") (cons (leaf (row "2")) nil)) (cons (leaf (row "3")) nil)

abbrev served : Source String
served = record { rows = rows; given = other nil; total = none }

abbrev behind : Source String
behind = delete_table_data_record text (some (named "id")) ("2" ∷ []) served

delete_table_data_record_example :
    Changed (has_key text "id" "2") items_of no_items rows behind.rows
    × ((g' : Forest (Fields String)) × (behind.given ≡ other g')
        × (behind.total ≡ some (count g'))
        × Changed (has_key text "id" "2") items_of no_items nil g')
delete_table_data_record_example = delete_table_data_record_lem text "id" "2" nil served refl refl

row_deleted : behind.rows ≡ cons (branch (row "1") nil) (cons (leaf (row "3")) nil)
unfolding delete_table_data_record delete_row
row_deleted = refl

abbrev first_value : Fields String → String
first_value [] = ""
first_value ((name, v) ∷ fields) = v

rows-named : All (λ r. lookup (first_value r) r ≡ none) (items rows)
unfolding preorders
rows-named = (refl, (refl, (refl, tt)))

abbrev truthy : String → Bool
truthy s = not (str_eq s "")

abbrev uuid : ℕ → String
uuid n = "uuid"

abbrev nothing_set : Paging
nothing_set = record { current = none; page_size = none; total = none }

-- An api with 12 rows, which answers the number of the request.
abbrev twelve : Props ℕ
twelve = record {
  has_api = true;
  api = λ n page. object n (some 12);
  after_fetch = λ n. some n;
  length_of = λ n. n;
  no_rows = 0;
  paginated = true;
  base = nothing_set;
}

abbrev fifth_page : TableState ℕ
fifth_page = record {
  rows = 0;
  config = record { current = some 5; page_size = some 10; total = some 50 };
  show = true;
  loading = false;
  events = [];
  asked = [];
}

abbrev one_selected : Selection String
one_selected = record { keys = "3" ∷ []; rows = leaf (row "3") ∷ [] }

abbrev column : Flag → Side → String → Column ℕ
column f side name = record {
  flag = f;
  fixed = side;
  default_hidden = false;
  data_index = name;
  key = "";
  rest = 0;
}

abbrev columns : List (Column ℕ)
columns = column plain right "c" ∷ column plain nowhere "b" ∷ column plain left "a" ∷ []

abbrev indices : Side → Column ℕ
indices side = column index side ""

abbrev actions : Column ℕ
actions = column action right ""
