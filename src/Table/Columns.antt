-- ===== src/Table/Columns.antt =====
-- useColumns.ts: which columns a table shows, and in which order. A column has its flag, the side that
-- it is fixed to, and whether it is hidden at first; `A` is what else it has.
pub mod Flagged
pub mod Order
use kerthus.Base.{
  ℕ, zero, suc, ◌+◌, ◌≡◌, String, str_eq, Bool, true, false, not, ◌&&◌, Option, none, some, List,
  [], ◌∷◌, ◌++◌, map, if◌then◌else◌, ltb, leb, filter, any, find_index, length, erase_idx, includes,
  is_some,
}

pub data Flag : Type 0 where
  plain index action : Flag

pub data Side : Type 0 where
  left right nowhere : Side

-- `data_index` and `key` are "" where they are missing.
pub record Column {ℓ} (A : Type ℓ) : Type ℓ where
  pub flag : Flag
  pub fixed : Side
  pub default_hidden : Bool
  pub data_index : String
  pub key : String
  pub rest : A

abbrev pub is_index_flag : Flag → Bool
is_index_flag index = true
is_index_flag _ = false

abbrev pub is_action_flag : Flag → Bool
is_action_flag action = true
is_action_flag _ = false

abbrev pub is_left_side : Side → Bool
is_left_side left = true
is_left_side _ = false

abbrev pub is_right_side : Side → Bool
is_right_side right = true
is_right_side _ = false

module _ {ℓ} {A : Type ℓ} where
  abbrev pub is_index : Column A → Bool
  is_index c = is_index_flag c.flag

  abbrev pub is_action : Column A → Bool
  is_action c = is_action_flag c.flag

  abbrev pub is_left : Column A → Bool
  is_left c = is_left_side c.fixed

  abbrev pub is_right : Column A → Bool
  is_right c = is_right_side c.fixed

  -- `columns.splice(indIndex, 1)`
  abbrev pub drop_index : List (Column A) → List (Column A)
  drop_index cs = elim (find_index is_index cs) [ none ↦ cs | some i ↦ erase_idx cs i ]

  -- A round of `forEach` with the number `i`, which is left out where the array has become shorter;
  -- `rounds` are left. The Boolean is `pushIndexColumns`.
  abbrev pub index_loop :
      (show : Bool) → (rounds i : ℕ) → List (Column A) × Bool → List (Column A) × Bool
  index_loop show zero i s = s
  index_loop true (suc n) i (cs, b) =
      index_loop true n (suc i) (if ltb i (length cs) then (cs, not (any is_index cs)) else (cs, b))
  index_loop false (suc n) i (cs, b) =
      index_loop false n (suc i) (if ltb i (length cs) then (drop_index cs, b) else (cs, b))

  -- `index_column` is the column that is put together, with the side that the code gives it unless
  -- `indexColumnProps` has another.
  module _ (index_column : Side → Column A) where
    abbrev unshift_index : List (Column A) × Bool → List (Column A)
    unshift_index (cs, false) = cs
    unshift_index (cs, true) = index_column (if any is_left cs then left else nowhere) ∷ cs

    unfoldable pub handle_index_column : (is_tree show : Bool) → List (Column A) → List (Column A)
    handle_index_column is_tree show cs =
        if is_tree then cs else unshift_index (index_loop show (length cs) 0 (cs, false))

  -- `action_column` is `{ fixed: 'right', ...actionColumn, flag: ACTION_COLUMN_FLAG }`.
  unfoldable pub handle_action_column : Option (Column A) → List (Column A) → List (Column A)
  handle_action_column none cs = cs
  handle_action_column (some action_column) cs =
      if any is_action cs then cs else cs ++ action_column ∷ []

  -- The loop of `sortFixedColumn`, which pushes onto three arrays.
  abbrev pub sort_loop :
      List (Column A) → List (Column A) → List (Column A) → List (Column A) → List (Column A)
  sort_loop ls ds rs [] = filter (λ c. not c.default_hidden) (ls ++ (ds ++ rs))
  sort_loop ls ds rs (c ∷ cs) =
      if is_left c
      then sort_loop (ls ++ c ∷ []) ds rs cs
      else if is_right c
      then sort_loop ls ds (rs ++ c ∷ []) cs
      else sort_loop ls (ds ++ c ∷ []) rs cs

  unfoldable pub sort_fixed_column : List (Column A) → List (Column A)
  sort_fixed_column cs = sort_loop [] [] [] cs

  -- `getColumns` with its options, on the columns of `getColumnsRef`.
  pub get_columns : (ignore_index ignore_action sort : Bool) → List (Column A) → List (Column A)
  get_columns ignore_index ignore_action sort cs =
      let ds = if ignore_index then filter (λ c. not (is_index c)) cs else cs in
      let es = if ignore_action then filter (λ c. not (is_action c)) ds else ds in
      if sort then sort_fixed_column es else es

  -- `setCacheColumnsByField`; `assign` is `Object.assign(item, value)`.
  pub set_cache_columns_by_field :
      String → (Column A → Column A) → List (Column A) → List (Column A)
  set_cache_columns_by_field field assign cs =
      if str_eq field ""
      then cs
      else map (λ c. if str_eq c.data_index field then assign c else c) cs
