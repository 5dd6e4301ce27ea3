-- ===== src/Form/Advanced.antt =====
-- useAdvanced.ts: which fields of a form are seen when it is folded, and when it can be folded.
-- A number is 0 where the source has `undefined`, a text that is no number, or 0, which `||` skips.
-- `width` is the width of the screen, and `screen` its name in lower case.
pub mod Folding
use kerthus.Base.{
  ℕ, ◌+◌, ◌*◌, ◌%◌, String, Bool, true, false, ◌&&◌, List, [], ◌∷◌, Option, none, some, leb, ltb,
  ◌==◌, if◌then◌else◌,
}
use mathlib.Core.Bool.{not}

-- `ColEx`
pub record Col : Type 0 where
  pub span : ℕ
  pub xs : ℕ
  pub sm : ℕ
  pub md : ℕ
  pub lg : ℕ
  pub xl : ℕ
  pub xxl : ℕ

pub data EmptySpan : Type 0 where
  number : ℕ → EmptySpan
  by_screen : (span : ℕ) → (spans : String → ℕ) → EmptySpan

-- `FormProps`, as far as the hook reads it.
pub record Props : Type 0 where
  pub empty_span : EmptySpan
  pub base_col_props : Col
  pub action_col_options : Option Col
  pub always_show_lines : ℕ
  pub auto_advanced_line : ℕ

-- `FormSchema` with the answer of `show`; `col_props` has no fields where it is missing.
pub record Schema : Type 0 where
  pub field : String
  pub is_show : Bool
  pub col_props : Col

pub record AdvanceState : Type 0 where
  pub is_advanced : Bool
  pub hide_advance_btn : Bool
  pub is_load : Bool
  pub action_span : ℕ

-- `a || b`
abbrev pub or_num : ℕ → ℕ → ℕ
or_num a b = if a == 0 then b else a

abbrev pub basic_col_len : ℕ
basic_col_len = 24

-- `{ ...base, ...col }`
abbrev pub merged : Col → Col → Col
merged base col = record {
  span = or_num col.span base.span;
  xs = or_num col.xs base.xs;
  sm = or_num col.sm base.sm;
  md = or_num col.md base.md;
  lg = or_num col.lg base.lg;
  xl = or_num col.xl base.xl;
  xxl = or_num col.xxl base.xxl;
}

pub get_empty_span : Props → String → Bool → ℕ
get_empty_span props screen false = 0
get_empty_span props screen true = elim props.empty_span [
  | number n ↦ n
  | by_screen span spans ↦ or_num (spans screen) span
]

-- The width that `getAdvanced` adds.
unfoldable pub col_width : ℕ → Col → ℕ
col_width width c =
    let md = or_num c.md (or_num c.xs (or_num c.sm (or_num c.span basic_col_len))) in
    let lg = or_num c.lg md in
    let xl = or_num c.xl lg in
    if leb width 992
    then md
    else if ltb width 1200
    then lg
    else if ltb width 1600
    then xl
    else or_num c.xxl xl

-- `getAdvanced` of a field: whether it is seen, from the sum with it.
unfoldable pub is_seen : Props → AdvanceState → ℕ → Bool
is_seen props s sum =
    if ltb (basic_col_len * or_num props.always_show_lines 1) sum then s.is_advanced else true

-- `getAdvanced` of the action column, from the sum with it.
pub last_action : Props → ℕ → AdvanceState → AdvanceState
last_action props sum s =
    if leb sum (basic_col_len * 2)
    then record s { hide_advance_btn = true; is_advanced = true }
    else if leb sum (basic_col_len * or_num props.auto_advanced_line 3)
    then record s { hide_advance_btn = false }
    else if s.is_load
    then record s { hide_advance_btn = false }
    else record s { hide_advance_btn = false; is_load = true; is_advanced = not s.is_advanced }

-- `actionColOptions || { span: BASIC_COL_LEN }`
abbrev pub action_col : Option Col → Col
action_col (some c) = c
action_col none = record { span = basic_col_len; xs = 0; sm = 0; md = 0; lg = 0; xl = 0; xxl = 0 }

-- What the loop of `updateAdvanced` keeps: the sums, and the entries of the map in their order.
pub record Layout : Type 0 where
  pub item_col_sum : ℕ
  pub real_item_col_sum : ℕ
  pub fields : List (String × Bool)

module _ (props : Props) (width : ℕ) (s : AdvanceState) where
  abbrev pub width_of : Schema → ℕ
  width_of schema = col_width width (merged props.base_col_props schema.col_props)

  -- The loop over the schemas, from the sums in front of it.
  unfoldable pub lay_out : List Schema → ℕ → ℕ → Layout
  lay_out [] sum real = record { item_col_sum = sum; real_item_col_sum = real; fields = [] }
  lay_out (x ∷ xs) sum real =
      let sum' = sum + width_of x in
      let seen = is_seen props s sum' in
      let rest = lay_out xs sum' (if seen then sum' else real) in
      let hidden = lay_out xs sum real in
      if x.is_show then record rest { fields = (x.field, seen) ∷ rest.fields } else hidden

  -- `updateAdvanced`: the map, and the state behind it.
  pub update_advanced : String → List Schema → List (String × Bool) × AdvanceState
  update_advanced screen schemas =
      let l = lay_out schemas 0 0 in
      let action = col_width width (action_col props.action_col_options) in
      let span = l.real_item_col_sum % basic_col_len + get_empty_span props screen s.is_advanced in
      (l.fields, last_action props (l.item_col_sum + action) (record s { action_span = span }))

-- `handleToggleAdvanced`
pub handle_toggle_advanced : AdvanceState → AdvanceState
handle_toggle_advanced s = record s { is_advanced = not s.is_advanced }
