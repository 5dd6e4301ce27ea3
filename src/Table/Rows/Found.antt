-- ===== src/Table/Rows/Found.antt =====
-- useDataSource.ts: the row that is found, deleted or written is the first one in order that passes
-- the test.
use mathlib.Core.Option
use kerthus.Base.{
  String, str_eq, ◌≡◌, refl, ap, subst, ◌∙◌, Bool, true, false, Bool-cases, Option-cases, inl, inr,
  List, [], ◌∷◌, ◌++◌, Option, none, some, All, lookup,
}
use kerthus.Tree.{Node, leaf, branch, Forest, nil, cons, item}
use kerthus.Table.{Fields, RowKey, named, value_equals}
use kerthus.Table.Rows.{
  delete_table_data_record, update_table_data_record, assign_fields, is_deleted, is_found, Source,
  other, is_no_row, count, computed, Given, absent, same, find_row, find_below, delete_first,
  delete_keys, total_of, delete_row, delete_below, patched, update_row, update_below,
}
use kerthus.Table.Rows.Items.{
  items, items_of, no_items, old_item, new_item, items-cons, items-nil, items_of-leaf,
  items_of-inner, items_of-patched, inner,
}
use kerthus.Table.Rows.Cut.{
  Fails, Cut, Edited, missed, hit, Edited-branch, Edited-cons, Changed, Edited-Changed,
  Changed-keeps,
}

module _ {ℓ} {A : Type ℓ} (p : A → Bool) where
  mutual
    unfolding find_row delete_row

    delete_row-edits :
        (f : Forest A) → Edited p items_of no_items items (items f) (find_row p f) (delete_row p f)
    delete_row-edits nil = missed (rw (items-nil) tt)
    delete_row-edits (cons n f) = elim (Bool-cases (p (item n))) [
      | inl h ↦ rw h (
          hit n f (record {
            front = [];
            back = items f;
            was = items-cons n f;
            is = refl;
            passes = h;
            first = tt;
          }))
      | inr h ↦
          rw h (Edited-cons p items_of no_items n f (delete_below-edits n h) (delete_row-edits f))
    ]

    delete_below-edits :
        (n : Node A)
        → p (item n) ≡ false
        → Edited p items_of no_items items_of (items_of n) (find_below p n) (delete_below p n)
    delete_below-edits (leaf a) h = missed (rw (items_of-leaf a) (h, tt))
    delete_below-edits (branch a g) h = Edited-branch p items_of no_items a g h (delete_row-edits g)

  module _ (patch : A → A) where
    patched-Cut :
        (n : Node A) (f : Forest A)
        → p (item n) ≡ true
        → Cut p
            (old_item n)
            ((new_item patch) n)
            (item n)
            (items (cons n f))
            (items (cons (patched patch n) f))
    patched-Cut n f h = record {
      front = [];
      back = inner n ++ items f;
      was = items-cons n f ∙ ap (◌++ items f) (items_of-inner n);
      is = items-cons (patched patch n) f ∙ ap (◌++ items f) (items_of-patched patch n);
      passes = h;
      first = tt;
    }

    mutual
      unfolding find_row update_row

      update_row-edits :
          (f : Forest A)
          → Edited p old_item (new_item patch) items (items f) (find_row p f) (update_row p patch f)
      update_row-edits nil = missed (rw (items-nil) tt)
      update_row-edits (cons n f) = elim (Bool-cases (p (item n))) [
        | inl h ↦ rw h (hit n (cons (patched patch n) f) (patched-Cut n f h))
        | inr h ↦ rw h (
            Edited-cons p old_item (new_item patch) n f (update_below-edits n h)
              (update_row-edits f))
      ]

      update_below-edits :
          (n : Node A)
          → p (item n) ≡ false
          → Edited p old_item
              (new_item patch)
              items_of
              (items_of n)
              (find_below p n)
              (update_below p patch n)
      update_below-edits (leaf a) h = missed (rw (items_of-leaf a) (h, tt))
      update_below-edits (branch a g) h =
          Edited-branch p old_item (new_item patch) a g h (update_row-edits g)

module _ {ℓ} {V : Type ℓ} (text : V → Option String) where
  delete_one :
      (k : RowKey V) (key : String) (g : Forest (Fields V)) (s : Source V)
      → s.given ≡ other g
      → is_no_row s.rows ≡ false
      → delete_table_data_record text (some k) (key ∷ []) s ≡ record {
        rows = delete_first text k key s.rows;
        given = other (delete_first text k key g);
        total = some (count (delete_first text k key g));
      }
  unfolding delete_table_data_record
  delete_one k key g s e h = rw h (
      ap
        (λ y.
          let r = delete_keys text k (key ∷ []) (s.rows, y) in
          record { rows = r.0; given = r.1; total = total_of r })
        e)

  delete_first-Changed :
      (k : RowKey V) (key : String) (f : Forest (Fields V))
      → Changed (is_deleted text k key) items_of no_items f (delete_first text k key f)
  delete_first-Changed k key f =
      let p = is_deleted text k key in
      Edited-Changed p items_of no_items f (find_row p f) (delete_row p f) refl
        (delete_row-edits p f)

  abbrev is_the : Option String → String → Bool
  is_the (some t) key = str_eq t key
  is_the none key = false

  -- Whether a row has the key, as a text, in its field with the name.
  abbrev pub has_key : String → String → Fields V → Bool
  has_key name key row = is_the (Option.bind (lookup name row) text) key

  has_key-is_deleted :
      (name key : String) (row : Fields V)
      → is_deleted text (named name) key row ≡ has_key name key row
  unfolding Option.bind
  has_key-is_deleted name key row = elim (Option-cases (lookup name row)) [
    | inl n ↦ rw n refl
    | inr (v, e) ↦ elim (Option-cases (text v)) [
      | inl n ↦ rw (e, n) refl
      | inr (t, f) ↦ rw (e, f) refl
    ]
  ]

  delete_named-Changed :
      (name key : String) (f : Forest (Fields V))
      → Changed (has_key name key) items_of no_items f (delete_first text (named name) key f)
  delete_named-Changed name key f =
      subst (λ p. Changed p items_of no_items f (delete_first text (named name) key f))
        (λ i row. has_key-is_deleted name key row i) (delete_first-Changed (named name) key f)

  -- `deleteTableDataRecord` of one key, where `rowKey` is the name of a field, for rows that the server
  -- answered: in the rows, and in the array of the properties, the first row whose field with this
  -- name is the key is taken out with all that is below it, and nothing else is; where no row has the
  -- key the array is as it was. The total is the number of the rows that the array of the
  -- properties has left.
  pub delete_table_data_record_lem :
      (name key : String) (g : Forest (Fields V)) (s : Source V)
      → s.given ≡ other g
      → is_no_row s.rows ≡ false
      → let s' = delete_table_data_record text (some (named name)) (key ∷ []) s in
        Changed (has_key name key) items_of no_items s.rows s'.rows
        × ((g' : Forest (Fields V)) × (s'.given ≡ other g')
            × (s'.total ≡ some (count g'))
            × Changed (has_key name key) items_of no_items g g')
  delete_table_data_record_lem name key g s e h = rw (delete_one (named name) key g s e h) (
    delete_named-Changed name key s.rows,
    (delete_first text (named name) key g, refl, refl, delete_named-Changed name key g),
  )

  -- `updateTableDataRecord` writes the fields of `record` that the first row with the key has, to
  -- that row, and changes no other row and no children; where no row has the key nothing changes.
  pub update_table_data_record_lem :
      (k : RowKey V) (key : String) (record' : Fields V) (rows : Forest (Fields V))
      → Changed
          (is_found text k key)
          old_item
          (new_item (assign_fields record'))
          rows
          (update_table_data_record text (some k) key record' rows)
  unfolding update_table_data_record
  update_table_data_record_lem k key record' rows =
      let p = is_found text k key in
      let patch = assign_fields record' in
      Edited-Changed p old_item (new_item patch) rows (find_row p rows) (update_row p patch rows)
        refl (update_row-edits p patch rows)

  unnamed :
      (key_of : Fields V → String) (key : String) (rows : List (Fields V))
      → All (λ row. lookup (key_of row) row ≡ none) rows
      → All (Fails (is_deleted text (computed key_of) key)) rows
  unnamed key_of key [] h = tt
  unnamed key_of key (row ∷ rows) (e, h) =
      (ap (λ o. value_equals text o key) e, unnamed key_of key rows h)

  module _ (key_of : Fields V → String) (rows : Forest (Fields V))
      (h : All (λ row. lookup (key_of row) row ≡ none) (items rows)) where
    delete_first-keeps : (key : String) → delete_first text (computed key_of) key rows ≡ rows
    delete_first-keeps key =
        Changed-keeps (is_deleted text (computed key_of) key) rows
          (delete_first text (computed key_of) key rows) (unnamed key_of key (items rows) h)
          (delete_first-Changed (computed key_of) key rows)

    delete_keys-keeps :
        (keys : List String) (g : Given V)
        → (delete_keys text (computed key_of) keys (rows, g)).0 ≡ rows
    delete_keys-keeps [] g = refl
    delete_keys-keeps (key ∷ keys) absent =
        rw (delete_keys, delete_first-keeps key) (delete_keys-keeps keys absent)
    delete_keys-keeps (key ∷ keys) same =
        rw (delete_keys, delete_first-keeps key, delete_first-keeps key)
          (delete_keys-keeps keys same)
    delete_keys-keeps (key ∷ keys) (other g) =
        rw (delete_keys, delete_first-keeps key)
          (delete_keys-keeps keys (other (delete_first text (computed key_of) key g)))

  -- Nothing is deleted where no row has a field with the name that the key function answers for it,
  -- even if the key function answers the key for a row.
  pub delete_computed_keeps :
      (key_of : Fields V → String) (keys : List String) (s : Source V)
      → All (λ row. lookup (key_of row) row ≡ none) (items s.rows)
      → (delete_table_data_record text (some (computed key_of)) keys s).rows ≡ s.rows
  unfolding delete_table_data_record
  delete_computed_keeps key_of keys s h = elim (Bool-cases (is_no_row s.rows)) [
    | inl e ↦ rw e
    | inr e ↦ rw e (delete_keys-keeps key_of s.rows h keys s.given)
  ]
