-- ===== src/Table/Keys.antt =====
-- useDataSource.ts, `setTableKey` and `getDataSourceRef`: keys for the rows that have none. `truthy`
-- tests a value, and `uuid n` is the answer of the call `n` of `buildUUID`.
use kerthus.Base.{
  ℕ, suc, ◌≡◌, refl, ap, ◌∙◌, Bool, true, false, not, ◌||◌, Bool-cases, ◌⊎◌, inl, inr, List, [],
  ◌∷◌, ◌++◌, Option, none, some, lookup, put, if◌then◌else◌, All, lookup-put_self,
}
use kerthus.Tree.{Node, leaf, branch, Forest, nil, cons, item}
use kerthus.Table.{Fields}
use kerthus.Table.Rows.Items.{
  items, items_of, items-cons, items-nil, items_of-leaf, items_of-branch,
}

module _ {ℓ} {V : Type ℓ} (truthy : V → Bool) (uuid : ℕ → V) where
  abbrev is_set : Option V → Bool
  is_set none = false
  is_set (some v) = truthy v

  -- `item[ROW_KEY]` as a test
  abbrev has_key : Fields V → Bool
  has_key row = is_set (lookup "key" row)

  -- A row, with the number of the calls of `buildUUID` so far.
  abbrev pub set_key : Fields V → ℕ → Fields V × ℕ
  set_key row c = if has_key row then (row, c) else (put "key" (uuid c) row, suc c)

  mutual
    pub set_table_key : Forest (Fields V) → ℕ → Forest (Fields V) × ℕ
    set_table_key nil c = (nil, c)
    set_table_key (cons n f) c =
        let (m, d) = set_node_key n c in let (g, e) = set_table_key f d in (cons m g, e)

    pub set_node_key : Node (Fields V) → ℕ → Node (Fields V) × ℕ
    set_node_key (leaf a) c = let (b, d) = set_key a c in (leaf b, d)
    set_node_key (branch a f) c =
        let (b, d) = set_key a c in let (g, e) = set_table_key f d in (branch b g, e)

  -- `dataSource[dataSource.length - 1]`, for a row and those behind it.
  abbrev last_row : Node (Fields V) → Forest (Fields V) → Node (Fields V)
  last_row n nil = n
  last_row n (cons m f) = last_row m f

  abbrev lacks_key : Forest (Fields V) → Bool
  lacks_key nil = false
  lacks_key (cons n f) = not (has_key (item n)) || not (has_key (item (last_row n f)))

  pub get_data_source : (auto_key : Bool) → Forest (Fields V) → ℕ → Forest (Fields V) × ℕ
  get_data_source false rows c = (rows, c)
  get_data_source true rows c = if lacks_key rows then set_table_key rows c else (rows, c)

  -- A row behind the loop: it had a key and is as it was, or it had none and has a new one.
  abbrev HasKept : Fields V → Fields V → Type ℓ
  HasKept row new =
      ((has_key row ≡ true) × (new ≡ row))
      ⊎ ((has_key row ≡ false) × (c : ℕ) × (new ≡ put "key" (uuid c) row))

  -- The rows before and behind the loop, in order.
  pub data Keyed : List (Fields V) → List (Fields V) → Type ℓ where
    done : Keyed [] []
    both :
        {x y : Fields V} {xs ys : List (Fields V)}
        → HasKept x y
        → Keyed xs ys
        → Keyed (x ∷ xs) (y ∷ ys)

  Keyed-append :
      {xs ys us vs : List (Fields V)} → Keyed xs us → Keyed ys vs → Keyed (xs ++ ys) (us ++ vs)
  Keyed-append done k = k
  Keyed-append (both h t) k = both h (Keyed-append t k)

  set_key-HasKept : (row : Fields V) (c : ℕ) → HasKept row (set_key row c).0
  set_key-HasKept row c = elim (Bool-cases (has_key row)) [
    | inl e ↦ rw e (inl (refl, refl))
    | inr e ↦ rw e (inr (refl, c, refl))
  ]

  mutual
    unfolding set_table_key

    set_table_key-Keyed :
        (f : Forest (Fields V)) (c : ℕ) → Keyed (items f) (items (set_table_key f c).0)
    set_table_key-Keyed nil c = rw items-nil done
    set_table_key-Keyed (cons n f) c =
        rw
          (items-cons n f, items-cons (set_node_key n c).0 (set_table_key f (set_node_key n c).1).0)
          (Keyed-append (set_node_key-Keyed n c) (set_table_key-Keyed f (set_node_key n c).1))

    set_node_key-Keyed :
        (n : Node (Fields V)) (c : ℕ) → Keyed (items_of n) (items_of (set_node_key n c).0)
    set_node_key-Keyed (leaf a) c =
        rw (items_of-leaf a, items_of-leaf (set_key a c).0) (both (set_key-HasKept a c) done)
    set_node_key-Keyed (branch a f) c =
        rw
          (items_of-branch a f, items_of-branch (set_key a c).0 (set_table_key f (set_key a c).1).0)
          (both (set_key-HasKept a c) (set_table_key-Keyed f (set_key a c).1))

  abbrev pub HasKey : Fields V → Type 0
  HasKey row = has_key row ≡ true

  HasKept-HasKey :
      (row new : Fields V) → ((c : ℕ) → truthy (uuid c) ≡ true) → HasKept row new → HasKey new
  HasKept-HasKey row new u (inl (h, e)) = ap has_key e ∙ h
  HasKept-HasKey row new u (inr (h, c, e)) =
      ap has_key e ∙ ap is_set (lookup-put_self "key" (uuid c) row) ∙ u c

  Keyed-HasKey :
      {xs ys : List (Fields V)} → ((c : ℕ) → truthy (uuid c) ≡ true) → Keyed xs ys → All HasKey ys
  Keyed-HasKey u done = tt
  Keyed-HasKey u (both {x} {y} h t) = (HasKept-HasKey x y u h, Keyed-HasKey u t)

  -- With keys that are made automatically, where the first or the last row of a table has no key,
  -- every row has one behind `getDataSourceRef`, at every depth: a row that had a key is as it was,
  -- and one that had none is as it was but for a new key, in the same order.
  pub get_data_source_lem :
      (rows : Forest (Fields V)) (c : ℕ)
      → ((d : ℕ) → truthy (uuid d) ≡ true)
      → lacks_key rows ≡ true
      → Keyed (items rows) (items (get_data_source true rows c).0)
        × All HasKey (items (get_data_source true rows c).0)
  unfolding get_data_source
  get_data_source_lem rows c u h = let k = set_table_key-Keyed rows c in rw h (k, Keyed-HasKey u k)
