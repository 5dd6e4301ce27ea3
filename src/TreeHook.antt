-- ===== src/TreeHook.antt =====
-- web/admin/src/components/Tree/src/hooks/useTree.ts: keys, and edits by key, of the tree of a Tree
-- component. The trees are those of the tree helper; `key` reads the field of the key, and the names
-- of the fields of key and children are given. An edit in place is a function to the tree behind it.
pub mod Keys
pub mod Delete
pub mod Levels
pub mod Update
pub mod Select
pub mod Insert
pub mod Tests
use mathlib.Core.Bool.{not}
use kerthus.Base.{
  ℕ, suc, String, str_eq, Bool, true, false, ◌&&◌, List, [], ◌∷◌, ◌++◌, Option, none, some, ltb,
  if◌then◌else◌, is_empty, ◌==◌,
}
use kerthus.Tree.{Node, leaf, branch, Forest, nil, cons, item}

module _ {ℓ} {A : Type ℓ} (key : A → String) where
  mutual
    pub get_all_keys : Forest A → List String
    get_all_keys nil = []
    get_all_keys (cons n f) = key (item n) ∷ (all_below n ++ get_all_keys f)

    -- `if (children && children.length)` in the loop.
    pub all_below : Node A → List String
    all_below (leaf a) = []
    all_below (branch a nil) = []
    all_below (branch a (cons n f)) = get_all_keys (cons n f)

  mutual
    -- `node_key` has at least one node in the list or below.
    pub get_children_keys : String → Forest A → List String
    get_children_keys node_key nil = []
    get_children_keys node_key (cons n f) =
        (if str_eq node_key (key (item n))
          then key (item n) ∷ all_below n
          else children_below node_key n)
        ++ get_children_keys node_key f

    pub children_below : String → Node A → List String
    children_below node_key (leaf a) = []
    children_below node_key (branch a nil) = []
    children_below node_key (branch a (cons n f)) = get_children_keys node_key (cons n f)

  -- The loop of `deleteNodeByKey`, which breaks off behind a deletion in its own list.
  mutual
    pub delete_in : String → Forest A → Forest A
    delete_in k nil = nil
    delete_in k (cons n f) =
        if str_eq (key (item n)) k then f else cons (delete_below k n) (delete_in k f)

    pub delete_below : String → Node A → Node A
    delete_below k (leaf a) = leaf a
    delete_below k (branch a nil) = branch a nil
    delete_below k (branch a (cons n f)) = branch a (delete_in k (cons n f))

  pub delete_node_by_key : String → Forest A → Forest A
  delete_node_by_key k tree = if is_empty k then tree else delete_in k tree

  -- The loop of `updateNodeByKey`; `merge x` is `{ ...x, ...node }`.
  module _ (merge : Node A → Node A) where
    mutual
      pub update_in : String → Forest A → Forest A
      update_in k nil = nil
      update_in k (cons n f) =
          if str_eq (key (item n)) k
          then cons (merge n) f
          else cons (update_below k n) (update_in k f)

      pub update_below : String → Node A → Node A
      update_below k (leaf a) = leaf a
      update_below k (branch a nil) = branch a nil
      update_below k (branch a (cons n f)) = branch a (update_in k (cons n f))

    pub update_node_by_key : String → Forest A → Forest A
    update_node_by_key k tree = if is_empty k then tree else update_in k tree

  -- The loop of `filterByLevel`, which counts `currentLevel` up at every node that it opens.
  mutual
    pub list_levels : ℕ → Forest A → ℕ → List String
    list_levels level nil current = []
    list_levels level (cons n f) current =
        key (item n) ∷ levels_below level n current (list_levels level f)

    -- `rest` is the loop behind the node.
    levels_below : ℕ → Node A → ℕ → (ℕ → List String) → List String
    levels_below level (leaf a) current rest = rest current
    levels_below level (branch a nil) current rest = rest current
    levels_below level (branch a (cons n g)) current rest =
        let opened = list_levels level (cons n g) (suc current) ++ rest (suc current) in
        if ltb current level then opened else rest current

  pub filter_by_level : ℕ → Forest A → List String
  filter_by_level level tree = if level == 0 then [] else list_levels level tree 1

module _ {ℓ} {A : Type ℓ} (disabled selectable : A → Bool) where
  -- `node.disabled !== true && node.selectable !== false`
  abbrev pub is_enabled : A → Bool
  is_enabled a = not (disabled a) && selectable a

module _ {ℓ} {A : Type ℓ} (key : A → String) (disabled selectable : A → Bool) where
  mutual
    pub get_enabled_keys : Forest A → List String
    get_enabled_keys nil = []
    get_enabled_keys (cons n f) =
        let rest = enabled_below n ++ get_enabled_keys f in
        if is_enabled disabled selectable (item n) then key (item n) ∷ rest else rest

    pub enabled_below : Node A → List String
    enabled_below (leaf a) = []
    enabled_below (branch a nil) = []
    enabled_below (branch a (cons n f)) = get_enabled_keys (cons n f)

-- `getSelectedNode`; `own_key` says that the field `key` of the object, whatever the name of the field
-- of the keys is, is truthy or 0. `none` is `null`.
module _ {ℓ} {A : Type ℓ} (key : A → String) (own_key : A → Bool) where
  abbrev pub is_done : Option (Node A) → Bool
  is_done none = false
  is_done (some n) = own_key (item n)

  mutual
    pub select_in : String → Forest A → Option (Node A) → Option (Node A)
    select_in k nil selected = selected
    select_in k (cons n f) selected =
        let below = select_below k n selected in
        select_in k f
          (if is_done selected then selected else if str_eq (key (item n)) k then some n else below)

    pub select_below : String → Node A → Option (Node A) → Option (Node A)
    select_below k (leaf a) selected = selected
    select_below k (branch a nil) selected = selected
    select_below k (branch a (cons n f)) selected = select_in k (cons n f) selected

  pub get_selected_node : String → Forest A → Option (Node A)
  get_selected_node k tree = if is_empty k then none else select_in k tree none
