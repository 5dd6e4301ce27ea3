-- ===== src/TreeHook/Insert.antt =====
-- useTree.ts, `insertNodeByKey` and `insertNodesByKey`: the first node with the key, in the order of
-- `forEach`, gets the nodes as children. The callback ends `forEach` when it has changed a node, so the
-- walk is the search for that node, and `none` is a walk that does not find it. `forEach` is called
-- without the names of the fields and goes down into the field `children`: `walks` says that the field
-- of the children has this name. Where it has another one, an object has no field `children`.
pub mod Items
pub mod Added
use kerthus.Base.{
  String, str_eq, Bool, List, [], ◌∷◌, Option, none, some, or_else, is_empty, if◌then◌else◌,
}
use kerthus.Tree.{Node, leaf, branch, Forest, nil, cons, item}

-- The method that an array is changed with.
pub data Push : Type 0 where
  push : Push
  unshift : Push

module _ {ℓ} {A : Type ℓ} where
  abbrev pub pushed : Forest A → Node A → Forest A
  pushed nil m = cons m nil
  pushed (cons n f) m = cons n (pushed f m)

  -- `array[push](node)`
  abbrev pub add_to : Push → Forest A → Node A → Forest A
  add_to push f m = pushed f m
  add_to unshift f m = cons m f

  -- The loop over `list`.
  abbrev pub add_each : Push → Forest A → List (Node A) → Forest A
  add_each how f [] = f
  add_each how f (m ∷ ms) = add_each how (add_to how f m) ms

  -- `treeItem.children = treeItem.children || []`, and the additions.
  abbrev pub with_children : Push → List (Node A) → Node A → Node A
  with_children how ms (leaf a) = branch a (add_each how nil ms)
  with_children how ms (branch a f) = branch a (add_each how f ms)

  abbrev pub in_children : A → Option (Forest A) → Option (Node A)
  in_children a none = none
  in_children a (some f) = some (branch a f)

  abbrev pub in_siblings :
      Node A → Forest A → Option (Node A) → Option (Forest A) → Option (Forest A)
  in_siblings n f (some m) rest = some (cons m f)
  in_siblings n f none (some g) = some (cons n g)
  in_siblings n f none none = none

module _ {ℓ} {A : Type ℓ} (key : A → String) (walks : Bool) (how : Push) (ms : List (Node A)) where
  unfoldable mutual
    pub insert_below : String → Node A → Option (Node A)
    insert_below k (leaf a) = none
    insert_below k (branch a f) =
        let inner = insert_in k f in if walks then in_children a inner else none

    pub insert_in : String → Forest A → Option (Forest A)
    insert_in k nil = none
    insert_in k (cons n f) =
        let inner = insert_below k n in
        let rest = insert_in k f in
        if str_eq (key (item n)) k
        then some (cons (with_children how ms n) f)
        else in_siblings n f inner rest

module _ {ℓ} {A : Type ℓ} (key : A → String) (walks : Bool) where
  -- A parent key that is `null` is "".
  unfoldable pub insert_node_by_key : String → Node A → Push → Forest A → Forest A
  insert_node_by_key parent_key node how tree =
      if is_empty parent_key
      then add_to how tree node
      else or_else (insert_in key walks how (node ∷ []) parent_key tree) tree

  -- Without a parent key the nodes go to a copy that is dropped.
  unfoldable pub insert_nodes_by_key : String → List (Node A) → Push → Forest A → Forest A
  insert_nodes_by_key parent_key [] how tree = tree
  insert_nodes_by_key parent_key (m ∷ ms) how tree =
      if is_empty parent_key
      then tree
      else or_else (insert_in key walks how (m ∷ ms) parent_key tree) tree
