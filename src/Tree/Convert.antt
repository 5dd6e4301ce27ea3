-- ===== src/Tree/Convert.antt =====
-- treeHelper.ts, `treeMap`, `treeMapEach`, `getChildrenIds` and `eachTree`: recursion over a tree.
use mathlib.Core.Path.{ap₂}
use kerthus.Base.{
  ◌≡◌, refl, ap, ◌∙◌, List, [], ◌∷◌, ◌++◌, map, map-append, Option, none, some, or_else,
}
use kerthus.Tree.{Node, leaf, branch, Forest, nil, cons, item, kids, preorder, preorders}
use kerthus.Tree.Walk.{tree_to_list, tree_to_list_lem}

-- What `conversion` answers is an object that may have a `children` field of its own; `none` stands
-- for a falsy answer, and `empty` for the object `{}`.
module _ {ℓ κ} {A : Type ℓ} {B : Type κ} (empty : B) (conversion : Node A → Option (Node B)) where
  abbrev pub conversion_data : Node A → Node B
  conversion_data n = or_else (conversion n) (leaf empty)

  mutual
    tree_map_each : Node A → Node B
    tree_map_each (leaf a) = conversion_data (leaf a)
    tree_map_each (branch a nil) = conversion_data (branch a nil)
    tree_map_each (branch a (cons n f)) =
        branch (item (conversion_data (branch a (cons n f)))) (tree_map (cons n f))

    pub tree_map : Forest A → Forest B
    tree_map nil = nil
    tree_map (cons n f) = cons (tree_map_each n) (tree_map f)

  items-alone : (n : Node B) → kids n ≡ [] → map item (preorder n) ≡ item n ∷ []
  unfolding preorder
  items-alone (leaf b) h = refl
  items-alone (branch b nil) h = refl
  items-alone (branch b (cons n f)) h = cc

  module _ (no_children : (n : Node A) → kids (conversion_data n) ≡ []) where
    abbrev converted : List (Node A) → List B
    converted = map (λ n. item (conversion_data n))

    both :
        (xs ys : List (Node B)) (xs' ys' : List (Node A))
        → map item xs ≡ converted xs'
        → map item ys ≡ converted ys'
        → map item (xs ++ ys) ≡ converted (xs' ++ ys')
    both xs ys xs' ys' h k = rw (map-append, map-append) (ap₂ (◌++◌) h k)

    mutual
      unfolding tree_map_each preorder

      items-tree_map_each :
          (n : Node A) → map item (preorder (tree_map_each n)) ≡ converted (preorder n)
      items-tree_map_each (leaf a) = items-alone _ (no_children (leaf a))
      items-tree_map_each (branch a nil) = items-alone _ (no_children (branch a nil))
      items-tree_map_each (branch a (cons n f)) =
          ap (item (conversion_data (branch a (cons n f))) ∷◌) (
            both (preorder (tree_map_each n)) (preorders (tree_map f)) (preorder n) (preorders f)
              (items-tree_map_each n) (items-tree_map f))

      items-tree_map : (f : Forest A) → map item (preorders (tree_map f)) ≡ converted (preorders f)
      items-tree_map nil = refl
      items-tree_map (cons n f) =
          both (preorder (tree_map_each n)) (preorders (tree_map f)) (preorder n) (preorders f)
            (items-tree_map_each n) (items-tree_map f)

    -- Where the answers of `conversion` have no children of their own, `treeMap` gives a tree with
    -- the converted fields of every node, each once, in the order of the nodes.
    pub tree_map_lem :
        (tree : Forest A)
        → map item (preorders (tree_map tree))
          ≡ map (λ n. item (conversion_data n)) (preorders tree)
    tree_map_lem tree = items-tree_map tree

module _ {ℓ κ} {A : Type ℓ} {K : Type κ} (id : Node A → K) where
  -- The call on an array; `none` is an argument that is no array.
  mutual
    ids_below : Node A → List K
    ids_below (leaf a) = []
    ids_below (branch a f) = ids_of f

    ids_of : Forest A → List K
    ids_of nil = []
    ids_of (cons n f) = id n ∷ (ids_below n ++ ids_of f)

  get_children_ids : Option (Forest A) → List K
  get_children_ids none = []
  get_children_ids (some tree) = ids_of tree

  mutual
    unfolding ids_below preorder

    ids_below-preorder : (n : Node A) → id n ∷ ids_below n ≡ map id (preorder n)
    ids_below-preorder (leaf a) = refl
    ids_below-preorder (branch a f) = ap (id (branch a f) ∷◌) (ids_of-preorders f)

    ids_of-preorders : (f : Forest A) → ids_of f ≡ map id (preorders f)
    ids_of-preorders nil = refl
    ids_of-preorders (cons n f) =
        rw map-append (ap₂ (◌++◌) (ids_below-preorder n) (ids_of-preorders f))

  -- `getChildrenIds` answers the ids of the nodes that `treeToList` lists, in the same order.
  get_children_ids-tree_to_list :
      (tree : Forest A) (ns : List (Node A))
      → tree_to_list tree ≡ some ns
      → get_children_ids (some tree) ≡ map id ns
  unfolding get_children_ids
  get_children_ids-tree_to_list tree ns h =
      ids_of-preorders tree ∙ ap (map id) (cc (tree_to_list_lem tree))

-- `eachTree`: the callback takes the element, the parent's answer and the state that it changes.
module _ {ℓ κ} {A : Type ℓ} {S : Type κ}
    (call_back : Node A → Option (Node A) → S → Option (Node A) × S) where
  mutual
    each_node : Node A → Option (Node A) → S → S
    each_node (leaf a) parent s = (call_back (leaf a) parent s).1
    each_node (branch a f) parent s =
        let (answer, s') = call_back (branch a f) parent s in
        each_tree f (some (or_else answer (branch a f))) s'

    -- `parent` is `none` for the default argument `{}`.
    each_tree : Forest A → Option (Node A) → S → S
    each_tree nil parent s = s
    each_tree (cons n f) parent s = each_tree f parent (each_node n parent s)
