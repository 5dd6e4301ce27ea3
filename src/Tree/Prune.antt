-- ===== src/Tree/Prune.antt =====
-- treeHelper.ts, `filter`: the nodes that the callback accepts, with their ancestors.
pub mod Kept
use kerthus.Base.{Bool, true, false, ◌||◌, if◌then◌else◌}
use kerthus.Tree.{Node, leaf, branch, Forest, nil, cons}

module _ {ℓ} {A : Type ℓ} (func : Node A → Bool) where
  -- The test on a copy whose children have been filtered: `node.children && node.children.length`.
  abbrev has_children : Node A → Bool
  has_children (leaf a) = false
  has_children (branch a nil) = false
  has_children (branch a (cons n f)) = true

  abbrev pub keep : Node A → Bool
  keep n = func n || has_children n

  mutual
    -- `listFilter` of the children on a copy of the node.
    pub with_filtered : Node A → Node A
    with_filtered (leaf a) = leaf a
    with_filtered (branch a f) = branch a (list_filter f)

    pub list_filter : Forest A → Forest A
    list_filter nil = nil
    list_filter (cons n f) =
        if keep (with_filtered n) then cons (with_filtered n) (list_filter f) else list_filter f
