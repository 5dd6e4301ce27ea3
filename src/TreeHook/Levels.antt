-- ===== src/TreeHook/Levels.antt =====
-- useTree.ts, `filterByLevel`: which nodes are listed at a level above the first.
use mathlib.Core.Path.{ap₂}
use kerthus.Base.{ℕ, ◌≡◌, refl, ap, String, List, [], ◌∷◌, ◌++◌, arith}
use kerthus.Tree.{Node, leaf, branch, Forest, nil, cons, item}
use kerthus.TreeHook.{list_levels, filter_by_level}

module _ {ℓ} {A : Type ℓ} (key : A → String) where
  -- The keys of the nodes of the list, without those below.
  abbrev pub top_keys : Forest A → List String
  top_keys nil = []
  top_keys (cons n f) = key (item n) ∷ top_keys f

  -- At the last level no node is opened.
  list_levels-last :
      (level : ℕ) (tree : Forest A) → list_levels key level tree level ≡ top_keys tree
  unfolding list_levels
  list_levels-last level nil = refl
  list_levels-last level (cons (leaf a) f) = ap (key a ∷◌) (list_levels-last level f)
  list_levels-last level (cons (branch a nil) f) = ap (key a ∷◌) (list_levels-last level f)
  list_levels-last level (cons (branch a (cons n g)) f) = ground (arith, list_levels-last level f)

  -- `filterByLevel(2)` lists the children of the first root, if it has any, and of no other root:
  -- the level that the opening of the root counts up is not counted down behind it.
  pub filter_by_level_two :
      (a : A) (n : Node A) (g f : Forest A)
      → filter_by_level key 2 (cons (branch a (cons n g)) f)
        ≡ key a ∷ (top_keys (cons n g) ++ top_keys f)
  unfolding filter_by_level list_levels
  filter_by_level_two a n g f =
      ap (key a ∷◌) (ap₂ (◌++◌) (list_levels-last 2 (cons n g)) (list_levels-last 2 f))
