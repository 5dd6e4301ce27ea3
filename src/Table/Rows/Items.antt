-- ===== src/Table/Rows/Items.antt =====
-- The rows of a table in order, without their children.
use kerthus.Base.{◌≡◌, refl, List, [], ◌∷◌, ◌++◌, map, map-append}
use kerthus.Tree.{Node, leaf, branch, Forest, nil, cons, item, preorder, preorders}
use kerthus.Table.Rows.{patched}

module _ {ℓ} {A : Type ℓ} where
  -- The rows in order, without their children, and those of one row and below it.
  abbrev pub items : Forest A → List A
  items f = map item (preorders f)

  abbrev pub items_of : Node A → List A
  items_of n = map item (preorder n)

  abbrev pub no_items : Node A → List A
  no_items n = []

  abbrev pub old_item : Node A → List A
  old_item n = item n ∷ []

  abbrev pub new_item : (A → A) → Node A → List A
  new_item patch n = patch (item n) ∷ []

  pub items-cons : (n : Node A) (f : Forest A) → items (cons n f) ≡ items_of n ++ items f
  unfolding preorders
  items-cons n f = map-append item (preorder n) (preorders f)

  pub items-nil : items nil ≡ []
  unfolding preorders
  items-nil = refl

  pub items_of-leaf : (a : A) → items_of (leaf a) ≡ a ∷ []
  unfolding preorder
  items_of-leaf a = refl

  pub items_of-branch : (a : A) (f : Forest A) → items_of (branch a f) ≡ a ∷ items f
  unfolding preorder
  items_of-branch a f = refl

  -- What is below a row.
  abbrev pub inner : Node A → List A
  inner (leaf a) = []
  inner (branch a f) = items f

  pub items_of-inner : (n : Node A) → items_of n ≡ item n ∷ inner n
  unfolding preorder
  items_of-inner (leaf a) = refl
  items_of-inner (branch a f) = refl

  pub items_of-patched :
      (patch : A → A) (n : Node A) → items_of (patched patch n) ≡ patch (item n) ∷ inner n
  unfolding preorder
  items_of-patched patch (leaf a) = refl
  items_of-patched patch (branch a f) = refl
