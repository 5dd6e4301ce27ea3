-- ===== src/Tree.antt =====
-- web/admin/src/utils/helper/treeHelper.ts: the trees that its functions take.
-- An object of a tree is a `leaf` where its `children` field is missing, `undefined` or `null`, and
-- a `branch` where the field holds an array, an empty one included. `A` holds the other fields.
pub mod Walk
pub mod ForEach
pub mod Path
pub mod Breadth
pub mod Prune
pub mod Convert
pub mod Build
pub mod Ancestor
pub mod Tests
use kerthus.Base.{
  ℕ, suc, ◌+◌, ◌≡◌, refl, ap, sym, ◌∙◌, List, [], ◌∷◌, ◌++◌, append_assoc, length, length-append,
  arith,
}

mutual
  pub data Node {ℓ} (A : Type ℓ) : Type ℓ where
    leaf : A → Node A
    branch : A → Forest A → Node A

  pub data Forest {ℓ} (A : Type ℓ) : Type ℓ where
    nil : Forest A
    cons : Node A → Forest A → Forest A

module _ {ℓ} {A : Type ℓ} where
  abbrev pub item : Node A → A
  item (leaf a) = a
  item (branch a f) = a

  -- `[...tree]`
  abbrev pub to_list : Forest A → List (Node A)
  to_list nil = []
  to_list (cons n f) = n ∷ to_list f

  -- `node[children] && list.push(...node[children])` pushes these.
  abbrev pub kids : Node A → List (Node A)
  kids (leaf a) = []
  kids (branch a f) = to_list f

-- The number of nodes, and the nodes in the order "parent, then its children, then what follows".
mutual
  pub size {ℓ} : {A : Type ℓ} → Node A → ℕ
  size (leaf a) = 1
  size (branch a f) = suc (sizes f)

  pub sizes {ℓ} : {A : Type ℓ} → Forest A → ℕ
  sizes nil = 0
  sizes (cons n f) = size n + sizes f

unfoldable mutual
  pub preorder {ℓ} : {A : Type ℓ} → Node A → List (Node A)
  preorder (leaf a) = leaf a ∷ []
  preorder (branch a f) = branch a f ∷ preorders f

  pub preorders {ℓ} : {A : Type ℓ} → Forest A → List (Node A)
  preorders nil = []
  preorders (cons n f) = preorder n ++ preorders f
