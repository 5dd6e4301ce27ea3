-- ===== src/Tree/Breadth/Levels.antt =====
-- The nodes of a tree level by level, and what a loop that is inside a level has before it.
use mathlib.Core.List.{Perm, perm_append_comm}
use mathlib.Core.List.Perm
use kerthus.Base.{
  ℕ, suc, ◌+◌, ◌≡◌, refl, sym, ap, ◌∙◌, List, [], ◌∷◌, ◌++◌, append_assoc, append-nil, arith,
}
use kerthus.Tree.{
  Node, leaf, branch, Forest, nil, cons, kids, to_list, size, sizes, preorder, preorders,
}

module _ {ℓ} {A : Type ℓ} where
  -- Two lists of levels side by side.
  beside : List (List A) → List (List A) → List (List A)
  beside [] ys = ys
  beside (x ∷ xs) [] = x ∷ xs
  beside (x ∷ xs) (y ∷ ys) = (x ++ y) ∷ beside xs ys

  beside_assoc : (xs ys zs : List (List A)) → beside (beside xs ys) zs ≡ beside xs (beside ys zs)
  unfolding beside
  beside_assoc [] ys zs = refl
  beside_assoc (x ∷ xs) [] zs = refl
  beside_assoc (x ∷ xs) (y ∷ ys) [] = refl
  beside_assoc (x ∷ xs) (y ∷ ys) (z ∷ zs) = cc (append_assoc x y z, beside_assoc xs ys zs)

  beside-nil : (xs : List (List A)) → beside xs [] ≡ xs
  unfolding beside
  beside-nil [] = refl
  beside-nil (x ∷ xs) = refl

  join : List (List A) → List A
  join [] = []
  join (x ∷ xs) = x ++ join xs

  join-beside_next :
      (a : A) (later next now : List (List A))
      → join (beside ([] ∷ later) (beside ((a ∷ []) ∷ next) now))
        ≡ a ∷ join (beside ([] ∷ beside later next) now)
  unfolding join beside
  join-beside_next a later next [] = refl
  join-beside_next a later next (x ∷ now) =
      ap (λ l. a ∷ (x ++ join l)) (sym (beside_assoc later next now))

  join-beside_nil : (xs : List (List A)) → join (beside ([] ∷ []) xs) ≡ join xs
  unfolding join beside
  join-beside_nil [] = refl
  join-beside_nil (x ∷ xs) = refl

  join-perm : (xs ys : List (List A)) → Perm (join (beside xs ys)) (join xs ++ join ys)
  unfolding join beside
  join-perm [] ys = Perm.refl _
  join-perm (x ∷ xs) [] = rw append-nil (Perm.refl _)
  join-perm (x ∷ xs) (y ∷ ys) = Perm.trans (Perm.append_left (x ++ y) (join-perm xs ys)) (
      rw (append_assoc x y, append_assoc x (join xs))
        (Perm.append_left x (
          rw (← append_assoc y (join xs) (join ys), ← append_assoc (join xs) y (join ys))
            (Perm.append_right (join ys) (perm_append_comm y (join xs))))))

module _ {ℓ} {A : Type ℓ} where
  mutual
    pub levels : Node A → List (List (Node A))
    levels (leaf a) = (leaf a ∷ []) ∷ []
    levels (branch a f) = (branch a f ∷ []) ∷ levels_all f

    levels_all : Forest A → List (List (Node A))
    levels_all nil = []
    levels_all (cons n f) = beside (levels n) (levels_all f)

  levels_of : List (Node A) → List (List (Node A))
  levels_of [] = []
  levels_of (n ∷ ns) = beside (levels n) (levels_of ns)

  pub level_order : Forest A → List (Node A)
  level_order tree = join (levels_all tree)

  -- What a loop visits with `now` left of a level, and `later` the known part of the next one.
  pub behind : List (Node A) → List (Node A) → List (Node A)
  behind now later = join (beside ([] ∷ levels_of later) (levels_of now))

  levels_of-append :
      (xs ys : List (Node A)) → levels_of (xs ++ ys) ≡ beside (levels_of xs) (levels_of ys)
  unfolding levels_of beside
  levels_of-append [] ys = refl
  levels_of-append (x ∷ xs) ys =
      ap (beside (levels x)) (levels_of-append xs ys) ∙ sym (beside_assoc (levels x) _ _)

  levels_of-to_list : (f : Forest A) → levels_of (to_list f) ≡ levels_all f
  unfolding levels_of levels
  levels_of-to_list nil = refl
  levels_of-to_list (cons n f) = ap (beside (levels n)) (levels_of-to_list f)

  levels-kids : (n : Node A) → levels n ≡ (n ∷ []) ∷ levels_of (kids n)
  unfolding levels levels_of
  levels-kids (leaf a) = refl
  levels-kids (branch a f) = rw (levels_of-to_list f)

  pub behind-cons :
      (n : Node A) (now later : List (Node A))
      → behind (n ∷ now) later ≡ n ∷ behind now (later ++ kids n)
  unfolding behind levels_of
  behind-cons n now later =
      rw (levels-kids n, levels_of-append later (kids n)) (join-beside_next n _ _ _)

  pub behind-nil : (later : List (Node A)) → behind [] later ≡ behind later []
  unfolding behind levels_of join
  behind-nil later =
      ap join (beside-nil ([] ∷ levels_of later)) ∙ sym (join-beside_nil (levels_of later))

  pub behind_empty : behind [] [] ≡ []
  unfolding behind levels_of join beside
  behind_empty = refl

  pub behind-to_list : (tree : Forest A) → behind (to_list tree) [] ≡ level_order tree
  unfolding behind levels_of level_order
  behind-to_list tree =
      join-beside_nil (levels_of (to_list tree)) ∙ ap join (levels_of-to_list tree)

  unfoldable pub weight : List (Node A) → ℕ
  weight [] = 0
  weight (n ∷ ns) = size n + weight ns

  pub weight-append : (xs ys : List (Node A)) → weight (xs ++ ys) ≡ weight xs + weight ys
  unfolding weight
  weight-append [] ys = omega arith
  weight-append (x ∷ xs) ys = omega (arith, weight-append xs ys)

  pub weight-to_list : (f : Forest A) → weight (to_list f) ≡ sizes f
  unfolding weight size
  weight-to_list nil = refl
  weight-to_list (cons n f) = ap (λ k. size n + k) (weight-to_list f)

  pub weight-kids : (n : Node A) → suc (weight (kids n)) ≡ size n
  unfolding weight size
  weight-kids (leaf a) = refl
  weight-kids (branch a f) = ap suc (weight-to_list f)

  mutual
    unfolding levels preorder join

    levels-perm : (n : Node A) → Perm (join (levels n)) (preorder n)
    levels-perm (leaf a) = Perm.refl _
    levels-perm (branch a f) = Perm.cons (branch a f) (levels_all-perm f)

    levels_all-perm : (f : Forest A) → Perm (join (levels_all f)) (preorders f)
    levels_all-perm nil = Perm.refl _
    levels_all-perm (cons n f) =
        Perm.trans (join-perm (levels n) (levels_all f))
          (Perm.append (levels-perm n) (levels_all-perm f))

  -- Level by level a tree has the nodes that it has in the order of `treeToList`.
  pub level_order-perm : (tree : Forest A) → Perm (level_order tree) (preorders tree)
  unfolding level_order
  level_order-perm tree = levels_all-perm tree
