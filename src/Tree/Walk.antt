-- ===== src/Tree/Walk.antt =====
-- treeHelper.ts, `treeToList` and `forEach`: the loops that splice the children of the element at
-- the loop's index into the list that they run through.
use kerthus.Base.{
  ℕ, zero, suc, ◌+◌, ◌≡◌, refl, sym, ap, ◌∙◌, List, [], ◌∷◌, ◌++◌, append_assoc, append-nil, Option,
  none, some, length, get_elem?, take, drop, arith,
}
use kerthus.Tree.{
  Node, leaf, branch, Forest, nil, cons, kids, to_list, size, sizes, preorder, preorders,
}

module _ {ℓ} {A : Type ℓ} where
  -- `xs.splice(i, 0, ...ys)`
  pub splice : ℕ → List A → List A → List A
  splice i ys xs = take i xs ++ (ys ++ drop i xs)

  take-length : (xs ys : List A) → take (length xs) (xs ++ ys) ≡ xs
  take-length [] [] = refl
  take-length [] (_ ∷ _) = refl
  take-length (x ∷ xs) ys = ap (x ∷◌) (take-length xs ys)

  drop-length : (xs ys : List A) → drop (length xs) (xs ++ ys) ≡ ys
  drop-length [] ys = refl
  drop-length (x ∷ xs) ys = drop-length xs ys

  splice-length : (xs ys zs : List A) → splice (length xs) ys (xs ++ zs) ≡ xs ++ (ys ++ zs)
  unfolding splice
  splice-length xs ys zs = rw (take-length xs zs, drop-length xs zs)

  pub get_elem?-length : (xs ys : List A) (y : A) → get_elem? (xs ++ y ∷ ys) (length xs) ≡ some y
  get_elem?-length [] ys y = refl
  get_elem?-length (x ∷ xs) ys y = get_elem?-length xs ys y

  pub get_elem?-length_end : (xs : List A) → get_elem? xs (length xs) ≡ none
  get_elem?-length_end [] = refl
  get_elem?-length_end (x ∷ xs) = get_elem?-length_end xs

module _ {ℓ} {A : Type ℓ} where
  -- The body of both loops behind its test: `if (!result[i].children) continue;` then the splice.
  pub expand : ℕ → Node A → List (Node A) → List (Node A)
  expand i (leaf a) result = result
  expand i (branch a f) result = splice (suc i) (to_list f) result

  -- `none` means that the fuel ran out.
  tree_to_list_loop : ℕ → ℕ → List (Node A) → Option (List (Node A))
  tree_to_list_loop zero i result = none
  tree_to_list_loop (suc fuel) i result = elim (get_elem? result i) [
    | none ↦ some result
    | some n ↦ tree_to_list_loop fuel (suc i) (expand i n result)
  ]

  pub tree_to_list : Forest A → Option (List (Node A))
  tree_to_list tree = tree_to_list_loop (suc (sizes tree)) 0 (to_list tree)

  pub length-concat : (xs : List (Node A)) (n : Node A) → length (xs ++ n ∷ []) ≡ suc (length xs)
  length-concat [] n = refl
  length-concat (x ∷ xs) n = ap suc (length-concat xs n)

  pub expand-length :
      (n : Node A) (done rest : List (Node A))
      → expand (length done) n (done ++ n ∷ rest) ≡ (done ++ n ∷ []) ++ (kids n ++ rest)
  unfolding expand
  expand-length (leaf a) done rest = sym (append_assoc done _ _)
  expand-length (branch a f) done rest =
      rw (← length-concat done (branch a f), ← append_assoc done (branch a f ∷ []) rest)
        (splice-length (done ++ branch a f ∷ []) (to_list f) rest)

  tree_to_list_loop-suc :
      (n : Node A) (m : ℕ) (done rest : List (Node A))
      → tree_to_list_loop (suc m) (length done) (done ++ n ∷ rest)
        ≡ tree_to_list_loop m (length (done ++ n ∷ [])) ((done ++ n ∷ []) ++ (kids n ++ rest))
  unfolding tree_to_list_loop
  tree_to_list_loop-suc n m done rest =
      rw (get_elem?-length done rest n, tree_to_list_loop, length-concat, expand-length)

  same_fuel :
      {m k : ℕ}
      → m ≡ k
      → (i : ℕ) (l : List (Node A)) → tree_to_list_loop m i l ≡ tree_to_list_loop k i l
  same_fuel h i l = ap (λ f. tree_to_list_loop f i l) h

  mutual
    unfolding size preorder

    loop-node :
        (n : Node A) (m k : ℕ) (done rest : List (Node A))
        → m ≡ size n + k
        → tree_to_list_loop m (length done) (done ++ n ∷ rest)
          ≡ tree_to_list_loop k (length (done ++ preorder n)) ((done ++ preorder n) ++ rest)
    loop-node (leaf a) zero k done rest h = absurd (omega arith)
    loop-node (branch a f) zero k done rest h = absurd (omega arith)
    loop-node (leaf a) (suc m) k done rest h =
        tree_to_list_loop-suc (leaf a) m done rest ∙ same_fuel (omega arith) _ _
    loop-node (branch a f) (suc m) k done rest h =
        tree_to_list_loop-suc (branch a f) m done rest
        ∙ loop-forest f m k (done ++ branch a f ∷ []) rest (omega arith)
        ∙ ap (λ l. tree_to_list_loop k (length l) (l ++ rest))
            (append_assoc done (branch a f ∷ []) (preorders f))

    loop-forest :
        (f : Forest A) (m k : ℕ) (done rest : List (Node A))
        → m ≡ sizes f + k
        → tree_to_list_loop m (length done) (done ++ (to_list f ++ rest))
          ≡ tree_to_list_loop k (length (done ++ preorders f)) ((done ++ preorders f) ++ rest)
    loop-forest nil m k done rest h = rw (append-nil done) (same_fuel (omega arith) _ _)
    loop-forest (cons n f) m k done rest h =
        loop-node n m (sizes f + k) done (to_list f ++ rest) (omega arith)
        ∙ loop-forest f (sizes f + k) k (done ++ preorder n) rest refl
        ∙ ap (λ l. tree_to_list_loop k (length l) (l ++ rest))
            (append_assoc done (preorder n) (preorders f))

  at_end : (l : List (Node A)) → tree_to_list_loop 1 (length l) (l ++ []) ≡ some l
  unfolding tree_to_list_loop
  at_end l = rw (append-nil l) (rw (get_elem?-length_end l, tree_to_list_loop) refl)

  -- `treeToList` ends, and lists every node once: each parent, then its descendants, in order.
  pub tree_to_list_lem : (tree : Forest A) → tree_to_list tree ≡ some (preorders tree)
  unfolding tree_to_list
  tree_to_list_lem tree =
      ap (tree_to_list_loop (suc (sizes tree)) 0) (sym (append-nil (to_list tree)))
      ∙ loop-forest tree (suc (sizes tree)) 1 [] [] (omega arith)
      ∙ at_end (preorders tree)
