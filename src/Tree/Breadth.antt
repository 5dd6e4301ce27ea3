-- ===== src/Tree/Breadth.antt =====
-- treeHelper.ts, `findNode` and `findNodeAll`: a `for … of` loop over a list that the loop's body
-- makes longer, so that the nodes come level by level.
pub mod Levels
use mathlib.Core.List.{Perm}
use kerthus.Base.{
  ℕ, zero, suc, ◌+◌, ◌<◌, ◌≡◌, refl, sym, ap, ◌∙◌, Bool, true, false, Bool-cases, inl, inr, List,
  [], ◌∷◌, ◌++◌, append_assoc, append-nil, Option, none, some, arith, if◌then◌else◌, filter,
  filter-append, find,
}
use kerthus.Tree.{Node, leaf, branch, Forest, nil, cons, kids, to_list, sizes, preorders}
use kerthus.Tree.Breadth.Levels.{
  behind, behind-cons, behind-nil, behind_empty, behind-to_list, weight, weight-append, weight-kids,
  weight-to_list, level_order, level_order-perm,
}

module _ {ℓ} {A : Type ℓ} (func : Node A → Bool) where
  -- The list from the loop's index on; the outer `none` means that the fuel ran out, the inner one
  -- is the `null` of the source.
  find_node_loop : ℕ → List (Node A) → Option (Option (Node A))
  find_node_loop zero pending = none
  find_node_loop (suc fuel) [] = some none
  find_node_loop (suc fuel) (node ∷ pending) =
      let rest = find_node_loop fuel (pending ++ kids node) in
      if func node then some (some node) else rest

  pub find_node : Forest A → Option (Option (Node A))
  find_node tree = find_node_loop (suc (sizes tree)) (to_list tree)

  find_node_all_loop : ℕ → List (Node A) → List (Node A) → Option (List (Node A))
  find_node_all_loop zero pending result = none
  find_node_all_loop (suc fuel) [] result = some result
  find_node_all_loop (suc fuel) (node ∷ pending) result =
      find_node_all_loop fuel (pending ++ kids node)
        (if func node then result ++ node ∷ [] else result)

  pub find_node_all : Forest A → Option (List (Node A))
  find_node_all tree = find_node_all_loop (suc (sizes tree)) (to_list tree) []

  find_node_loop-nil : (m : ℕ) → find_node_loop (suc m) [] ≡ some (find func (behind [] []))
  unfolding find_node_loop
  find_node_loop-nil m = rw behind_empty refl

  weight_nil : weight {A = A} [] ≡ 0
  unfolding weight
  weight_nil = refl

  -- A round takes the weight of its node away.
  weight-round :
      (m : ℕ) (n : Node A) (now later : List (Node A))
      → weight (n ∷ (now ++ later)) < suc m
      → weight (now ++ (later ++ kids n)) < m
  unfolding weight
  weight-round m n now later h = omega (
    arith,
    weight-kids n,
    weight-append now later,
    weight-append now (later ++ kids n),
    weight-append later (kids n),
  )

  find_node_loop-suc :
      (m : ℕ) (n : Node A) (now later : List (Node A))
      → find_node_loop m (now ++ (later ++ kids n))
        ≡ some (find func (behind now (later ++ kids n)))
      → find_node_loop (suc m) (n ∷ (now ++ later)) ≡ some (find func (behind (n ∷ now) later))
  unfolding find_node_loop
  find_node_loop-suc m n now later ih = rw (behind-cons n now later) (elim (Bool-cases (func n)) [
    | inl t ↦ rw t refl
    | inr t ↦ rw (t, append_assoc now later (kids n)) ih
  ])

  find_node_loop-behind :
      (m : ℕ) (now later : List (Node A))
      → weight (now ++ later) < m
      → find_node_loop m (now ++ later) ≡ some (find func (behind now later))
  find_node_loop-behind zero now later h = absurd (omega arith)
  find_node_loop-behind (suc m) [] [] h = find_node_loop-nil m
  find_node_loop-behind (suc m) [] (n ∷ later) h = rw behind-nil (
      rw append-nil at (
        find_node_loop-suc m n later []
          (find_node_loop-behind m later (kids n) (weight-round m n later [] (rw append-nil h)))))
  find_node_loop-behind (suc m) (n ∷ now) later h =
      find_node_loop-suc m n now later
        (find_node_loop-behind m now (later ++ kids n) (weight-round m n now later h))

  enough : (tree : Forest A) → weight (to_list tree ++ []) < suc (sizes tree)
  enough tree = omega (arith, weight-append (to_list tree) [], weight-to_list tree, weight_nil)

  -- `findNode` ends, with the first accepted node level by level, or `null` if no node is accepted.
  pub find_node_lem : (tree : Forest A) → find_node tree ≡ some (find func (level_order tree))
  unfolding find_node
  find_node_lem tree =
      ap (find_node_loop (suc (sizes tree))) (sym (append-nil (to_list tree)))
      ∙ find_node_loop-behind (suc (sizes tree)) (to_list tree) [] (enough tree)
      ∙ ap (λ l. some (find func l)) (behind-to_list tree)

  find_node_all_loop-suc :
      (m : ℕ) (n : Node A) (now later result : List (Node A))
      → find_node_all_loop (suc m) (n ∷ (now ++ later)) result
        ≡ find_node_all_loop m (now ++ (later ++ kids n)) (result ++ filter func (n ∷ []))
  unfolding find_node_all_loop
  find_node_all_loop-suc m n now later result =
      rw (append_assoc now later (kids n))
        (elim (Bool-cases (func n)) [ inl t ↦ rw t refl | inr t ↦ rw (t, append-nil result) refl ])

  find_node_all_loop-nil :
      (m : ℕ) (result : List (Node A))
      → find_node_all_loop (suc m) [] result ≡ some (result ++ filter func (behind [] []))
  unfolding find_node_all_loop
  find_node_all_loop-nil m result = rw (behind_empty, append-nil result) refl

  filter-behind :
      (n : Node A) (now later result : List (Node A))
      → (result ++ filter func (n ∷ [])) ++ filter func (behind now (later ++ kids n))
        ≡ result ++ filter func (behind (n ∷ now) later)
  filter-behind n now later result =
      append_assoc result (filter func (n ∷ [])) _
      ∙ ap (λ l. result ++ l) (sym (filter-append func (n ∷ []) _))
      ∙ ap (λ l. result ++ filter func l) (sym (behind-cons n now later))

  find_node_all_loop-behind :
      (m : ℕ) (now later result : List (Node A))
      → weight (now ++ later) < m
      → find_node_all_loop m (now ++ later) result ≡ some (result ++ filter func (behind now later))
  find_node_all_loop-behind zero now later result h = absurd (omega arith)
  find_node_all_loop-behind (suc m) [] [] result h = find_node_all_loop-nil m result
  find_node_all_loop-behind (suc m) [] (n ∷ later) result h =
      ap (λ l. find_node_all_loop (suc m) (n ∷ l) result) (sym (append-nil later))
      ∙ find_node_all_loop-suc m n later [] result
      ∙ find_node_all_loop-behind m later (kids n) (result ++ filter func (n ∷ []))
          (weight-round m n later [] (rw append-nil h))
      ∙ ap some (filter-behind n later [] result)
      ∙ ap (λ l. some (result ++ filter func l)) (sym (behind-nil (n ∷ later)))
  find_node_all_loop-behind (suc m) (n ∷ now) later result h =
      find_node_all_loop-suc m n now later result
      ∙ find_node_all_loop-behind m now (later ++ kids n) (result ++ filter func (n ∷ []))
          (weight-round m n now later h)
      ∙ ap some (filter-behind n now later result)

  -- `findNodeAll` ends, with all accepted nodes level by level; these levels hold the nodes of
  -- `treeToList`, each as often.
  pub find_node_all_lem :
      (tree : Forest A)
      → (find_node_all tree ≡ some (filter func (level_order tree)))
        × Perm (level_order tree) (preorders tree)
  unfolding find_node_all
  find_node_all_lem tree = (
    ap (λ l. find_node_all_loop (suc (sizes tree)) l []) (sym (append-nil (to_list tree)))
        ∙ find_node_all_loop-behind (suc (sizes tree)) (to_list tree) [] [] (enough tree)
        ∙ ap (λ l. some (filter func l)) (behind-to_list tree),
    level_order-perm tree,
  )
