-- ===== src/TreeHook/Select.antt =====
-- useTree.ts, `getSelectedNode`.
use kerthus.Base.{
  ◌≡◌, refl, sym, ap, ◌∙◌, inl, inr, String, str_eq, Bool, true, false, Bool-cases, List, [], ◌∷◌,
  ◌++◌, Option, none, some, find, if◌then◌else◌, is_empty,
}
use kerthus.Tree.{Node, leaf, branch, Forest, nil, cons, item, preorder, preorders}
use kerthus.TreeHook.{is_done, select_in, select_below, get_selected_node}

-- Every object has a `key` of its own.
module _ {ℓ} {A : Type ℓ} (key : A → String) (k : String) where
  abbrev matches : Node A → Bool
  matches n = str_eq (key (item n)) k

  abbrev always : A → Bool
  always a = true

  -- The first of the answers.
  abbrev or_find : Option (Node A) → List (Node A) → Option (Node A)
  or_find (some n) ns = some n
  or_find none ns = find matches ns

  or_find-append :
      (s : Option (Node A)) (xs ys : List (Node A))
      → or_find s (xs ++ ys) ≡ or_find (or_find s xs) ys
  or_find-append (some n) xs ys = refl
  or_find-append none [] ys = refl
  or_find-append none (x ∷ xs) ys = elim (Bool-cases (matches x)) [
    | inl h ↦ rw h refl
    | inr h ↦ rw h (or_find-append none xs ys)
  ]

  or_find-nil : (s : Option (Node A)) → or_find s [] ≡ s
  or_find-nil none = refl
  or_find-nil (some n) = refl

  -- One round of the loop, from what is found below the node.
  abbrev round : Node A → Option (Node A) → Option (Node A) → Option (Node A)
  round n s below = if is_done key always s then s else if matches n then some n else below

  round_lem :
      (n : Node A) (ns : List (Node A)) (s below : Option (Node A))
      → below ≡ or_find s ns
      → round n s below ≡ or_find s (n ∷ ns)
  round_lem n ns (some m) below e = refl
  round_lem n ns none below e = rw e refl

  mutual
    unfolding select_in preorder

    select_step_lem :
        (n : Node A) (s : Option (Node A))
        → round n s (select_below key always k n s) ≡ or_find s (preorder n)
    select_step_lem (leaf a) s = round_lem (leaf a) [] s s (sym (or_find-nil s))
    select_step_lem (branch a nil) s = round_lem (branch a nil) [] s s (sym (or_find-nil s))
    select_step_lem (branch a (cons n f)) s =
        round_lem (branch a (cons n f)) (preorders (cons n f)) s
          (select_in key always k (cons n f) s) (select_in_lem (cons n f) s)

    select_in_lem :
        (tree : Forest A) (s : Option (Node A))
        → select_in key always k tree s ≡ or_find s (preorders tree)
    select_in_lem nil s = sym (or_find-nil s)
    select_in_lem (cons n f) s =
        select_in_lem f (round n s (select_below key always k n s))
        ∙ ap (λ o. or_find o (preorders f)) (select_step_lem n s)
        ∙ sym (or_find-append s (preorder n) (preorders f))

  -- Where every object has a `key`, `getSelectedNode` with a key that is not empty answers the first
  -- node with the key in the order of `getAllKeys`, or `null` if there is none.
  pub get_selected_node_lem :
      (tree : Forest A)
      → is_empty k ≡ false
      → get_selected_node key (λ a. true) k tree
        ≡ find (λ n. str_eq (key (item n)) k) (preorders tree)
  unfolding get_selected_node
  get_selected_node_lem tree e = rw e (select_in_lem tree none)
