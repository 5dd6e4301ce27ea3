-- ===== src/Tree/Path/Sound.antt =====
-- What `findPath` answers: a path down the tree to an accepted node, or `null` if there is none.
use mathlib.Core.List.{Memᴰ, reverse-cons}
use kerthus.Base.{
  ℕ, ◌≡◌, refl, ap, ◌∙◌, ◌↔◌, Bool, true, false, Bool-cases, Option-cases, inl, inr, List, [], ◌∷◌,
  ◌++◌, append_assoc, reverse, Option, none, some, arith, All, All-append, All-split,
}
use kerthus.Tree.{Node, leaf, branch, Forest, nil, cons, kids, to_list, preorder, preorders}
use kerthus.Tree.Path.{first, AreFresh, chain, chain_all, refs_all, find_path, find_path_lem}

module _ {ℓ} {A : Type ℓ} where
  -- Each node of a path is a child of the one before it.
  abbrev pub Leads : List (Node A) → List (Node A) → Type ℓ
  Leads ns [] = Unit
  Leads ns (n ∷ p) = Memᴰ n ns × Leads (kids n) p

module _ {ℓ} {A : Type ℓ} (ref : A → ℕ) (func : Node A → Bool) where
  -- The last node of `n ∷ q` is accepted.
  abbrev pub Ends : Node A → List (Node A) → Type 0
  Ends n [] = func n ≡ true
  Ends n (m ∷ q) = Ends m q

  abbrev IsFound : List (Node A) → List (Node A) → List (Node A) → Type ℓ
  IsFound ns path p =
      (n : Node A) × (q : List (Node A)) × (p ≡ reverse path ++ n ∷ q)
      × Memᴰ n ns
      × Leads (kids n) q
      × Ends n q

  IsFound-down :
      (n : Node A) (path p : List (Node A))
      → IsFound (kids n) (n ∷ path) p
      → IsFound (n ∷ []) path p
  IsFound-down n path p (m, q, e, h, l, k) =
      (n, m ∷ q, e ∙ rw (reverse-cons, append_assoc), Memᴰ.head refl, (h, l), k)

  IsFound-later :
      (n : Node A) (ns path p : List (Node A)) → IsFound ns path p → IsFound (n ∷ ns) path p
  IsFound-later n ns path p (m, q, e, h, l, k) = (m, q, e, Memᴰ.tail h, l, k)

  IsFound-first :
      (n : Node A) (ns path p : List (Node A)) → IsFound (n ∷ []) path p → IsFound (n ∷ ns) path p
  IsFound-first n ns path p (m, q, e, Memᴰ.head same, l, k) = (m, q, e, Memᴰ.head same, l, k)
  IsFound-first n ns path p (m, q, e, Memᴰ.tail none_left, l, k) = elim none_left [ ]

  -- The node itself is accepted.
  IsFound-here :
      (n : Node A) (path p : List (Node A))
      → func n ≡ true
      → some (reverse (n ∷ path)) ≡ some p
      → IsFound (n ∷ []) path p
  IsFound-here n path p t e = (n, [], cc (reverse-cons n path), Memᴰ.head refl, tt, t)

  mutual
    unfolding chain

    chain_sound :
        (n : Node A) (path p : List (Node A))
        → chain ref func n path ≡ some p
        → IsFound (n ∷ []) path p
    chain_sound (leaf a) path p e = elim (Bool-cases (func (leaf a))) [
      | inl t ↦ IsFound-here (leaf a) path p t (rw t at e)
      | inr t ↦ ground arith
    ]
    chain_sound (branch a f) path p e = elim (Bool-cases (func (branch a f))) [
      | inl t ↦ IsFound-here (branch a f) path p t (rw t at e)
      | inr t ↦
          IsFound-down (branch a f) path p (chain_all_sound f (branch a f ∷ path) p (rw t at e))
    ]

    chain_all_sound :
        (f : Forest A) (path p : List (Node A))
        → chain_all ref func f path ≡ some p
        → IsFound (to_list f) path p
    chain_all_sound nil path p e = cc
    chain_all_sound (cons n f) path p e = elim (Option-cases (chain ref func n path)) [
      | inl missed ↦ IsFound-later n (to_list f) path p (chain_all_sound f path p (rw missed at e))
      | inr (q, hit) ↦ IsFound-first n (to_list f) path p (chain_sound n path p (hit ∙ rw hit at e))
    ]

  first-none : (x y : Option (List (Node A))) → first x y ≡ none → (x ≡ none) × (y ≡ none)
  first-none none y e = (refl, e)
  first-none (some p) y e = cc

  mutual
    unfolding chain preorder

    chain-none_iff :
        (n : Node A) (path : List (Node A))
        → (chain ref func n path ≡ none) ↔ All (λ m. func m ≡ false) (preorder n)
    chain-none_iff (leaf a) path = ground arith
    chain-none_iff (branch a f) path = ground (arith, chain_all-none_iff f (branch a f ∷ path))

    chain_all-none_iff :
        (f : Forest A) (path : List (Node A))
        → (chain_all ref func f path ≡ none) ↔ All (λ m. func m ≡ false) (preorders f)
    chain_all-none_iff nil path = ground arith
    chain_all-none_iff (cons n f) path =
        let (to, from) = chain-none_iff n path in
        let (to_all, from_all) = chain_all-none_iff f path in
        (
          λ e.
              let (a, b) = first-none _ _ e in
              All-append _ (preorder n) (preorders f) (to a) (to_all b),
          λ h. let (a, b) = All-split _ (preorder n) (preorders f) h in rw (from a, from_all b),
        )

  -- A path that `findPath` answers starts at a root, goes from parent to child, and ends at the node
  -- that the callback accepted; the objects of the tree differ from one another.
  pub find_path_sound :
      (tree : Forest A) (p : List (Node A))
      → AreFresh (refs_all ref tree) []
      → find_path ref func tree ≡ some (some p)
      → (n : Node A) × (q : List (Node A)) × (p ≡ n ∷ q)
        × Memᴰ n (to_list tree)
        × Leads (kids n) q
        × Ends n q
  find_path_sound tree p h e = chain_all_sound tree [] p (cc (find_path_lem ref func tree h))

  -- `findPath` answers `null` exactly when the callback accepts no node; the objects differ.
  pub find_path-none_iff :
      (tree : Forest A)
      → AreFresh (refs_all ref tree) []
      → (find_path ref func tree ≡ some none) ↔ All (λ n. func n ≡ false) (preorders tree)
  find_path-none_iff tree h =
      let (to, from) = chain_all-none_iff tree [] in
      (
        λ e. to (cc (find_path_lem ref func tree h)),
        λ a. find_path_lem ref func tree h ∙ ap some (from a),
      )
