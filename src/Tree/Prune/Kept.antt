-- ===== src/Tree/Prune/Kept.antt =====
-- What `filter` keeps, for a callback that does not look at the children of a node.
use mathlib.Core.Path.{ap₂}
use kerthus.Base.{
  ◌≡◌, refl, sym, ap, ◌∙◌, Bool, true, false, Bool-cases, inl, inr, List, [], ◌∷◌, ◌++◌, map,
  map-append, arith, if◌then◌else◌, filter, filter-append, any, any-append, All, All-append,
}
use kerthus.Tree.{Node, leaf, branch, Forest, nil, cons, item, preorder, preorders}
use kerthus.Tree.Prune.{keep, with_filtered, list_filter}

module _ {ℓ} {A : Type ℓ} (p : A → Bool) where
  abbrev accepts : Node A → Bool
  accepts n = p (item n)

  -- The fields of the accepted nodes among those listed.
  abbrev accepted : List (Node A) → List A
  accepted ns = filter p (map item ns)

  item-with_filtered : (n : Node A) → item (with_filtered accepts n) ≡ item n
  unfolding with_filtered
  item-with_filtered (leaf a) = refl
  item-with_filtered (branch a f) = refl

  accepted-append : (xs ys : List (Node A)) → accepted (xs ++ ys) ≡ accepted xs ++ accepted ys
  accepted-append xs ys = rw map-append (filter-append p (map item xs) (map item ys))

  dropped : (n : Node A) → keep accepts n ≡ false → accepted (preorder n) ≡ []
  unfolding preorder
  dropped (leaf a) h = ground arith
  dropped (branch a nil) h = ground arith
  dropped (branch a (cons n f)) h = ground arith

  mutual
    unfolding with_filtered preorder

    accepted-with_filtered :
        (n : Node A) → accepted (preorder (with_filtered accepts n)) ≡ accepted (preorder n)
    accepted-with_filtered (leaf a) = refl
    accepted-with_filtered (branch a f) =
        ap (λ l. if p a then a ∷ l else l) (accepted-list_filter f)

    accepted-list_filter :
        (f : Forest A) → accepted (preorders (list_filter accepts f)) ≡ accepted (preorders f)
    accepted-list_filter nil = refl
    accepted-list_filter (cons n f) = elim (Bool-cases (keep accepts (with_filtered accepts n))) [
      | inl t ↦ rw t (
          accepted-append (preorder (with_filtered accepts n)) (preorders (list_filter accepts f))
          ∙ ap₂ (◌++◌) (accepted-with_filtered n) (accepted-list_filter f)
          ∙ sym (accepted-append (preorder n) (preorders f)))
      | inr t ↦ rw t (
          accepted-list_filter f
          ∙ ap (λ l. l ++ accepted (preorders f))
              (sym (dropped (with_filtered accepts n) t) ∙ accepted-with_filtered n)
          ∙ sym (accepted-append (preorder n) (preorders f)))
    ]

  -- The node or one below it is accepted.
  abbrev pub HasAccepted : Node A → Type 0
  HasAccepted n = any accepts (preorder n) ≡ true

  preorders-nil : All HasAccepted (preorders nil)
  unfolding preorder
  preorders-nil = tt

  preorders-cons :
      (n : Node A) (f : Forest A)
      → All HasAccepted (preorder n)
      → All HasAccepted (preorders f)
      → All HasAccepted (preorders (cons n f))
  unfolding preorder
  preorders-cons n f h k = All-append HasAccepted (preorder n) (preorders f) h k

  first-has : (n : Node A) (ns : List (Node A)) → All HasAccepted (preorder n ++ ns) → HasAccepted n
  unfolding preorder
  first-has (leaf a) ns h = h.0
  first-has (branch a f) ns h = h.0

  leaf-kept : (a : A) → keep accepts (leaf a) ≡ true → All HasAccepted (preorder (leaf a))
  unfolding preorder
  leaf-kept a h = (ground arith, tt)

  branch-kept :
      (a : A) (g : Forest A)
      → keep accepts (branch a g) ≡ true
      → All HasAccepted (preorders g)
      → All HasAccepted (preorder (branch a g))
  unfolding preorder
  branch-kept a nil h k = (ground arith, tt)
  branch-kept a (cons n g) h k =
      let has = first-has n (preorders g) k in
      (ground (arith, any-append accepts (preorder n) (preorders g)), k)

  mutual
    unfolding with_filtered

    with_filtered-kept :
        (n : Node A)
        → keep accepts (with_filtered accepts n) ≡ true
        → All HasAccepted (preorder (with_filtered accepts n))
    with_filtered-kept (leaf a) h = leaf-kept a h
    with_filtered-kept (branch a f) h = branch-kept a (list_filter accepts f) h (list_filter-kept f)

    list_filter-kept : (f : Forest A) → All HasAccepted (preorders (list_filter accepts f))
    list_filter-kept nil = preorders-nil
    list_filter-kept (cons n f) = elim (Bool-cases (keep accepts (with_filtered accepts n))) [
      | inl t ↦ rw t (preorders-cons _ _ (with_filtered-kept n t) (list_filter-kept f))
      | inr t ↦ rw t (list_filter-kept f)
    ]

  mutual
    unfolding with_filtered

    with_filtered_idem :
        (n : Node A) → with_filtered accepts (with_filtered accepts n) ≡ with_filtered accepts n
    with_filtered_idem (leaf a) = refl
    with_filtered_idem (branch a f) = ap (branch a) (list_filter_idem f)

    list_filter_idem :
        (f : Forest A) → list_filter accepts (list_filter accepts f) ≡ list_filter accepts f
    list_filter_idem nil = refl
    list_filter_idem (cons n f) = elim (Bool-cases (keep accepts (with_filtered accepts n))) [
      | inl t ↦ rw t (rw (with_filtered_idem n, list_filter_idem f, t) refl)
      | inr t ↦ rw t (list_filter_idem f)
    ]

  -- For a callback that does not look at the children of a node, `filter` loses no accepted node and
  -- adds none: the accepted nodes of its result carry the fields
  -- of the accepted nodes of the tree, in their order. And it keeps no branch for nothing: at every
  -- node of the result the node or one below it is accepted. Filtering again changes nothing.
  pub list_filter_lem :
      (tree : Forest A)
      → (accepted (preorders (list_filter accepts tree)) ≡ accepted (preorders tree))
        × All HasAccepted (preorders (list_filter accepts tree))
        × (list_filter accepts (list_filter accepts tree) ≡ list_filter accepts tree)
  list_filter_lem tree = (accepted-list_filter tree, list_filter-kept tree, list_filter_idem tree)
