-- ===== src/TreeHook/Keys.antt =====
-- useTree.ts: the keys that `getAllKeys`, `getEnabledKeys` and `getChildrenKeys` answer.
use mathlib.Core.Path.{ap₂}
use kerthus.Base.{
  ◌≡◌, refl, sym, ap, subst, ◌∙◌, inl, inr, String, str_eq, eq_iff, Bool, true, false, Bool-cases,
  Option-cases, List, [], ◌∷◌, ◌++◌, append-nil, map, map-append, Option, none, some, filter,
  filter-append, find, includes, includes-append, AreDistinct, AreDistinct-split, AreDistinct-apart,
  arith, if◌then◌else◌,
}
use kerthus.Tree.{Node, leaf, branch, Forest, nil, cons, item, preorder, preorders}
use kerthus.TreeHook.{
  get_all_keys, all_below, get_children_keys, children_below, is_enabled, get_enabled_keys,
  enabled_below,
}

module _ {ℓ} {A : Type ℓ} (key : A → String) where
  abbrev pub keys_of : List (Node A) → List String
  keys_of = map (λ n. key (item n))

  mutual
    unfolding get_all_keys preorder

    keys_of-preorder : (n : Node A) → key (item n) ∷ all_below key n ≡ keys_of (preorder n)
    keys_of-preorder (leaf a) = refl
    keys_of-preorder (branch a nil) = refl
    keys_of-preorder (branch a (cons n f)) = ap (key a ∷◌) (get_all_keys_lem (cons n f))

    -- `getAllKeys` answers the keys of all nodes, each parent's before those of its descendants.
    pub get_all_keys_lem : (tree : Forest A) → get_all_keys key tree ≡ keys_of (preorders tree)
    get_all_keys_lem nil = refl
    get_all_keys_lem (cons n f) =
        ap₂ (◌++◌) (keys_of-preorder n) (get_all_keys_lem f)
        ∙ sym (map-append (λ m. key (item m)) (preorder n) (preorders f))

module _ {ℓ} {A : Type ℓ} (key : A → String) (disabled selectable : A → Bool) where
  abbrev enabled_of : List (Node A) → List String
  enabled_of ns = map (λ n. key (item n)) (filter (λ n. is_enabled disabled selectable (item n)) ns)

  enabled_of-append :
      (xs ys : List (Node A)) → enabled_of (xs ++ ys) ≡ enabled_of xs ++ enabled_of ys
  enabled_of-append xs ys = rw filter-append (
      map-append (λ n. key (item n)) (filter (λ n. is_enabled disabled selectable (item n)) xs)
        (filter (λ n. is_enabled disabled selectable (item n)) ys))

  mutual
    unfolding get_enabled_keys preorder

    enabled_of-preorder :
        (n : Node A)
        → (if is_enabled disabled selectable (item n)
            then key (item n) ∷ enabled_below key disabled selectable n
            else enabled_below key disabled selectable n)
          ≡ enabled_of (preorder n)
    enabled_of-preorder (leaf a) = ground arith
    enabled_of-preorder (branch a nil) = ground arith
    enabled_of-preorder (branch a (cons n f)) = ground (arith, enabled_keys-tree (cons n f))

    enabled_keys-tree :
        (tree : Forest A)
        → get_enabled_keys key disabled selectable tree ≡ enabled_of (preorders tree)
    enabled_keys-tree nil = refl
    enabled_keys-tree (cons n f) = elim (Bool-cases (is_enabled disabled selectable (item n))) [
      | inl h ↦
          rw (h, enabled_of-append)
            (ap₂ (◌++◌) (rw h at (enabled_of-preorder n)) (enabled_keys-tree f))
      | inr h ↦
          rw (h, enabled_of-append)
            (ap₂ (◌++◌) (rw h at (enabled_of-preorder n)) (enabled_keys-tree f))
    ]

  -- `getEnabledKeys` answers the keys of the nodes that are neither disabled nor excluded from the
  -- selection, and of no others, in the order of `getAllKeys`; a disabled node hides no other.
  get_enabled_keys_lem :
      (tree : Forest A)
      → get_enabled_keys key disabled selectable tree ≡ enabled_of (preorders tree)
  get_enabled_keys_lem tree = enabled_keys-tree tree

module _ {ℓ} {A : Type ℓ} where
  -- The nodes below a node.
  abbrev pub inner : Node A → List (Node A)
  inner (leaf a) = []
  inner (branch a f) = preorders f

  pub preorder-inner : (n : Node A) → preorder n ≡ n ∷ inner n
  unfolding preorder
  preorder-inner (leaf a) = refl
  preorder-inner (branch a f) = refl

module _ {ℓ} {A : Type ℓ} (key : A → String) where
  pub all_below-inner : (n : Node A) → all_below key n ≡ keys_of key (inner n)
  unfolding get_all_keys preorder
  all_below-inner (leaf a) = refl
  all_below-inner (branch a nil) = refl
  all_below-inner (branch a (cons n f)) = get_all_keys_lem key (cons n f)

module _ {ℓ} {A : Type ℓ} (key : A → String) (k : String) where
  abbrev pub has_key : Node A → Bool
  has_key n = str_eq k (key (item n))

  -- The node with the key, or one below it: what `getChildrenKeys` answers for it.
  abbrev pub subtree_keys : Option (Node A) → List String
  subtree_keys none = []
  subtree_keys (some n) = keys_of key (preorder n)

  pub absent-parts :
      (x : String) (xs ys : List String)
      → includes k (x ∷ (xs ++ ys)) ≡ false
      → (str_eq k x ≡ false) × (includes k xs ≡ false) × (includes k ys ≡ false)
  absent-parts x xs ys h = (
    ground (arith, eq_iff k x, eq_iff x k),
    ground (arith, includes-append k xs ys),
    ground (arith, includes-append k xs ys),
  )

  mutual
    unfolding get_children_keys get_all_keys

    -- Without the key, no keys.
    pub children_below-absent :
        (n : Node A) → includes k (all_below key n) ≡ false → children_below key k n ≡ []
    children_below-absent (leaf a) h = refl
    children_below-absent (branch a nil) h = refl
    children_below-absent (branch a (cons n f)) h = get_children_keys-absent (cons n f) h

    pub get_children_keys-absent :
        (tree : Forest A)
        → includes k (get_all_keys key tree) ≡ false
        → get_children_keys key k tree ≡ []
    get_children_keys-absent nil h = refl
    get_children_keys-absent (cons n f) h =
        let (a, b, c) = absent-parts (key (item n)) (all_below key n) (get_all_keys key f) h in
        rw (a, children_below-absent n b, get_children_keys-absent f c) refl

  includes-find :
      (ns : List (Node A)) (n : Node A)
      → find has_key ns ≡ some n
      → includes k (keys_of key ns) ≡ true
  includes-find [] n e = cc
  includes-find (m ∷ ns) n e = elim (Bool-cases (has_key m)) [
    | inl h ↦ ground (arith, eq_iff k (key (item m)), eq_iff (key (item m)) k)
    | inr h ↦ ground (arith, includes-find ns n (rw h at e))
  ]

  find-append_none :
      (xs ys : List (Node A)) → find has_key xs ≡ none → find has_key (xs ++ ys) ≡ find has_key ys
  find-append_none [] ys e = refl
  find-append_none (x ∷ xs) ys e = elim (Bool-cases (has_key x)) [
    | inl h ↦ let f = rw h at e in cc
    | inr h ↦ rw h (find-append_none xs ys (rw h at e))
  ]

  find-append_some :
      (xs ys : List (Node A)) (n : Node A)
      → find has_key xs ≡ some n
      → find has_key (xs ++ ys) ≡ some n
  find-append_some [] ys n e = cc
  find-append_some (x ∷ xs) ys n e = elim (Bool-cases (has_key x)) [
    | inl h ↦ rw h (rw h at e)
    | inr h ↦ rw h (find-append_some xs ys n (rw h at e))
  ]

  mutual
    unfolding get_children_keys get_all_keys preorder

    children_below_lem :
        (n : Node A)
        → AreDistinct (all_below key n)
        → children_below key k n ≡ subtree_keys (find has_key (inner n))
    children_below_lem (leaf a) d = refl
    children_below_lem (branch a nil) d = refl
    children_below_lem (branch a (cons n f)) d = children_keys-tree (cons n f) d

    children_keys-tree :
        (tree : Forest A)
        → AreDistinct (get_all_keys key tree)
        → get_children_keys key k tree ≡ subtree_keys (find has_key (preorders tree))
    children_keys-tree nil d = refl
    children_keys-tree (cons n f) d =
        let (d1, d2) = AreDistinct-split (all_below key n) (get_all_keys key f) d.1 in
        rw preorder-inner (elim (Bool-cases (has_key n)) [
          | inl h ↦
              let q =
                subst (λ x. includes x (all_below key n ++ get_all_keys key f) ≡ false)
                  (sym ((eq_iff k (key (item n))).0 h)) d.0 in
              let r : includes k (get_all_keys key f) ≡ false =
                ground (arith, includes-append k (all_below key n) (get_all_keys key f)) in
              rw (h, get_children_keys-absent f r, append-nil) (keys_of-preorder key n)
          | inr h ↦ elim (Option-cases (find has_key (inner n))) [
            | inl e ↦
                rw
                  (
                    h,
                    find-append_none (inner n) (preorders f) e,
                    children_below_lem n d1,
                    e,
                    children_keys-tree f d2,
                  )
                  refl
            | inr (m, e) ↦
                let q : includes k (all_below key n) ≡ true =
                  rw (all_below-inner key n) (includes-find (inner n) m e) in
                let r = AreDistinct-apart (all_below key n) (get_all_keys key f) k d.1 q in
                rw
                  (
                    h,
                    find-append_some (inner n) (preorders f) m e,
                    children_below_lem n d1,
                    e,
                    get_children_keys-absent f r,
                    append-nil,
                  )
                  refl
          ]
        ])

  -- Where the keys differ from one another, `getChildrenKeys` answers the keys of the node with the
  -- key and of the nodes below it, in the order of `getAllKeys`, and no keys if there is no such
  -- node.
  pub get_children_keys_lem :
      (tree : Forest A)
      → AreDistinct (get_all_keys key tree)
      → get_children_keys key k tree ≡ subtree_keys (find has_key (preorders tree))
  get_children_keys_lem tree d = children_keys-tree tree d
