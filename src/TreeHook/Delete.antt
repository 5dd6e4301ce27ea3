-- ===== src/TreeHook/Delete.antt =====
-- useTree.ts, `deleteNodeByKey`: what the deletion takes out of the tree.
use mathlib.Core.Path.{ap₂}
use kerthus.Base.{
  ◌≡◌, refl, sym, ap, ◌∙◌, subst, inl, inr, String, str_eq, eq_iff, true, false, Bool-cases, List,
  [], ◌∷◌, ◌++◌, append_assoc, append-nil, includes, includes-append, AreDistinct,
  AreDistinct-split, AreDistinct-apart, arith, is_empty,
}
use kerthus.Tree.{Node, leaf, branch, Forest, nil, cons, item}
use kerthus.TreeHook.{
  get_all_keys, all_below, get_children_keys, children_below, delete_in, delete_below,
  delete_node_by_key,
}
use kerthus.TreeHook.Keys.{has_key, absent-parts, children_below-absent, get_children_keys-absent}

-- A list of keys, cut where some keys are taken out of it.
abbrev pub IsCut : List String → List String → List String → Type 0
IsCut all gone left =
    (xs : List String) × (ys : List String) × (all ≡ xs ++ (gone ++ ys)) × (left ≡ xs ++ ys)

module _ {ℓ} {A : Type ℓ} (key : A → String) (k : String) where
  item-delete_below : (n : Node A) → item (delete_below key k n) ≡ item n
  unfolding delete_in
  item-delete_below (leaf a) = refl
  item-delete_below (branch a nil) = refl
  item-delete_below (branch a (cons n f)) = refl

  all_below-branch : (a : A) (f : Forest A) → all_below key (branch a f) ≡ get_all_keys key f
  unfolding get_all_keys
  all_below-branch a nil = refl
  all_below-branch a (cons n f) = refl

  flip_ne : (x : String) → str_eq k x ≡ false → str_eq x k ≡ false
  flip_ne x h = ground (arith, eq_iff k x, eq_iff x k)

  flip_eq : (x : String) → str_eq k x ≡ true → str_eq x k ≡ true
  flip_eq x h = ground (arith, eq_iff k x, eq_iff x k)

  mutual
    unfolding delete_in get_all_keys

    delete_below-absent :
        (n : Node A) → includes k (all_below key n) ≡ false → delete_below key k n ≡ n
    delete_below-absent (leaf a) h = refl
    delete_below-absent (branch a nil) h = refl
    delete_below-absent (branch a (cons n f)) h = ap (branch a) (delete_in-absent (cons n f) h)

    delete_in-absent :
        (tree : Forest A) → includes k (get_all_keys key tree) ≡ false → delete_in key k tree ≡ tree
    delete_in-absent nil h = refl
    delete_in-absent (cons n f) h =
        let (a, b, c) =
          absent-parts key k (key (item n)) (all_below key n) (get_all_keys key f) h in
        rw (flip_ne (key (item n)) a) (ap₂ cons (delete_below-absent n b) (delete_in-absent f c))

  mutual
    unfolding delete_in get_all_keys get_children_keys

    delete_below_lem :
        (n : Node A)
        → AreDistinct (all_below key n)
        → IsCut (all_below key n) (children_below key k n) (all_below key (delete_below key k n))
    delete_below_lem (leaf a) d = ([], [], refl, refl)
    delete_below_lem (branch a nil) d = ([], [], refl, refl)
    delete_below_lem (branch a (cons n f)) d =
        let (xs, ys, e, g) = delete_in_lem (cons n f) d in
        (xs, ys, e, all_below-branch a (delete_in key k (cons n f)) ∙ g)

    delete_in_lem :
        (tree : Forest A)
        → AreDistinct (get_all_keys key tree)
        → IsCut
            (get_all_keys key tree)
            (get_children_keys key k tree)
            (get_all_keys key (delete_in key k tree))
    delete_in_lem nil d = ([], [], refl, refl)
    delete_in_lem (cons n f) d =
        let (d1, d2) = AreDistinct-split (all_below key n) (get_all_keys key f) d.1 in
        elim (Bool-cases (has_key key k n)) [
          | inl h ↦
              let q =
                subst (λ x. includes x (all_below key n ++ get_all_keys key f) ≡ false)
                  (sym ((eq_iff k (key (item n))).0 h)) d.0 in
              let r : includes k (get_all_keys key f) ≡ false =
                ground (arith, includes-append k (all_below key n) (get_all_keys key f)) in
              rw (h, flip_eq (key (item n)) h, get_children_keys-absent key k f r, append-nil)
                ([], get_all_keys key f, refl, refl)
          | inr h ↦ elim (Bool-cases (includes k (all_below key n))) [
            | inl e ↦
                let r = AreDistinct-apart (all_below key n) (get_all_keys key f) k d.1 e in
                let (xs, ys, a, b) = delete_below_lem n d1 in
                rw
                  (
                    h,
                    flip_ne (key (item n)) h,
                    get_children_keys-absent key k f r,
                    delete_in-absent f r,
                    append-nil,
                    item-delete_below n,
                  )
                  (
                    key (item n) ∷ xs,
                    ys ++ get_all_keys key f,
                    ap (key (item n) ∷◌) (
                        ap (λ l. l ++ get_all_keys key f) a
                        ∙ append_assoc xs (children_below key k n ++ ys) (get_all_keys key f)
                        ∙ ap (λ l. xs ++ l)
                            (append_assoc (children_below key k n) ys (get_all_keys key f))),
                    ap (key (item n) ∷◌) (
                        ap (λ l. l ++ get_all_keys key f) b
                        ∙ append_assoc xs ys (get_all_keys key f)),
                  )
            | inr e ↦
                let (xs, ys, a, b) = delete_in_lem f d2 in
                rw
                  (
                    h,
                    flip_ne (key (item n)) h,
                    children_below-absent key k n e,
                    delete_below-absent n e,
                  )
                  (
                    key (item n) ∷ (all_below key n ++ xs),
                    ys,
                    ap (key (item n) ∷◌) (
                        ap (λ l. all_below key n ++ l) a
                        ∙ sym
                            (append_assoc (all_below key n) xs (get_children_keys key k f ++ ys))),
                    ap (key (item n) ∷◌) (
                        ap (λ l. all_below key n ++ l) b
                        ∙ sym (append_assoc (all_below key n) xs ys)),
                  )
          ]
        ]

  -- Where the keys differ from one another, `deleteNodeByKey` with a key that is not empty takes
  -- exactly the keys that `getChildrenKeys` answers for it out of those of `getAllKeys`, where they
  -- stand one behind the other, and leaves all others in their order.
  pub delete_node_by_key_lem :
      (tree : Forest A)
      → is_empty k ≡ false
      → AreDistinct (get_all_keys key tree)
      → IsCut
          (get_all_keys key tree)
          (get_children_keys key k tree)
          (get_all_keys key (delete_node_by_key key k tree))
  unfolding delete_node_by_key
  delete_node_by_key_lem tree e d = rw e (delete_in_lem tree d)
