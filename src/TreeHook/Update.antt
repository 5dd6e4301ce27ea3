-- ===== src/TreeHook/Update.antt =====
-- useTree.ts, `updateNodeByKey` with fields that are neither the key nor the children.
use mathlib.Core.Path.{ap₂}
use kerthus.Base.{
  ◌≡◌, refl, sym, ap, ◌∙◌, subst, inl, inr, String, str_eq, eq_iff, true, false, Bool-cases, List,
  [], ◌∷◌, ◌++◌, map, map-append, includes, AreDistinct, AreDistinct-split, arith, if◌then◌else◌,
  is_empty,
}
use kerthus.Tree.{Node, leaf, branch, Forest, nil, cons, item, preorder, preorders}
use kerthus.TreeHook.{get_all_keys, all_below, update_in, update_below, update_node_by_key}
use kerthus.TreeHook.Keys.{keys_of, inner, preorder-inner, all_below-inner, get_all_keys_lem}

module _ {ℓ} {A : Type ℓ} (patch : A → A) where
  abbrev pub patched : Node A → Node A
  patched (leaf a) = leaf (patch a)
  patched (branch a f) = branch (patch a) f

module _ {ℓ} {A : Type ℓ} (key : A → String) (patch : A → A) where
  abbrev pub patch_at : String → A → A
  patch_at k a = if str_eq (key a) k then patch a else a

  abbrev items : List (Node A) → List A
  items = map item

  -- The nodes of a list, none of which has the key.
  items-absent :
      (k : String) (ns : List (Node A))
      → includes k (keys_of key ns) ≡ false
      → map (patch_at k) (items ns) ≡ items ns
  items-absent k [] h = refl
  items-absent k (n ∷ ns) h = ground (arith, items-absent k ns)

  items-patched :
      (n : Node A) → items (preorder ((patched patch) n)) ≡ patch (item n) ∷ items (inner n)
  unfolding preorder
  items-patched (leaf a) = refl
  items-patched (branch a f) = refl

  keys_of-behind :
      (n : Node A) (f : Forest A)
      → all_below key n ++ get_all_keys key f ≡ keys_of key (inner n ++ preorders f)
  keys_of-behind n f =
      ap₂ (◌++◌) (all_below-inner key n) (get_all_keys_lem key f)
      ∙ sym (map-append (λ m. key (item m)) (inner n) (preorders f))

  patched-first :
      (k : String) (n : Node A) (f : Forest A)
      → str_eq (key (item n)) k ≡ true
      → includes k (all_below key n ++ get_all_keys key f) ≡ false
      → items (preorder ((patched patch) n) ++ preorders f)
        ≡ map (patch_at k) (items (preorder n ++ preorders f))
  patched-first k n f h q =
      let r = items-absent k (inner n ++ preorders f) (rw (keys_of-behind n f) at q) in
      rw (map-append, items-patched n, preorder-inner n, h)
        (ap (patch (item n) ∷◌) (rw r (sym (map-append item (inner n) (preorders f)))))

  mutual
    unfolding update_in get_all_keys preorder

    update_below_lem :
        (k : String) (n : Node A)
        → str_eq (key (item n)) k ≡ false
        → AreDistinct (all_below key n)
        → items (preorder (update_below key (patched patch) k n))
          ≡ map (patch_at k) (items (preorder n))
    update_below_lem k (leaf a) h d = rw h refl
    update_below_lem k (branch a nil) h d = rw h refl
    update_below_lem k (branch a (cons n f)) h d = rw h (ap (a ∷◌) (update_in_lem k (cons n f) d))

    update_in_lem :
        (k : String) (tree : Forest A)
        → AreDistinct (get_all_keys key tree)
        → items (preorders (update_in key (patched patch) k tree))
          ≡ map (patch_at k) (items (preorders tree))
    update_in_lem k nil d = refl
    update_in_lem k (cons n f) d = elim (Bool-cases (str_eq (key (item n)) k)) [
      | inl h ↦
          let q =
            subst (λ x. includes x (all_below key n ++ get_all_keys key f) ≡ false)
              ((eq_iff (key (item n)) k).0 h) d.0 in
          rw h (patched-first k n f h q)
      | inr h ↦
          let (d1, d2) = AreDistinct-split (all_below key n) (get_all_keys key f) d.1 in
          rw (h, map-append, map-append, map-append)
            (ap₂ (◌++◌) (update_below_lem k n h d1) (update_in_lem k f d2))
    ]

  -- Where the keys differ from one another, `updateNodeByKey` with a key that is not empty, and with
  -- fields that are not the children, changes the fields of the node with the key and of no other
  -- node, and moves none of them in the order of `getAllKeys`.
  pub update_node_by_key_lem :
      (k : String) (tree : Forest A)
      → is_empty k ≡ false
      → AreDistinct (get_all_keys key tree)
      → map item (preorders (update_node_by_key key (patched patch) k tree))
        ≡ map (patch_at k) (map item (preorders tree))
  unfolding update_node_by_key
  update_node_by_key_lem k tree e d = rw e (update_in_lem k tree d)
