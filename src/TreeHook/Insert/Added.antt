-- ===== src/TreeHook/Insert/Added.antt =====
-- useTree.ts, `insertNodeByKey` and `insertNodesByKey`: what an insertion adds.
use mathlib.Core.Path.{ap₂}
use kerthus.Base.{
  ◌≡◌, refl, sym, ◌∙◌, subst, inl, inr, String, str_eq, Bool, true, false, ◌||◌, Bool-cases, List,
  [], ◌∷◌, append-nil, Option, none, some, or_else, is_some, is_empty, includes, includes-append,
}
use kerthus.Tree.{Node, leaf, branch, Forest, nil, cons, item}
use kerthus.TreeHook.{get_all_keys, all_below}
use kerthus.TreeHook.Insert.{
  Push, with_children, in_children, in_siblings, insert_below, insert_in, insert_node_by_key,
}
use kerthus.TreeHook.Insert.Items.{
  items_of, items_each, AddsBelow, AddsIn, with_children-perm, in_children-adds, first-perm,
  in_siblings-adds, AddsAt, walked, add_to-perm,
}

module _ {ℓ} {A : Type ℓ} (key : A → String) where
  abbrev pub top_keys : Forest A → List String
  top_keys nil = []
  top_keys (cons n f) = key (item n) ∷ top_keys f

  -- The keys of the objects that the walk goes to.
  abbrev pub reached : (walks : Bool) → Forest A → List String
  reached true f = get_all_keys key f
  reached false f = top_keys f

module _ {ℓ} {A : Type ℓ} (key : A → String) (walks : Bool) (how : Push) (ms : List (Node A)) where
  mutual
    unfolding insert_in

    insert_below-adds :
        (k : String) (n : Node A) → AddsBelow (items_each ms) n (insert_below key walks how ms k n)
    insert_below-adds k (leaf a) = tt
    insert_below-adds k (branch a f) = elim (Bool-cases walks) [
      | inl t ↦ rw t (
          in_children-adds (items_each ms) a f (insert_in key walks how ms k f)
            (insert_in-adds k f))
      | inr t ↦ rw t tt
    ]

    insert_in-adds :
        (k : String) (f : Forest A) → AddsIn (items_each ms) f (insert_in key walks how ms k f)
    insert_in-adds k nil = tt
    insert_in-adds k (cons n f) = elim (Bool-cases (str_eq (key (item n)) k)) [
      | inl t ↦
          rw t
            (first-perm (items_each ms) n (with_children how ms n) f (with_children-perm how ms n))
      | inr t ↦ rw t (
          in_siblings-adds (items_each ms) n f (insert_below key walks how ms k n)
            (insert_in key walks how ms k f) (insert_below-adds k n) (insert_in-adds k f))
    ]

  some_in_siblings :
      (n : Node A) (f : Forest A) (o : Option (Node A)) (r : Option (Forest A))
      → is_some (in_siblings n f o r) ≡ (is_some o || is_some r)
  some_in_siblings n f (some m) r = refl
  some_in_siblings n f none (some g) = refl
  some_in_siblings n f none none = refl

module _ {ℓ} {A : Type ℓ} (key : A → String) (how : Push) (ms : List (Node A)) where
  some_in_children : (a : A) (o : Option (Forest A)) → is_some (in_children a o) ≡ is_some o
  some_in_children a none = refl
  some_in_children a (some f) = refl

  mutual
    unfolding insert_in get_all_keys

    insert_below-found :
        (k : String) (n : Node A)
        → is_some (insert_below key true how ms k n) ≡ includes k (all_below key n)
    insert_below-found k (leaf a) = refl
    insert_below-found k (branch a nil) = refl
    insert_below-found k (branch a (cons n f)) =
        some_in_children a (insert_in key true how ms k (cons n f)) ∙ insert_in-found k (cons n f)

    insert_in-found :
        (k : String) (f : Forest A)
        → is_some (insert_in key true how ms k f) ≡ includes k (get_all_keys key f)
    insert_in-found k nil = refl
    insert_in-found k (cons n f) = elim (Bool-cases (str_eq (key (item n)) k)) [
      | inl t ↦ rw t refl
      | inr t ↦ rw t (
          some_in_siblings key true how ms n f (insert_below key true how ms k n)
            (insert_in key true how ms k f)
          ∙ ap₂ (◌||◌) (insert_below-found k n) (insert_in-found k f)
          ∙ sym (includes-append k (all_below key n) (get_all_keys key f)))
    ]

  -- Where the walk stays at the top.
  top-found :
      (k : String) (f : Forest A)
      → is_some (insert_in key false how ms k f) ≡ includes k (top_keys key f)
  unfolding insert_in
  top-found k nil = refl
  top-found k (cons n f) = elim (Bool-cases (str_eq (key (item n)) k)) [
    | inl t ↦ rw t refl
    | inr t ↦ rw t (
        some_in_siblings key false how ms n f (insert_below key false how ms k n)
          (insert_in key false how ms k f)
        ∙ ap₂ (◌||◌) (none_below n) (top-found k f))
  ]
    where
      none_below : (m : Node A) → is_some (insert_below key false how ms k m) ≡ false
      none_below (leaf a) = refl
      none_below (branch a g) = refl

  walk-found :
      (walks : Bool) (k : String) (f : Forest A)
      → is_some (insert_in key walks how ms k f) ≡ includes k (reached key walks f)
  walk-found true k f = insert_in-found k f
  walk-found false k f = top-found k f

  insert_in_lem :
      (walks : Bool) (k : String) (f : Forest A)
      → AddsAt
          (items_each ms)
          (includes k (reached key walks f))
          f
          (or_else (insert_in key walks how ms k f) f)
  insert_in_lem walks k f =
      walked (items_each ms) f (insert_in key walks how ms k f) _
        (insert_in-adds key walks how ms k f) (walk-found walks k f)

module _ {ℓ} {A : Type ℓ} (key : A → String) (walks : Bool) where
  -- `insertNodeByKey` adds the objects of the node and no others, and drops none, where there is no key
  -- of a parent or the walk finds it: in the whole tree if the field of the children is `children`,
  -- and among the objects at the top if it has another name. Where the walk does not find it the tree
  -- is the same.
  pub insert_node_by_key_lem :
      (k : String) (node : Node A) (how : Push) (tree : Forest A)
      → AddsAt
          (items_of node)
          (is_empty k || includes k (reached key walks tree))
          tree
          (insert_node_by_key key walks k node how tree)
  unfolding insert_node_by_key
  insert_node_by_key_lem k node how tree = elim (Bool-cases (is_empty k)) [
    | inl t ↦ rw t (inl (refl, add_to-perm how tree node))
    | inr t ↦ rw t (
        subst
          (λ l.
            AddsAt l (includes k (reached key walks tree)) tree
              (or_else (insert_in key walks how (node ∷ []) k tree) tree))
          (append-nil (items_of node)) (insert_in_lem key how (node ∷ []) walks k tree))
  ]
