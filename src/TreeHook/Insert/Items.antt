-- ===== src/TreeHook/Insert/Items.antt =====
-- useTree.ts, the insertions: the objects of a tree, and what an addition in one place adds.
use mathlib.Core.List.{Perm, perm_append_comm}
use mathlib.Core.List.Perm
use kerthus.Base.{
  ◌≡◌, refl, sym, ◌⊎◌, subst, inl, inr, Bool, true, false, List, [], ◌∷◌, ◌++◌, append-nil,
  append_assoc, map, map-append, Option, none, some, or_else, is_some,
}
use kerthus.Tree.{Node, leaf, branch, Forest, nil, cons, item, preorder, preorders}
use kerthus.TreeHook.Insert.{
  Push, push, unshift, pushed, add_to, add_each, with_children, in_children, in_siblings,
}

module _ {ℓ} {A : Type ℓ} where
  -- The fields of all objects of a node, of some nodes, and of a tree.
  abbrev pub items_of : Node A → List A
  items_of n = map item (preorder n)

  abbrev pub items_each : List (Node A) → List A
  items_each [] = []
  items_each (m ∷ ms) = items_of m ++ items_each ms

  abbrev pub items_in : Forest A → List A
  items_in f = map item (preorders f)

  pub items_in-cons : (n : Node A) (f : Forest A) → items_in (cons n f) ≡ items_of n ++ items_in f
  unfolding preorders
  items_in-cons n f = map-append item (preorder n) (preorders f)

  pub items_of-branch : (a : A) (f : Forest A) → items_of (branch a f) ≡ a ∷ items_in f
  unfolding preorders
  items_of-branch a f = refl

  rotate : (xs ys zs : List A) → Perm (xs ++ (ys ++ zs)) (ys ++ (xs ++ zs))
  rotate xs ys zs =
      subst (λ l. Perm l (ys ++ (xs ++ zs))) (append_assoc xs ys zs)
        (subst (Perm ((xs ++ ys) ++ zs)) (append_assoc ys xs zs)
          (Perm.append_right zs (perm_append_comm xs ys)))

  pushed-perm :
      (f : Forest A) (m : Node A) → Perm (items_in (pushed f m)) (items_of m ++ items_in f)
  unfolding preorders
  pushed-perm nil m = rw (append-nil, append-nil) (Perm.refl _)
  pushed-perm (cons n f) m =
      rw (map-append, map-append)
        (Perm.trans (Perm.append_left (items_of n) (pushed-perm f m))
          (rotate (items_of n) (items_of m) (items_in f)))

  pub add_to-perm :
      (how : Push) (f : Forest A) (m : Node A)
      → Perm (items_in (add_to how f m)) (items_of m ++ items_in f)
  unfolding preorders
  add_to-perm push f m = pushed-perm f m
  add_to-perm unshift f m = rw map-append (Perm.refl _)

  add_each-perm :
      (how : Push) (f : Forest A) (ms : List (Node A))
      → Perm (items_in (add_each how f ms)) (items_each ms ++ items_in f)
  add_each-perm how f [] = Perm.refl _
  add_each-perm how f (m ∷ ms) = rw append_assoc (
      Perm.trans (add_each-perm how (add_to how f m) ms) (
        Perm.trans (Perm.append_left (items_each ms) (add_to-perm how f m))
          (rotate (items_each ms) (items_of m) (items_in f))))

  -- What stands behind a change, and that the items are those before it and the added ones.
  abbrev pub AddsBelow : List A → Node A → Option (Node A) → Type ℓ
  AddsBelow added n none = Unit
  AddsBelow added n (some m) = Perm (items_of m) (added ++ items_of n)

  abbrev pub AddsIn : List A → Forest A → Option (Forest A) → Type ℓ
  AddsIn added f none = Unit
  AddsIn added f (some g) = Perm (items_in g) (added ++ items_in f)

  under :
      (added : List A) (a : A) (f g : Forest A)
      → Perm (items_in g) (added ++ items_in f)
      → Perm (items_of (branch a g)) (added ++ items_of (branch a f))
  unfolding preorders
  under added a f g h = Perm.trans (Perm.cons a h) (rotate (a ∷ []) added (items_in f))

  pub with_children-perm :
      (how : Push) (ms : List (Node A)) (n : Node A)
      → Perm (items_of (with_children how ms n)) (items_each ms ++ items_of n)
  unfolding preorders
  with_children-perm how ms (leaf a) =
      under (items_each ms) a nil (add_each how nil ms) (add_each-perm how nil ms)
  with_children-perm how ms (branch a f) =
      under (items_each ms) a f (add_each how f ms) (add_each-perm how f ms)

  pub in_children-adds :
      (added : List A) (a : A) (f : Forest A) (o : Option (Forest A))
      → AddsIn added f o
      → AddsBelow added (branch a f) (in_children a o)
  in_children-adds added a f none h = tt
  in_children-adds added a f (some g) h = under added a f g h

  pub first-perm :
      (added : List A) (n m : Node A) (f : Forest A)
      → Perm (items_of m) (added ++ items_of n)
      → Perm (items_in (cons m f)) (added ++ items_in (cons n f))
  unfolding preorders
  first-perm added n m f h =
      rw (map-append, map-append)
        (subst (Perm (items_of m ++ items_in f)) (append_assoc added (items_of n) (items_in f))
          (Perm.append_right (items_in f) h))

  pub in_siblings-adds :
      (added : List A) (n : Node A) (f : Forest A) (o : Option (Node A)) (r : Option (Forest A))
      → AddsBelow added n o
      → AddsIn added f r
      → AddsIn added (cons n f) (in_siblings n f o r)
  unfolding preorders
  in_siblings-adds added n f (some m) r h k = first-perm added n m f h
  in_siblings-adds added n f none none h k = tt
  in_siblings-adds added n f none (some g) h k =
      rw (map-append, map-append)
        (Perm.trans (Perm.append_left (items_of n) k) (rotate (items_of n) added (items_in f)))

  -- The tree behind the walk: it has the added items where it has the key, or it is the same.
  abbrev pub AddsAt : List A → Bool → Forest A → Forest A → Type ℓ
  AddsAt added found f g =
      ((found ≡ true) × Perm (items_in g) (added ++ items_in f)) ⊎ ((found ≡ false) × (g ≡ f))

  pub walked :
      (added : List A) (f : Forest A) (o : Option (Forest A)) (found : Bool)
      → AddsIn added f o
      → is_some o ≡ found
      → AddsAt added found f (or_else o f)
  walked added f none found h e = inr (sym e, refl)
  walked added f (some g) found h e = inl (sym e, h)
