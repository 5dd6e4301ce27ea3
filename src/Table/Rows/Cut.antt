-- ===== src/Table/Rows/Cut.antt =====
-- An edit at the first row that passes a test, as it changes the rows in order.
use mathlib.Core.Option
use kerthus.Base.{
  ◌≡◌, refl, sym, ap, ◌∙◌, Bool, true, false, inl, inr, ◌⊎◌, List, [], ◌∷◌, ◌++◌, append_assoc,
  Option, none, some, or_else, All, All-append, All-split,
}
use kerthus.Tree.{Node, branch, Forest, cons, item}
use kerthus.Table.Rows.{find_row, spliced, first_of}
use kerthus.Table.Rows.Items.{
  items, items_of, no_items, items-cons, items_of-branch, items_of-inner,
}

module _ {ℓ} {A : Type ℓ} (p : A → Bool) where
  abbrev pub Fails : A → Type 0
  Fails a = p a ≡ false

  -- A row with the item `a` is the first of `before` that passes, and `mid` becomes `mid'` there.
  pub record Cut (mid mid' : List A) (a : A) (before after : List A) : Type ℓ where
    pub front : List A
    pub back : List A
    pub was : before ≡ front ++ (mid ++ back)
    pub is : after ≡ front ++ (mid' ++ back)
    pub passes : p a ≡ true
    pub first : All Fails front

  later-Cut :
      (mid mid' : List A) (a : A) (xs before after : List A)
      → All Fails xs
      → Cut mid mid' a before after
      → Cut mid mid' a (xs ++ before) (xs ++ after)
  later-Cut mid mid' a xs before after h c = record {
    front = xs ++ c.front;
    back = c.back;
    was = ap (xs ++◌) c.was ∙ sym (append_assoc xs c.front (mid ++ c.back));
    is = ap (xs ++◌) c.is ∙ sym (append_assoc xs c.front (mid' ++ c.back));
    passes = c.passes;
    first = All-append Fails xs c.front h c.first;
  }

  more-Cut :
      (mid mid' : List A) (a : A) (ys before after : List A)
      → Cut mid mid' a before after
      → Cut mid mid' a (before ++ ys) (after ++ ys)
  more-Cut mid mid' a ys before after c = record {
    front = c.front;
    back = c.back ++ ys;
    was =
        ap (◌++ ys) c.was
        ∙ append_assoc c.front (mid ++ c.back) ys
        ∙ ap (c.front ++◌) (append_assoc mid c.back ys);
    is =
        ap (◌++ ys) c.is
        ∙ append_assoc c.front (mid' ++ c.back) ys
        ∙ ap (c.front ++◌) (append_assoc mid' c.back ys);
    passes = c.passes;
    first = c.first;
  }

  module _ (mid mid' : Node A → List A) where
    -- A search in rows, and an edit of what it finds: `its` lists the rows behind the edit.
    pub data Edited {F : Type ℓ} (its : F → List A) (before : List A)
        : Option (Node A) → Option F → Type ℓ where
      missed : All Fails before → Edited its before none none
      hit :
          (n : Node A) (x : F)
          → Cut (mid n) (mid' n) (item n) before (its x)
          → Edited its before (some n) (some x)

    pub Edited-branch :
        (a : A) (g : Forest A) {o : Option (Node A)} {r : Option (Forest A)}
        → p a ≡ false
        → Edited items (items g) o r
        → Edited items_of (items_of (branch a g)) o (Option.map (branch a) r)
    Edited-branch a g h (missed m) = missed (rw (items_of-branch a g) (h, m))
    Edited-branch a g h (hit n x c) = hit n (branch a x) (
        rw (items_of-branch a g, items_of-branch a x)
          (later-Cut (mid n) (mid' n) (item n) (a ∷ []) (items g) (items x) (h, tt) c))

    pub Edited-cons :
        (n : Node A) (f : Forest A) {o o' : Option (Node A)} {r : Option (Node A)}
        {r' : Option (Forest A)}
        → Edited items_of (items_of n) o r
        → Edited items (items f) o' r'
        → Edited items (items (cons n f)) (first_of o o') (spliced r n r' f)
    Edited-cons n f (missed m) (missed m') =
        missed (rw (items-cons n f) (All-append Fails (items_of n) (items f) m m'))
    Edited-cons n f (missed m) (hit k x c) = hit k (cons n x) (
        rw (items-cons n f, items-cons n x)
          (later-Cut (mid k) (mid' k) (item k) (items_of n) (items f) (items x) m c))
    Edited-cons n f (hit k x c) e = hit k (cons x f) (
        rw (items-cons n f, items-cons x f)
          (more-Cut (mid k) (mid' k) (item k) (items f) (items_of n) (items_of x) c))

  -- An array of rows behind an edit: nothing in it passes and it is as it was, or `mid` becomes
  -- `mid'` at the row that `find_row` answers.
  abbrev pub Changed : (mid mid' : Node A → List A) → Forest A → Forest A → Type ℓ
  Changed mid mid' before after =
      (All Fails (items before) × (after ≡ before))
      ⊎ ((n : Node A) × (find_row p before ≡ some n)
          × Cut (mid n) (mid' n) (item n) (items before) (items after))

  pub Edited-Changed :
      (mid mid' : Node A → List A) (f : Forest A) (o : Option (Node A)) (r : Option (Forest A))
      → find_row p f ≡ o
      → Edited mid mid' items (items f) o r
      → Changed mid mid' f (or_else r f)
  Edited-Changed mid mid' f _ _ e (missed m) = inl (m, refl)
  Edited-Changed mid mid' f _ _ e (hit n x c) = inr (n, e, c)

  Cut-passes :
      (n : Node A) (before after : List A)
      → All Fails before
      → Cut (items_of n) [] (item n) before after
      → ⊥
  Cut-passes n before after h c =
      let (_, later) = All-split Fails c.front (items_of n ++ c.back) (rw c.was at h) in
      let (these, _) = All-split Fails (items_of n) c.back later in
      let (here, _) = rw (items_of-inner n) at these in cc (c.passes)

  pub Changed-keeps :
      (before after : Forest A)
      → All Fails (items before)
      → Changed items_of no_items before after
      → after ≡ before
  Changed-keeps before after h (inl (_, e)) = e
  Changed-keeps before after h (inr (n, _, c)) =
      absurd (Cut-passes n (items before) (items after) h c)
