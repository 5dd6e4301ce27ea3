-- ===== src/Tree/ForEach.antt =====
-- treeHelper.ts, `forEach`: the loop of `treeToList` with a callback that may end it.
-- The callback takes the state that it changes and returns it with its answer. It does not change
-- the `children` of a node, unless it ends the loop.
use kerthus.Base.{
  ℕ, zero, suc, ◌+◌, ◌≡◌, refl, sym, ap, fun_ext, ◌∙◌, Bool, true, false, List, [], ◌∷◌, ◌++◌,
  append_assoc, append-nil, Option, none, some, length, get_elem?, arith,
}
use kerthus.Tree.{
  Node, leaf, branch, Forest, nil, cons, kids, to_list, size, sizes, preorder, preorders,
}
use kerthus.Tree.Walk.{expand, expand-length, length-concat, get_elem?-length, get_elem?-length_end}

module _ {ℓ} {S : Type ℓ} where
  -- What stands behind a call that may end the loop.
  abbrev resume {κ} : {R : Type κ} → (S → R) → (S → R) → S × Bool → R
  resume stop go_on (s, true) = stop s
  resume stop go_on (s, false) = go_on s

  abbrev and_then : (S → S × Bool) → S × Bool → S × Bool
  and_then = resume (λ s. (s, true))

  resume-and_then {κ} :
      {R : Type κ} (stop go_on : S → R) (g : S → S × Bool) (r : S × Bool)
      → resume stop go_on (and_then g r) ≡ resume stop (λ s. resume stop go_on (g s)) r
  resume-and_then stop go_on g (s, true) = refl
  resume-and_then stop go_on g (s, false) = refl

module _ {ℓ κ} {A : Type ℓ} {S : Type κ} (func : Node A → S → S × Bool) where
  -- `none` means that the fuel ran out.
  for_each_loop : ℕ → ℕ → List (Node A) → S → Option S
  for_each_loop zero i list s = none
  for_each_loop (suc fuel) i list s = elim (get_elem? list i) [
    | none ↦ some s
    | some n ↦ resume some (for_each_loop fuel (suc i) (expand i n list)) (func n s)
  ]

  pub for_each : Forest A → S → Option S
  for_each tree s = for_each_loop (suc (sizes tree)) 0 (to_list tree) s

  -- The calls on a list of nodes, up to the first that answers `true`.
  pub call_until : List (Node A) → S → S × Bool
  call_until [] s = (s, false)
  call_until (n ∷ ns) s = and_then (call_until ns) (func n s)

  call_first :
      (n : Node A) (ns : List (Node A)) (s : S) (g : S → Option S)
      → resume some (λ s'. resume some g (call_until ns s')) (func n s)
        ≡ resume some g (call_until (n ∷ ns) s)
  unfolding call_until
  call_first n ns s g = sym (resume-and_then some g (call_until ns) (func n s))

  call_until-append :
      (xs ys : List (Node A)) (s : S)
      → call_until (xs ++ ys) s ≡ and_then (call_until ys) (call_until xs s)
  unfolding call_until
  call_until-append [] ys s = refl
  call_until-append (x ∷ xs) ys s =
      ap (λ g. and_then g (func x s)) (fun_ext (call_until-append xs ys))
      ∙ sym (resume-and_then (λ s. (s, true)) (call_until ys) (call_until xs) (func x s))

  -- What is left of a loop with `k` rounds behind the nodes of `done`.
  after : ℕ → List (Node A) → List (Node A) → S → Option S
  after k done rest = for_each_loop k (length done) (done ++ rest)

  after-suc :
      (n : Node A) (m : ℕ) (done rest : List (Node A)) (s : S)
      → after (suc m) done (n ∷ rest) s
        ≡ resume some (after m (done ++ n ∷ []) (kids n ++ rest)) (func n s)
  unfolding for_each_loop after
  after-suc n m done rest s =
      rw (get_elem?-length done rest n, for_each_loop, length-concat, expand-length)

  -- The calls on `xs`, and then those on `ys`.
  call_twice :
      (xs ys : List (Node A)) (s : S) (g : S → Option S)
      → resume some (λ s'. resume some g (call_until ys s')) (call_until xs s)
        ≡ resume some g (call_until (xs ++ ys) s)
  call_twice xs ys s g =
      sym (resume-and_then some g (call_until ys) (call_until xs s))
      ∙ ap (resume some g) (sym (call_until-append xs ys s))

  mutual
    unfolding size preorder call_until

    after-node :
        (n : Node A) (m k : ℕ) (done rest : List (Node A)) (s : S)
        → m ≡ size n + k
        → after m done (n ∷ rest) s
          ≡ resume some (after k (done ++ preorder n) rest) (call_until (preorder n) s)
    after-node (leaf a) zero k done rest s h = absurd (omega arith)
    after-node (branch a f) zero k done rest s h = absurd (omega arith)
    after-node (leaf a) (suc m) k done rest s h =
        let e : m ≡ k = omega arith in
        after-suc (leaf a) m done rest s
        ∙ ap (λ j. resume some (after j (done ++ leaf a ∷ []) rest) (func (leaf a) s)) e
        ∙ call_first (leaf a) [] s (after k (done ++ leaf a ∷ []) rest)
    after-node (branch a f) (suc m) k done rest s h =
        after-suc (branch a f) m done rest s
        ∙ ap (λ g. resume some g (func (branch a f) s))
            (fun_ext (λ s'. after-forest f m k (done ++ branch a f ∷ []) rest s' (omega arith)))
        ∙ ap
            (λ l.
              resume some (λ s'. resume some (after k l rest) (call_until (preorders f) s'))
                (func (branch a f) s))
            (append_assoc done (branch a f ∷ []) (preorders f))
        ∙ call_first (branch a f) (preorders f) s (after k (done ++ branch a f ∷ preorders f) rest)

    after-forest :
        (f : Forest A) (m k : ℕ) (done rest : List (Node A)) (s : S)
        → m ≡ sizes f + k
        → after m done (to_list f ++ rest) s
          ≡ resume some (after k (done ++ preorders f) rest) (call_until (preorders f) s)
    after-forest nil m k done rest s h =
        let e : m ≡ k = omega arith in rw append-nil (ap (λ j. after j done rest s) e)
    after-forest (cons n f) m k done rest s h =
        after-node n m (sizes f + k) done (to_list f ++ rest) s (omega arith)
        ∙ ap (λ g. resume some g (call_until (preorder n) s))
            (fun_ext (λ s'. after-forest f (sizes f + k) k (done ++ preorder n) rest s' refl))
        ∙ ap
            (λ l.
              resume some (λ s'. resume some (after k l rest) (call_until (preorders f) s'))
                (call_until (preorder n) s))
            (append_assoc done (preorder n) (preorders f))
        ∙ call_twice (preorder n) (preorders f) s
            (after k (done ++ (preorder n ++ preorders f)) rest)

  resume-some : (r : S × Bool) → resume some some r ≡ some r.0
  resume-some (s, true) = refl
  resume-some (s, false) = refl

  after_end : (done : List (Node A)) (s : S) → after 1 done [] s ≡ some s
  unfolding after for_each_loop
  after_end done s = rw (append-nil done) (rw (get_elem?-length_end done, for_each_loop) refl)

  -- `forEach` ends, and calls the callback on every node in the order of `treeToList`, each once,
  -- up to the first call that answers `true`.
  pub for_each_lem :
      (tree : Forest A) (s : S) → for_each tree s ≡ some (call_until (preorders tree) s).0
  unfolding for_each after
  for_each_lem tree s =
      ap (λ l. for_each_loop (suc (sizes tree)) 0 l s) (sym (append-nil (to_list tree)))
      ∙ after-forest tree (suc (sizes tree)) 1 [] [] s (omega arith)
      ∙ ap (λ g. resume some g (call_until (preorders tree) s))
          (fun_ext (after_end (preorders tree)))
      ∙ resume-some (call_until (preorders tree) s)
