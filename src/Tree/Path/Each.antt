-- ===== src/Tree/Path/Each.antt =====
-- treeHelper.ts, `findPathAll`: the search of `findPath`, which goes on behind each accepted node.
use mathlib.Core.List.{reverse-cons}
use mathlib.Core.Path.{ap₂}
use kerthus.Base.{
  ℕ, zero, suc, ◌+◌, ◌*◌, ◌≡◌, refl, sym, ap, ◌∙◌, Bool, true, false, Bool-cases, inl, inr, List,
  [], ◌∷◌, ◌++◌, append_assoc, append-nil, reverse, Option, none, some, arith, if◌then◌else◌,
  filter, filter-append, map, map-append,
}
use kerthus.Tree.{
  Node, leaf, branch, Forest, nil, cons, item, kids, to_list, size, sizes, preorder, preorders,
}
use kerthus.Tree.Path.{
  mem, mem_self, mem-enter, first, enter, enter-append, AreFresh, AreFresh-append, refs, refs_all,
  chain, chain_all, find_path, find_path_lem,
}

module _ {ℓ} {A : Type ℓ} where
  abbrev pop : List (Node A) → List (Node A)
  pop [] = []
  pop (n ∷ ns) = ns

  abbrev pub last_of : List (Node A) → Option (Node A)
  last_of [] = none
  last_of (n ∷ []) = some n
  last_of (n ∷ m ∷ ns) = last_of (m ∷ ns)

  last_of-concat : (ns : List (Node A)) (n : Node A) → last_of (ns ++ n ∷ []) ≡ some n
  last_of-concat [] n = refl
  last_of-concat (m ∷ []) n = refl
  last_of-concat (m ∷ m' ∷ ns) n = last_of-concat (m' ∷ ns) n

  abbrev pub head? : List (List (Node A)) → Option (List (Node A))
  head? [] = none
  head? (p ∷ ps) = some p

module _ {ℓ} {A : Type ℓ} (ref : A → ℕ) (func : Node A → Bool) where
  -- `none` means that the fuel ran out; `path` has its last element at the head.
  find_path_all_loop :
      ℕ
      → List (Node A)
      → List ℕ
      → List (Node A)
      → List (List (Node A))
      → Option (List (List (Node A)))
  find_path_all_loop zero list visited path result = none
  find_path_all_loop (suc fuel) [] visited path result = some result
  find_path_all_loop (suc fuel) (node ∷ list) visited path result =
      let again = find_path_all_loop fuel list visited (pop path) result in
      let deeper =
        find_path_all_loop fuel (kids node ++ node ∷ list) (ref (item node) ∷ visited) (node ∷ path)
          (if func node then result ++ reverse (node ∷ path) ∷ [] else result) in
      if mem (ref (item node)) visited then again else deeper

  pub find_path_all : Forest A → Option (List (List (Node A)))
  find_path_all tree = find_path_all_loop (suc (2 * sizes tree)) (to_list tree) [] [] []

  abbrev here : Node A → List (Node A) → List (List (Node A))
  here n path = if func n then reverse (n ∷ path) ∷ [] else []

  -- The chains to all accepted nodes, in the order of the nodes.
  mutual
    chains : Node A → List (Node A) → List (List (Node A))
    chains (leaf a) path = here (leaf a) path
    chains (branch a f) path = here (branch a f) path ++ chains_all f (branch a f ∷ path)

    chains_all : Forest A → List (Node A) → List (List (Node A))
    chains_all nil path = []
    chains_all (cons n f) path = chains n path ++ chains_all f path

  find_path_all_loop-again :
      (m : ℕ) (n : Node A) (rest : List (Node A)) (visited : List ℕ) (path : List (Node A))
      (result : List (List (Node A)))
      → mem (ref (item n)) visited ≡ true
      → find_path_all_loop (suc m) (n ∷ rest) visited path result
        ≡ find_path_all_loop m rest visited (pop path) result
  unfolding find_path_all_loop
  find_path_all_loop-again m n rest visited path result h = rw h

  find_path_all_loop-deeper :
      (m : ℕ) (n : Node A) (rest : List (Node A)) (visited : List ℕ) (path : List (Node A))
      (result : List (List (Node A)))
      → mem (ref (item n)) visited ≡ false
      → find_path_all_loop (suc m) (n ∷ rest) visited path result
        ≡ find_path_all_loop m
            (kids n ++ n ∷ rest)
            (ref (item n) ∷ visited)
            (n ∷ path)
            (result ++ here n path)
  unfolding find_path_all_loop
  find_path_all_loop-deeper m n rest visited path result h = elim (Bool-cases (func n)) [
    | inl t ↦ rw (h, t)
    | inr t ↦ rw (h, t, append-nil result)
  ]

  turn_end :
      (m k : ℕ) (n : Node A) (rest : List (Node A)) (rs visited : List ℕ) (path : List (Node A))
      (result : List (List (Node A)))
      → m ≡ suc k
      → find_path_all_loop m (n ∷ rest) (enter rs (ref (item n) ∷ visited)) (n ∷ path) result
        ≡ find_path_all_loop k rest (enter (ref (item n) ∷ rs) visited) path result
  unfolding enter
  turn_end zero k n rest rs visited path result h = absurd (omega arith)
  turn_end (suc m) k n rest rs visited path result h =
      let e : m ≡ k = omega arith in
      find_path_all_loop-again m n rest _ (n ∷ path) result
        (mem-enter (ref (item n)) rs (ref (item n) ∷ visited) (mem_self (ref (item n)) visited))
      ∙ ap (λ j. find_path_all_loop j rest (enter rs (ref (item n) ∷ visited)) path result) e

  mutual
    unfolding size refs chains enter

    loop-node :
        (n : Node A) (m k : ℕ) (rest : List (Node A)) (visited : List ℕ) (path : List (Node A))
        (result : List (List (Node A)))
        → m ≡ 2 * size n + k
        → AreFresh (refs ref n) visited
        → find_path_all_loop m (n ∷ rest) visited path result
          ≡ find_path_all_loop k rest (enter (refs ref n) visited) path (result ++ chains n path)
    loop-node (leaf a) zero k rest visited path result e h = absurd (omega arith)
    loop-node (branch a f) zero k rest visited path result e h = absurd (omega arith)
    loop-node (leaf a) (suc m) k rest visited path result e h =
        find_path_all_loop-deeper m (leaf a) rest visited path result h.0
        ∙ turn_end m k (leaf a) rest [] visited path _ (omega arith)
    loop-node (branch a f) (suc m) k rest visited path result e h =
        find_path_all_loop-deeper m (branch a f) rest visited path result h.0
        ∙ loop-forest f m (suc k) (branch a f ∷ rest) (ref a ∷ visited) (branch a f ∷ path)
            (result ++ here (branch a f) path) (omega arith) h.1
        ∙ turn_end (suc k) k (branch a f) rest (refs_all ref f) visited path _ refl
        ∙ ap (find_path_all_loop k rest (enter (refs_all ref f) (ref a ∷ visited)) path)
            (append_assoc result (here (branch a f) path) (chains_all f (branch a f ∷ path)))

    loop-forest :
        (f : Forest A) (m k : ℕ) (rest : List (Node A)) (visited : List ℕ) (path : List (Node A))
        (result : List (List (Node A)))
        → m ≡ 2 * sizes f + k
        → AreFresh (refs_all ref f) visited
        → find_path_all_loop m (to_list f ++ rest) visited path result
          ≡ find_path_all_loop k rest
              (enter (refs_all ref f) visited)
              path
              (result ++ chains_all f path)
    loop-forest nil m k rest visited path result e h =
        let same : m ≡ k = omega arith in
        ap (λ j. find_path_all_loop j rest visited path result) same
        ∙ ap (find_path_all_loop k rest visited path) (sym (append-nil result))
    loop-forest (cons n f) m k rest visited path result e h =
        let (hn, hf) = AreFresh-append (refs ref n) (refs_all ref f) visited h in
        loop-node n m (2 * sizes f + k) (to_list f ++ rest) visited path result (omega arith) hn
        ∙ loop-forest f (2 * sizes f + k) k rest (enter (refs ref n) visited) path
            (result ++ chains n path) refl hf
        ∙ ap
            (λ v. find_path_all_loop k rest v path ((result ++ chains n path) ++ chains_all f path))
            (sym (enter-append (refs ref n) (refs_all ref f) visited))
        ∙ ap (find_path_all_loop k rest (enter (refs ref n ++ refs_all ref f) visited) path)
            (append_assoc result (chains n path) (chains_all f path))

  at_end :
      (visited : List ℕ) (result : List (List (Node A)))
      → find_path_all_loop 1 [] visited [] result ≡ some result
  unfolding find_path_all_loop
  at_end visited result = refl

  find_path_all_lem :
      (tree : Forest A)
      → AreFresh (refs_all ref tree) []
      → find_path_all tree ≡ some (chains_all tree [])
  unfolding find_path_all
  find_path_all_lem tree h =
      ap (λ l. find_path_all_loop (suc (2 * sizes tree)) l [] [] [])
        (sym (append-nil (to_list tree)))
      ∙ loop-forest tree (suc (2 * sizes tree)) 1 [] [] [] [] (omega arith) h
      ∙ at_end _ (chains_all tree [])

  head?-append : (xs ys : List (List (Node A))) → head? (xs ++ ys) ≡ first (head? xs) (head? ys)
  head?-append [] ys = refl
  head?-append (x ∷ xs) ys = refl

  mutual
    unfolding chain chains

    head?-chains :
        (n : Node A) (path : List (Node A)) → head? (chains n path) ≡ chain ref func n path
    head?-chains (leaf a) path = ground arith
    head?-chains (branch a f) path = ground (
      arith,
      head?-append (here (branch a f) path) (chains_all f (branch a f ∷ path)),
      head?-chains_all f (branch a f ∷ path),
    )

    head?-chains_all :
        (f : Forest A) (path : List (Node A))
        → head? (chains_all f path) ≡ chain_all ref func f path
    head?-chains_all nil path = refl
    head?-chains_all (cons n f) path = cc (
      head?-append (chains n path) (chains_all f path),
      head?-chains n path,
      head?-chains_all f path,
    )

  here-ends :
      (n : Node A) (path : List (Node A))
      → map last_of (here n path) ≡ map some (filter func (n ∷ []))
  here-ends n path = elim (Bool-cases (func n)) [
    | inl t ↦ rw (t, reverse-cons, last_of-concat)
    | inr t ↦ rw t
  ]

  filter-cons :
      (n : Node A) (ns : List (Node A))
      → filter func (n ∷ ns) ≡ filter func (n ∷ []) ++ filter func ns
  filter-cons n ns = ground arith

  mutual
    unfolding chains preorder

    chains-ends :
        (n : Node A) (path : List (Node A))
        → map last_of (chains n path) ≡ map some (filter func (preorder n))
    chains-ends (leaf a) path = here-ends (leaf a) path
    chains-ends (branch a f) path =
        rw (filter-cons (branch a f) (preorders f), map-append, map-append)
          (ap₂ (◌++◌) (here-ends (branch a f) path) (chains_all-ends f (branch a f ∷ path)))

    chains_all-ends :
        (f : Forest A) (path : List (Node A))
        → map last_of (chains_all f path) ≡ map some (filter func (preorders f))
    chains_all-ends nil path = refl
    chains_all-ends (cons n f) path =
        rw (filter-append, map-append, map-append)
          (ap₂ (◌++◌) (chains-ends n path) (chains_all-ends f path))

  -- On a tree whose objects differ `findPathAll` ends; the last nodes of its paths are the accepted
  -- nodes, each once, in the order of `treeToList`, and its first path is the answer of `findPath`.
  pub find_path_all_ends :
      (tree : Forest A)
      → AreFresh (refs_all ref tree) []
      → (ps : List (List (Node A))) × (find_path_all tree ≡ some ps)
        × (map last_of ps ≡ map some (filter func (preorders tree)))
        × (find_path ref func tree ≡ some (head? ps))
  find_path_all_ends tree h = (
    chains_all tree [],
    find_path_all_lem tree h,
    chains_all-ends tree [],
    find_path_lem ref func tree h ∙ ap some (sym (head?-chains_all tree [])),
  )
