-- ===== src/Tree/Path.antt =====
-- treeHelper.ts, `findPath` and `findPathAll`: depth-first search on an explicit stack of nodes,
-- with the set of the objects visited. `ref` is the identity of the object that a node is.
pub mod Sound
pub mod Each
use kerthus.Base.{
  ℕ, zero, suc, ◌+◌, ◌*◌, ◌≡◌, ◌≢◌, refl, sym, ap, ◌∙◌, Bool, true, false, ◌||◌, List, [], ◌∷◌,
  ◌++◌, append_assoc, append-nil, reverse, Option, none, some, arith, ◌==◌, if◌then◌else◌,
  Bool-cases, inl, inr,
}
use kerthus.Tree.{
  Node, leaf, branch, Forest, nil, cons, item, kids, to_list, size, sizes, preorder, preorders,
}

unfoldable pub mem : ℕ → List ℕ → Bool
mem r [] = false
mem r (q ∷ qs) = q == r || mem r qs

-- `xs` is taken if there is one.
abbrev pub first {ℓ} : {B : Type ℓ} → Option B → Option B → Option B
first (some x) y = some x
first none y = y

-- The set of the visited objects behind visits in the order of a list.
pub enter : List ℕ → List ℕ → List ℕ
enter [] visited = visited
enter (r ∷ rs) visited = enter rs (r ∷ visited)

-- The references differ from one another and from those visited.
abbrev pub AreFresh : List ℕ → List ℕ → Type 0
AreFresh [] visited = Unit
AreFresh (r ∷ rs) visited = (mem r visited ≡ false) × AreFresh rs (r ∷ visited)

pub enter-append : (xs ys visited : List ℕ) → enter (xs ++ ys) visited ≡ enter ys (enter xs visited)
unfolding enter
enter-append [] ys visited = refl
enter-append (x ∷ xs) ys visited = enter-append xs ys (x ∷ visited)

pub AreFresh-append :
    (xs ys visited : List ℕ)
    → AreFresh (xs ++ ys) visited
    → AreFresh xs visited × AreFresh ys (enter xs visited)
unfolding enter
AreFresh-append [] ys visited h = (tt, h)
AreFresh-append (x ∷ xs) ys visited (n, h) =
    let (a, b) = AreFresh-append xs ys (x ∷ visited) h in ((n, a), b)

pub mem-enter :
    (r : ℕ) (rs visited : List ℕ) → mem r visited ≡ true → mem r (enter rs visited) ≡ true
unfolding mem enter
mem-enter r [] visited h = h
mem-enter r (q ∷ rs) visited h = mem-enter r rs (q ∷ visited) (ground arith)

pub mem_self : (r : ℕ) (rs : List ℕ) → mem r (r ∷ rs) ≡ true
unfolding mem
mem_self r rs = ground arith

module _ {ℓ} {A : Type ℓ} (ref : A → ℕ) where
  -- The references of the objects, in the order of the visits.
  unfoldable mutual
    pub refs : Node A → List ℕ
    refs (leaf a) = ref a ∷ []
    refs (branch a f) = ref a ∷ refs_all f

    pub refs_all : Forest A → List ℕ
    refs_all nil = []
    refs_all (cons n f) = refs n ++ refs_all f

module _ {ℓ} {A : Type ℓ} (ref : A → ℕ) (func : Node A → Bool) where
  abbrev tail : List (Node A) → List (Node A)
  tail [] = []
  tail (n ∷ ns) = ns

  -- `path` has its last element at the head. The outer `none` means that the fuel ran out, the inner
  -- one is the `null` of the source.
  find_path_loop : ℕ → List (Node A) → List ℕ → List (Node A) → Option (Option (List (Node A)))
  find_path_loop zero list visited path = none
  find_path_loop (suc fuel) [] visited path = some none
  find_path_loop (suc fuel) (node ∷ list) visited path =
      let again = find_path_loop fuel list visited (tail path) in
      let deeper =
        find_path_loop fuel (kids node ++ node ∷ list) (ref (item node) ∷ visited) (node ∷ path) in
      if mem (ref (item node)) visited
      then again
      else if func node
      then some (some (reverse (node ∷ path)))
      else deeper

  pub find_path : Forest A → Option (Option (List (Node A)))
  find_path tree = find_path_loop (suc (2 * sizes tree)) (to_list tree) [] []

  -- The chain from a root to the first node, parents before children, that `func` accepts.
  unfoldable mutual
    pub chain : Node A → List (Node A) → Option (List (Node A))
    chain (leaf a) path = if func (leaf a) then some (reverse (leaf a ∷ path)) else none
    chain (branch a f) path =
        if func (branch a f)
        then some (reverse (branch a f ∷ path))
        else chain_all f (branch a f ∷ path)

    pub chain_all : Forest A → List (Node A) → Option (List (Node A))
    chain_all nil path = none
    chain_all (cons n f) path = first (chain n path) (chain_all f path)

  find_path_loop-again :
      (m : ℕ) (n : Node A) (rest : List (Node A)) (visited : List ℕ) (path : List (Node A))
      → mem (ref (item n)) visited ≡ true
      → find_path_loop (suc m) (n ∷ rest) visited path ≡ find_path_loop m rest visited (tail path)
  unfolding find_path_loop
  find_path_loop-again m n rest visited path h = rw h

  find_path_loop-deeper :
      (m : ℕ) (n : Node A) (rest : List (Node A)) (visited : List ℕ) (path : List (Node A))
      → mem (ref (item n)) visited ≡ false
      → func n ≡ false
      → find_path_loop (suc m) (n ∷ rest) visited path
        ≡ find_path_loop m (kids n ++ n ∷ rest) (ref (item n) ∷ visited) (n ∷ path)
  unfolding find_path_loop
  find_path_loop-deeper m n rest visited path h k = rw (h, k)

  find_path_loop-found :
      (m : ℕ) (n : Node A) (rest : List (Node A)) (visited : List ℕ) (path : List (Node A))
      → mem (ref (item n)) visited ≡ false
      → func n ≡ true
      → find_path_loop (suc m) (n ∷ rest) visited path ≡ some (some (reverse (n ∷ path)))
  unfolding find_path_loop
  find_path_loop-found m n rest visited path h k = rw (h, k)

  abbrev found :
      Option (List (Node A)) → Option (Option (List (Node A))) → Option (Option (List (Node A)))
  found (some p) next = some (some p)
  found none next = next

  found-first :
      (x y : Option (List (Node A))) (next : Option (Option (List (Node A))))
      → found x (found y next) ≡ found (first x y) next
  found-first (some p) y next = refl
  found-first none y next = refl

  -- A node that has been visited ends its own turn.
  turn_end :
      (m k : ℕ) (n : Node A) (rest : List (Node A)) (rs visited : List ℕ) (path : List (Node A))
      → m ≡ suc k
      → find_path_loop m (n ∷ rest) (enter rs (ref (item n) ∷ visited)) (n ∷ path)
        ≡ find_path_loop k rest (enter (ref (item n) ∷ rs) visited) path
  unfolding enter
  turn_end zero k n rest rs visited path h = absurd (omega arith)
  turn_end (suc m) k n rest rs visited path h =
      let e : m ≡ k = omega arith in
      find_path_loop-again m n rest _ (n ∷ path)
        (mem-enter (ref (item n)) rs (ref (item n) ∷ visited) (mem_self (ref (item n)) visited))
      ∙ ap (λ j. find_path_loop j rest (enter rs (ref (item n) ∷ visited)) path) e

  mutual
    unfolding size refs chain enter

    loop-node :
        (n : Node A) (m k : ℕ) (rest : List (Node A)) (visited : List ℕ) (path : List (Node A))
        → m ≡ 2 * size n + k
        → AreFresh (refs ref n) visited
        → find_path_loop m (n ∷ rest) visited path
          ≡ found (chain n path) (find_path_loop k rest (enter (refs ref n) visited) path)
    loop-node (leaf a) zero k rest visited path e h = absurd (omega arith)
    loop-node (branch a f) zero k rest visited path e h = absurd (omega arith)
    loop-node (leaf a) (suc m) k rest visited path e h = elim (Bool-cases (func (leaf a))) [
      | inl t ↦ rw t (find_path_loop-found m (leaf a) rest visited path h.0 t)
      | inr t ↦ rw t (
          find_path_loop-deeper m (leaf a) rest visited path h.0 t
          ∙ turn_end m k (leaf a) rest [] visited path (omega arith))
    ]
    loop-node (branch a f) (suc m) k rest visited path e h = elim (Bool-cases (func (branch a f))) [
      | inl t ↦ rw t (find_path_loop-found m (branch a f) rest visited path h.0 t)
      | inr t ↦ rw t (
          find_path_loop-deeper m (branch a f) rest visited path h.0 t
          ∙ loop-forest f m (suc k) (branch a f ∷ rest) (ref a ∷ visited) (branch a f ∷ path)
              (omega arith) h.1
          ∙ ap (found (chain_all f (branch a f ∷ path)))
              (turn_end (suc k) k (branch a f) rest (refs_all ref f) visited path refl))
    ]

    loop-forest :
        (f : Forest A) (m k : ℕ) (rest : List (Node A)) (visited : List ℕ) (path : List (Node A))
        → m ≡ 2 * sizes f + k
        → AreFresh (refs_all ref f) visited
        → find_path_loop m (to_list f ++ rest) visited path
          ≡ found (chain_all f path) (find_path_loop k rest (enter (refs_all ref f) visited) path)
    loop-forest nil m k rest visited path e h =
        let same : m ≡ k = omega arith in ap (λ j. find_path_loop j rest visited path) same
    loop-forest (cons n f) m k rest visited path e h =
        let (hn, hf) = AreFresh-append (refs ref n) (refs_all ref f) visited h in
        loop-node n m (2 * sizes f + k) (to_list f ++ rest) visited path (omega arith) hn
        ∙ ap (found (chain n path))
            (loop-forest f (2 * sizes f + k) k rest (enter (refs ref n) visited) path refl hf)
        ∙ found-first (chain n path) (chain_all f path)
            (find_path_loop k rest (enter (refs_all ref f) (enter (refs ref n) visited)) path)
        ∙ ap (λ v. found (first (chain n path) (chain_all f path)) (find_path_loop k rest v path))
            (sym (enter-append (refs ref n) (refs_all ref f) visited))

  at_end :
      (o : Option (List (Node A))) (visited : List ℕ)
      → found o (find_path_loop 1 [] visited []) ≡ some o
  unfolding find_path_loop
  at_end none visited = refl
  at_end (some p) visited = refl

  -- On a tree whose objects differ from one another `findPath` ends, and its answer is the chain to
  -- the first accepted node in the order "parent, then its children", or `null` if there is none.
  pub find_path_lem :
      (tree : Forest A)
      → AreFresh (refs_all ref tree) []
      → find_path tree ≡ some (chain_all tree [])
  unfolding find_path
  find_path_lem tree h =
      ap (λ l. find_path_loop (suc (2 * sizes tree)) l [] []) (sym (append-nil (to_list tree)))
      ∙ loop-forest tree (suc (2 * sizes tree)) 1 [] [] [] (omega arith) h
      ∙ at_end (chain_all tree []) _
