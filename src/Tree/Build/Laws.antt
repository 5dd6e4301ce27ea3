-- ===== src/Tree/Build/Laws.antt =====
-- treeHelper.ts, `listToTree`: it ends, and where each object is behind it.
use mathlib.Core.Bool.{not}
use mathlib.Core.Option
use kerthus.Base.{
  ℕ, ◌≡◌, refl, sym, ap, ◌∙◌, subst, Bool, true, false, Bool-cases, Option-cases, inl, inr, List,
  [], ◌∷◌, ◌++◌, append_assoc, append-nil, map, Option, none, some, is_some, or_else, arith,
  if◌then◌else◌, filter, ◌==◌, ==_iff,
}
use kerthus.Tree.Build.{
  Row, Store, update, node_map_get, with_children, place, place_all, list_to_tree,
}

module _ {ℓ} {K : Type ℓ} (same : K → K → Bool) where
  abbrev is_the : ℕ → Option ℕ → Bool
  is_the r none = false
  is_the r (some q) = q == r

  abbrev last_of : List (Row K) → Option ℕ
  last_of [] = none
  last_of (n ∷ ns) = some (or_else (last_of ns) n.ref)

  -- The parent of an object in a list: the last object of the list whose key is the object's key of
  -- a parent.
  abbrev pub parent : List (Row K) → Row K → Option ℕ
  parent list n = last_of (filter (λ m. same m.id n.pid) list)

  abbrev pub is_root : List (Row K) → Row K → Bool
  is_root list n = not (is_some (parent list n))

  abbrev pub is_child_of : List (Row K) → ℕ → Row K → Bool
  is_child_of list r n = is_the r (parent list n)

  abbrev refs_of : List (Row K) → List ℕ
  refs_of = map (λ n. n.ref)

  node_map_get_lem :
      (list : List (Row K)) (key : K)
      → node_map_get same list key ≡ last_of (filter (λ m. same m.id key) list)
  unfolding node_map_get
  node_map_get_lem [] key = refl
  node_map_get_lem (n ∷ ns) key = elim (Bool-cases (same n.id key)) [
    | inl b ↦ elim (Option-cases (last_of (filter (λ m. same m.id key) ns))) [
      | inl l ↦ rw (node_map_get_lem ns key, l, b, l) refl
      | inr (q, l) ↦ rw (node_map_get_lem ns key, l, b, l) refl
    ]
    | inr b ↦ elim (Option-cases (last_of (filter (λ m. same m.id key) ns))) [
      | inl l ↦ rw (node_map_get_lem ns key, l, b, l) refl
      | inr (q, l) ↦ rw (node_map_get_lem ns key, l, b, l) refl
    ]
  ]

  -- An object has an array of children.
  abbrev HasChildren : Store → ℕ → Type 0
  HasChildren store r = is_some (store r) ≡ true

  update-HasChildren :
      (store : Store) (q r : ℕ) (l : List ℕ)
      → HasChildren store r
      → HasChildren (update store q l) r
  update-HasChildren store q r l h = ground arith

  with_children-HasChildren :
      (list : List (Row K)) (store : Store) (r : ℕ)
      → HasChildren store r
      → HasChildren (with_children same list store) r
  unfolding with_children
  with_children-HasChildren [] store r h = h
  with_children-HasChildren (n ∷ ns) store r h =
      with_children-HasChildren ns (update store n.ref (or_else (store n.ref) [])) r
        (update-HasChildren store n.ref r (or_else (store n.ref) []) h)

  -- What the map of the first loop answers has an array of children behind this loop.
  found-HasChildren :
      (list : List (Row K)) (store : Store) (key : K) (r : ℕ)
      → node_map_get same list key ≡ some r
      → HasChildren (with_children same list store) r
  unfolding with_children node_map_get
  found-HasChildren [] store key r e = cc
  found-HasChildren (n ∷ ns) store key r e = elim (Option-cases (node_map_get same ns key)) [
    | inr (q, g) ↦
        found-HasChildren ns (update store n.ref (or_else (store n.ref) [])) key r (g ∙ rw g at e)
    | inl g ↦ elim (Bool-cases (same n.id key)) [
      | inl b ↦
          let f = rw (g, b) at e in
          let q : n.ref ≡ r = cc in
          subst (λ x. HasChildren (with_children same (n ∷ ns) store) x) q
            (with_children-HasChildren ns (update store n.ref (or_else (store n.ref) [])) n.ref
              (ground arith))
      | inr b ↦ let f = rw (g, b) at e in cc
    ]
  ]

  with_children-same :
      (list : List (Row K)) (store : Store) (r : ℕ)
      → or_else (with_children same list store r) [] ≡ or_else (store r) []
  unfolding with_children
  with_children-same [] store r = refl
  with_children-same (n ∷ ns) store r =
      with_children-same ns (update store n.ref (or_else (store n.ref) [])) r ∙ ground arith

  -- Every object that the map answers has an array of children.
  abbrev IsReady : (K → Option ℕ) → Store → Type ℓ
  IsReady get store = (key : K) (r : ℕ) → get key ≡ some r → HasChildren store r

  abbrev is_below : (K → Option ℕ) → ℕ → Row K → Bool
  is_below get r n = is_the r (get n.pid)

  abbrev is_top : (K → Option ℕ) → Row K → Bool
  is_top get n = not (is_some (get n.pid))

  -- What the rounds of some objects leave.
  record Placed (get : K → Option ℕ) (ns : List (Row K)) (store : Store) (result : List ℕ)
      (s : Store × List ℕ) : Type ℓ where
    pub ready : IsReady get s.0
    pub roots : s.1 ≡ result ++ refs_of (filter (is_top get) ns)
    pub children :
        (r : ℕ) → or_else (s.0 r) [] ≡ or_else (store r) [] ++ refs_of (filter (is_below get r) ns)

  pushed-children :
      (n : Row K) (store : Store) (q r : ℕ) (l : List ℕ)
      → store q ≡ some l
      → or_else (update store q (l ++ n.ref ∷ []) r) []
        ≡ or_else (store r) [] ++ refs_of (if q == r then n ∷ [] else [])
  pushed-children n store q r l f = elim (Bool-cases (q == r)) [
    | inl e ↦
        let o : store r ≡ some l = subst (λ x. store x ≡ some l) ((==_iff q r).0 e) f in
        let d : r == q ≡ true = ground arith in rw (e, d, o) refl
    | inr e ↦ let d : r == q ≡ false = ground arith in rw (e, d) (sym (append-nil _))
  ]

  place-Placed :
      (get : K → Option ℕ) (n : Row K) (store : Store) (result : List ℕ)
      → IsReady get store
      → (s : Store × List ℕ) × (place same get n store result ≡ some s)
        × Placed get (n ∷ []) store result s
  unfolding place
  place-Placed get n store result h = elim (Option-cases (get n.pid)) [
    | inl e ↦ (
      (store, result ++ n.ref ∷ []),
      rw (place, e) refl,
      record {
        ready = h;
        roots = rw (e, place, filter) refl;
        children = λ r. rw (filter, e) (sym (append-nil _));
      },
    )
    | inr (q, e) ↦ elim (Option-cases (store q)) [
      | inl f ↦ let g = rw f at (h n.pid q e) in cc
      | inr (l, f) ↦ (
        (update store q (l ++ n.ref ∷ []), result),
        rw (place, e, f) refl,
        record {
          ready = λ key r g. update-HasChildren store q r (l ++ n.ref ∷ []) (h key r g);
          roots = rw (filter, e) (sym (append-nil result));
          children = λ r. rw (filter, e) (pushed-children n store q r l f);
        },
      )
    ]
  ]

  refs_of-filter-cons :
      (p : Row K → Bool) (n : Row K) (ns : List (Row K)) (l : List ℕ)
      → (l ++ refs_of (filter p (n ∷ []))) ++ refs_of (filter p ns)
        ≡ l ++ refs_of (filter p (n ∷ ns))
  refs_of-filter-cons p n ns l =
      append_assoc l _ _
      ∙ ap (λ m. l ++ m) (elim (Bool-cases (p n)) [ inl e ↦ rw e | inr e ↦ rw e ])

  place_all-Placed :
      (get : K → Option ℕ) (ns : List (Row K)) (store : Store) (result : List ℕ)
      → IsReady get store
      → (s : Store × List ℕ) × (place_all same get ns store result ≡ some s)
        × Placed get ns store result s
  unfolding place_all Option.bind
  place_all-Placed get [] store result h = (
    (store, result),
    refl,
    record {
      ready = h;
      roots = sym (append-nil result);
      children = λ r. sym (append-nil (or_else (store r) []));
    },
  )
  place_all-Placed get (n ∷ ns) store result h =
      let (s, e, one) = place-Placed get n store result h in
      let (t, f, rest) = place_all-Placed get ns s.0 s.1 one.ready in
      (
        t,
        rw e f,
        record {
          ready = rest.ready;
          roots =
              rest.roots
              ∙ ap (λ l. l ++ refs_of (filter (is_top get) ns)) one.roots
              ∙ refs_of-filter-cons (is_top get) n ns result;
          children = λ r.
              rest.children r
              ∙ ap (λ l. l ++ refs_of (filter (is_below get r) ns)) (one.children r)
              ∙ refs_of-filter-cons (is_below get r) n ns (or_else (store r) []);
        },
      )

  -- `listToTree` ends without an exception and keeps every object. The parent of an object is the last
  -- object of the list whose key is the object's key of a parent. The objects without a parent in the
  -- list are the roots, and those with a parent are added to the children of this object behind the
  -- ones that it has, in the order of the list.
  pub list_to_tree_lem :
      (list : List (Row K)) (store : Store)
      → (store' : Store) × (roots : List ℕ) × (list_to_tree same list store ≡ some (store', roots))
        × (roots ≡ map (λ n. n.ref) (filter (is_root list) list))
        × ((r : ℕ)
            → or_else (store' r) []
              ≡ or_else (store r) [] ++ map (λ n. n.ref) (filter (is_child_of list r) list))
  unfolding list_to_tree
  list_to_tree_lem list store =
      let get = node_map_get same list in
      let (s, e, p) =
        place_all-Placed get list (with_children same list store) []
          (λ key r f. found-HasChildren list store key r f) in
      (
        s.0,
        s.1,
        e,
        p.roots
            ∙ ap (λ q. refs_of (filter q list))
                (λ i n. not (is_some (node_map_get_lem list n.pid i))),
        λ r.
            p.children r
            ∙ ap (λ l. l ++ refs_of (filter (is_below get r) list))
                (with_children-same list store r)
            ∙ ap (λ q. or_else (store r) [] ++ refs_of (filter q list))
                (λ i n. is_the r (node_map_get_lem list n.pid i)),
      )
