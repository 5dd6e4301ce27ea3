-- ===== src/Tree/Build.antt =====
-- treeHelper.ts, `listToTree`: objects of a flat list are joined into trees by their keys.
-- The objects live in a store: `ref` is an object's identity, and a store holds the `children` array
-- of each object as a list of references.
pub mod Laws
use mathlib.Core.Option
use kerthus.Base.{ℕ, Bool, List, [], ◌∷◌, ◌++◌, Option, none, some, or_else, if◌then◌else◌, ◌==◌}

pub record Row {ℓ} (K : Type ℓ) : Type ℓ where
  pub ref : ℕ
  pub id : K
  pub pid : K

-- `children` is `none` where the field is missing or `null`.
abbrev pub Store : Type 0
Store = ℕ → Option (List ℕ)

abbrev pub update : Store → ℕ → List ℕ → Store
update store r l q = if q == r then some l else store q

module _ {ℓ} {K : Type ℓ} (same : K → K → Bool) where
  -- `nodeMap.get(key)` after the first loop: the last object with that key.
  unfoldable pub node_map_get : List (Row K) → K → Option ℕ
  node_map_get [] key = none
  node_map_get (n ∷ ns) key = elim (node_map_get ns key) [
    | some r ↦ some r
    | none ↦ if same n.id key then some n.ref else none
  ]

  -- The first loop: `node.children = node.children || []`.
  unfoldable pub with_children : List (Row K) → Store → Store
  with_children [] store = store
  with_children (n ∷ ns) store = with_children ns (update store n.ref (or_else (store n.ref) []))

  -- `parent[children].push(node)`, which throws where the parent has no children.
  abbrev push_to : ℕ → ℕ → List ℕ → Store → Option (List ℕ) → Option (Store × List ℕ)
  push_to r ref result store none = none
  push_to r ref result store (some l) = some (update store r (l ++ ref ∷ []), result)

  -- A round of the second loop, over the store and the list of the roots; `none` is an exception.
  unfoldable pub place : (K → Option ℕ) → Row K → Store → List ℕ → Option (Store × List ℕ)
  place get n store result = elim (get n.pid) [
    | some r ↦ push_to r n.ref result store (store r)
    | none ↦ some (store, result ++ n.ref ∷ [])
  ]

  unfoldable pub place_all :
      (K → Option ℕ) → List (Row K) → Store → List ℕ → Option (Store × List ℕ)
  place_all get [] store result = some (store, result)
  place_all get (n ∷ ns) store result =
      Option.bind (place get n store result) (λ s. place_all get ns s.0 s.1)

  unfoldable pub list_to_tree : List (Row K) → Store → Option (Store × List ℕ)
  list_to_tree list store = place_all (node_map_get list) list (with_children list store) []
