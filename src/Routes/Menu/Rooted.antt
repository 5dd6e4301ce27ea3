-- ===== src/Routes/Menu/Rooted.antt =====
-- menuHelper.ts, `joinParentPath`: every menu has a path of its own.
use Prim.Native.String as Text
use mathlib.Core.Path.{ap₂}
use text.Mathlib.TextLemmas.{nil-append, cons-append}
use kerthus.Base.{
  ◌≡◌, refl, ap, ℕ, String, Bool, true, Bool-cases, ◌⊎◌, inl, inr, List, [], ◌∷◌, arith,
}
use kerthus.Tree.{Node, leaf, branch, Forest, nil, cons}
use kerthus.Session.Home.{is_absolute}
use kerthus.Routes.{Placed}
use kerthus.Routes.Everywhere.{HoldsIn, Holds}
use kerthus.Routes.Menu.{
  Menu, starts_word, dotted, domain_after, is_url, is_rooted, joined, below, with_path, join_node,
  join_parent_path, transform_route_to_menu,
}

starts_word-append : (s t : String) → starts_word s ≡ true → starts_word (Text.◌++◌ s t) ≡ true
starts_word-append String.[] t h = cc
starts_word-append (String.◌∷◌ c s) t h = rw cons-append h

dotted-append : (s t : String) → dotted s ≡ true → dotted (Text.◌++◌ s t) ≡ true
unfolding dotted
dotted-append String.[] t h = cc
dotted-append (String.◌∷◌ c s) t h =
    rw cons-append (ground (arith, starts_word-append s t, dotted-append s t))

domain_after-append :
    (ps : List ℕ) (s t : String) → domain_after ps s ≡ true → domain_after ps (Text.◌++◌ s t) ≡ true
unfolding domain_after
domain_after-append [] String.[] t h = cc
domain_after-append [] (String.◌∷◌ c s) t h = rw cons-append (ground (arith, dotted-append s t))
domain_after-append (p ∷ ps) String.[] t h = cc
domain_after-append (p ∷ ps) (String.◌∷◌ c s) t h =
    rw cons-append (ground (arith, domain_after-append ps s t))

is_absolute-append : (s t : String) → is_absolute s ≡ true → is_absolute (Text.◌++◌ s t) ≡ true
is_absolute-append String.[] t h = cc
is_absolute-append (String.◌∷◌ c s) t h = rw cons-append h

is_rooted-append : (s t : String) → is_rooted s ≡ true → is_rooted (Text.◌++◌ s t) ≡ true
unfolding is_url
is_rooted-append s t h = ground (
  arith,
  is_absolute-append s t,
  domain_after-append (104 ∷ 116 ∷ 116 ∷ 112 ∷ 115 ∷ 58 ∷ 47 ∷ 47 ∷ []) s t,
  domain_after-append (104 ∷ 116 ∷ 116 ∷ 112 ∷ 58 ∷ 47 ∷ 47 ∷ []) s t,
)

abbrev pub IsRooted : Menu → Type 0
IsRooted m = is_rooted m.path ≡ true

-- What paths are joined with: nothing, or a path that is rooted.
abbrev IsBase : String → Type 0
IsBase parent = (parent ≡ "") ⊎ (is_rooted parent ≡ true)

under-rooted :
    (parent path : String)
    → IsBase parent
    → is_rooted (Text.◌++◌ parent (Text.◌++◌ "/" path)) ≡ true
under-rooted parent path (inl e) = rw (e, nil-append, cons-append)
under-rooted parent path (inr t) = is_rooted-append parent (Text.◌++◌ "/" path) t

joined-rooted : (parent path : String) → IsBase parent → is_rooted (joined parent path) ≡ true
joined-rooted parent path h = elim (Bool-cases (is_rooted path)) [
  | inl t ↦ rw t t
  | inr t ↦ rw t (under-rooted parent path h)
]

below-IsBase : (parent : String) (m : Menu) → IsBase parent → IsBase (below parent m)
below-IsBase parent m h = elim (Bool-cases m.meta.hide_path_for_children) [
  | inl t ↦ rw t h
  | inr t ↦ rw t (inr (joined-rooted parent m.path h))
]

mutual
  unfolding join_node

  join_node-Rooted :
      (parent : String) (n : Node Menu) → IsBase parent → HoldsIn IsRooted (join_node parent n)
  join_node-Rooted parent (leaf m) h = joined-rooted parent m.path h
  join_node-Rooted parent (branch m f) h =
      (joined-rooted parent m.path h, join-Rooted (below parent m) f (below-IsBase parent m h))

  join-Rooted :
      (parent : String) (f : Forest Menu)
      → IsBase parent
      → Holds IsRooted (join_parent_path parent f)
  join-Rooted parent nil h = tt
  join-Rooted parent (cons n f) h = (join_node-Rooted parent n h, join-Rooted parent f h)

joined-same : (parent : String) (m : Menu) → IsRooted m → with_path (joined parent m.path) m ≡ m
joined-same parent m h = rw h

mutual
  unfolding join_node

  join_node-same : (parent : String) (n : Node Menu) → HoldsIn IsRooted n → join_node parent n ≡ n
  join_node-same parent (leaf m) h = ap leaf (joined-same parent m h)
  join_node-same parent (branch m f) h =
      ap₂ branch (joined-same parent m h.0) (join-same (below parent m) f h.1)

  join-same : (parent : String) (f : Forest Menu) → Holds IsRooted f → join_parent_path parent f ≡ f
  join-same parent nil h = refl
  join-same parent (cons n f) h = ap₂ cons (join_node-same parent n h.0) (join-same parent f h.1)

-- Every menu of `transformRouteToMenu`, at any depth, has a path that starts with "/" or is an address,
-- and a second join, with whatever parent, changes none.
pub transform_route_to_menu-IsRooted :
    (mapping : Bool) (routes : Forest Placed) (parent : String)
    → Holds IsRooted (transform_route_to_menu mapping routes)
      × (join_parent_path parent (transform_route_to_menu mapping routes)
          ≡ transform_route_to_menu mapping routes)
unfolding transform_route_to_menu
transform_route_to_menu-IsRooted mapping routes parent =
    let h : Holds IsRooted (transform_route_to_menu mapping routes) = join-Rooted "" _ (inl refl) in
    (h, join-same parent _ h)
