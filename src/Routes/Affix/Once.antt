-- ===== src/Routes/Affix/Once.antt =====
-- permission.ts, `patchHomeAffix`: one route at most is fixed.
use kerthus.Base.{
  ◌≡◌, refl, ap, sym, subst, ◌⊎◌, inl, inr, String, Option, none, some, or_else, str_eq, Bool, true,
  false, Bool-cases, if◌then◌else◌,
}
use kerthus.Tree.{Node, leaf, branch, Forest, nil, cons}
use kerthus.Routes.{Placed, is_set}
use kerthus.Routes.Everywhere.{HoldsIn, Holds}
use kerthus.Routes.Affix.{
  Patched, ended, going, full_path, with_affix, Visit, fixed, searching, visit_route, in_branch,
  leaf_visited, branch_visited, before, in_list, patched_routes, patch_node, patcher,
  patch_home_affix,
}

-- The path that the parent's path leads to is the home path, and the route redirects to no other.
abbrev pub IsHome : String → String → Placed → Type 0
IsHome parent home r = (str_eq (full_path parent r.path) home ≡ true) × (is_set r.redirect ≡ false)

-- The second tree is the first with one route fixed.
mutual
  pub data FixedNode : String → String → Node Placed → Node Placed → Type 0 where
    at_leaf :
        {parent home : String} {r : Placed}
        → IsHome parent home r
        → FixedNode parent home (leaf r) (leaf (with_affix r))
    at_branch :
        {parent home : String} {r : Placed} {f : Forest Placed}
        → IsHome parent home r
        → FixedNode parent home (branch r f) (branch (with_affix r) f)
    below :
        {parent home : String} {r : Placed} {f g : Forest Placed}
        → FixedIn (full_path parent r.path) home f g
        → FixedNode parent home (branch r f) (branch r g)

  pub data FixedIn : String → String → Forest Placed → Forest Placed → Type 0 where
    first :
        {parent home : String} {n m : Node Placed} {f : Forest Placed}
        → FixedNode parent home n m
        → FixedIn parent home (cons n f) (cons m f)
    later :
        {parent home : String} {n : Node Placed} {f g : Forest Placed}
        → FixedIn parent home f g
        → FixedIn parent home (cons n f) (cons n g)

-- `targets` has the texts that the home path may be.
module _ (targets : String → Bool) where
  abbrev pub IsTarget : String → Type 0
  IsTarget home = targets home ≡ true

  abbrev pub RedirectsWithin : Placed → Type 0
  RedirectsWithin r = (if is_set r.redirect then targets (or_else r.redirect "") else true) ≡ true

  abbrev NodeOnce : String → Node Placed → Patched (Node Placed) → Type 0
  NodeOnce parent n (ended m) = (home : String) × IsTarget home × FixedNode parent home n m
  NodeOnce parent n (going m home) = (m ≡ n) × IsTarget home

  abbrev ListOnce : String → Forest Placed → Patched (Forest Placed) → Type 0
  ListOnce parent f (ended g) = (home : String) × IsTarget home × FixedIn parent home f g
  ListOnce parent f (going g home) = (g ≡ f) × IsTarget home

  abbrev VisitOnce : String → String → Placed → Visit → Type 0
  VisitOnce parent home r fixed = IsHome parent home r
  VisitOnce parent home r (searching h) = IsTarget h

  redirect-IsTarget :
      (o : Option String) (home : String)
      → is_set o ≡ true
      → (if is_set o then targets (or_else o "") else true) ≡ true
      → IsTarget (or_else o home)
  redirect-IsTarget none home s h = cc
  redirect-IsTarget (some x) home s h = rw s at h

  visit_once :
      (parent home : String) (r : Placed)
      → IsTarget home
      → RedirectsWithin r
      → VisitOnce parent home r (visit_route parent home r)
  unfolding visit_route
  visit_once parent home r i w = elim (Bool-cases (str_eq (full_path parent r.path) home)) [
    | inr t ↦ rw t i
    | inl t ↦ rw t (elim (Bool-cases (is_set r.redirect)) [
      | inl s ↦ rw s (redirect-IsTarget r.redirect home s w)
      | inr s ↦ rw s (t, s)
    ])
  ]

  leaf_once :
      (parent home : String) (r : Placed) (v : Visit)
      → IsTarget home
      → VisitOnce parent home r v
      → NodeOnce parent (leaf r) (leaf_visited r v)
  leaf_once parent home r fixed i h = (home, i, at_leaf h)
  leaf_once parent home r (searching _) i h = (refl, h)

  in_branch_once :
      (parent : String) (r : Placed) (f : Forest Placed) (p : Patched (Forest Placed))
      → ListOnce (full_path parent r.path) f p
      → NodeOnce parent (branch r f) (in_branch r p)
  in_branch_once parent r f (ended g) (home, i, h) = (home, i, below h)
  in_branch_once parent r f (going g home) (h, i) = (ap (branch r) h, i)

  branch_once :
      (parent home : String) (r : Placed) (f : Forest Placed)
      (walk : String → Patched (Forest Placed)) (v : Visit)
      → ((h : String) → IsTarget h → ListOnce (full_path parent r.path) f (walk h))
      → IsTarget home
      → VisitOnce parent home r v
      → NodeOnce parent (branch r f) (branch_visited r f walk v)
  branch_once parent home r f walk fixed w i h = (home, i, at_branch h)
  branch_once parent home r f walk (searching k) w i h = in_branch_once parent r f (walk k) (w k h)

  before_once :
      (parent : String) (n : Node Placed) (f : Forest Placed) (p : Patched (Forest Placed))
      → ListOnce parent f p
      → ListOnce parent (cons n f) (before n p)
  before_once parent n f (ended g) (home, i, h) = (home, i, later h)
  before_once parent n f (going g home) (h, i) = (ap (cons n) h, i)

  list_once :
      (parent : String) (n : Node Placed) (f : Forest Placed)
      (walk : String → Patched (Forest Placed)) (p : Patched (Node Placed))
      → ((h : String) → IsTarget h → ListOnce parent f (walk h))
      → NodeOnce parent n p
      → ListOnce parent (cons n f) (in_list p f walk)
  list_once parent n f walk (ended m) w (home, i, h) = (home, i, first h)
  list_once parent n f walk (going m k) w (h, i) =
      subst (λ x. ListOnce parent (cons n f) (before x (walk k))) (sym h)
        (before_once parent n f (walk k) (w k i))

  mutual
    unfolding patch_node

    node_once :
        (parent : String) (n : Node Placed) (home : String)
        → IsTarget home
        → HoldsIn RedirectsWithin n
        → NodeOnce parent n (patch_node parent n home)
    node_once parent (leaf r) home i w = leaf_once parent home r _ i (visit_once parent home r i w)
    node_once parent (branch r f) home i w =
        branch_once parent home r f _ _ (λ h j. patcher_once (full_path parent r.path) f h j w.1) i
          (visit_once parent home r i w.0)

    patcher_once :
        (parent : String) (f : Forest Placed) (home : String)
        → IsTarget home
        → Holds RedirectsWithin f
        → ListOnce parent f (patcher parent f home)
    patcher_once parent nil home i w = (refl, i)
    patcher_once parent (cons n f) home i w =
        list_once parent n f _ _ (λ h j. patcher_once parent f h j w.1)
          (node_once parent n home i w.0)

  at_end :
      (routes : Forest Placed) (p : Patched (Forest Placed))
      → ListOnce "" routes p
      → (patched_routes p ≡ routes)
        ⊎ ((home : String) × IsTarget home × FixedIn "" home routes (patched_routes p))
  at_end routes (ended g) h = inr h
  at_end routes (going g home) h = inl h.0

  -- `patchHomeAffix` leaves the routes as they are, or fixes one route and changes nothing else: a
  -- route that redirects to no other and whose full path is a home path of `targets`, which may be any
  -- set of texts that has the home path and the redirects of the routes.
  pub patch_home_affix_lem :
      (home : String) (routes : Forest Placed)
      → IsTarget home
      → Holds RedirectsWithin routes
      → (patch_home_affix home routes ≡ routes)
        ⊎ ((h : String) × IsTarget h × FixedIn "" h routes (patch_home_affix home routes))
  unfolding patch_home_affix
  patch_home_affix_lem home routes i w = at_end routes _ (patcher_once "" routes home i w)
