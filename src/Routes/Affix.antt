-- ===== src/Routes/Affix.antt =====
-- store/modules/permission.ts, `patchHomeAffix` of `buildRoutesAction`: the tab of the home page is
-- fixed. The exception that ends the walk is `ended`.
pub mod Once
use Prim.Native.String as Text
use kerthus.Base.{String, Bool, true, Option, none, some, or_else, is_empty, str_eq, if◌then◌else◌}
use kerthus.Tree.{Node, leaf, branch, Forest, nil, cons, item}
use kerthus.Session.Home.{is_absolute}
use kerthus.Routes.{Placed, is_set}

-- What the walk has made of a part of the routes, with the home path that it looks for behind it.
pub data Patched (T : Type 0) : Type 0 where
  ended : T → Patched T
  going : T → String → Patched T

abbrev pub patched_routes : {T : Type 0} → Patched T → T
patched_routes (ended t) = t
patched_routes (going t home) = t

abbrev pub full_path : String → String → String
full_path parent path =
    if is_absolute path
    then path
    else Text.◌++◌ (if is_empty parent then parent else Text.◌++◌ parent "/") path

abbrev pub with_affix : Placed → Placed
with_affix r = record r { meta = record r.meta { affix = true } }

-- The test of one route: it ends the walk, or goes on to the children with a home path.
pub data Visit : Type 0 where
  fixed : Visit
  searching : String → Visit

unfoldable pub visit_route : String → String → Placed → Visit
visit_route parent home r =
    if str_eq (full_path parent r.path) home
    then (if is_set r.redirect then searching (or_else r.redirect home) else fixed)
    else searching home

abbrev pub in_branch : Placed → Patched (Forest Placed) → Patched (Node Placed)
in_branch r (ended f) = ended (branch r f)
in_branch r (going f home) = going (branch r f) home

abbrev pub leaf_visited : Placed → Visit → Patched (Node Placed)
leaf_visited r fixed = ended (leaf (with_affix r))
leaf_visited r (searching home) = going (leaf r) home

-- `walk` is the walk over the children.
abbrev pub branch_visited :
    Placed → Forest Placed → (String → Patched (Forest Placed)) → Visit → Patched (Node Placed)
branch_visited r f walk fixed = ended (branch (with_affix r) f)
branch_visited r f walk (searching home) = in_branch r (walk home)

abbrev pub before : Node Placed → Patched (Forest Placed) → Patched (Forest Placed)
before n (ended f) = ended (cons n f)
before n (going f home) = going (cons n f) home

abbrev pub in_list :
    Patched (Node Placed)
    → Forest Placed
    → (String → Patched (Forest Placed))
    → Patched (Forest Placed)
in_list (ended n) f walk = ended (cons n f)
in_list (going n home) f walk = before n (walk home)

unfoldable mutual
  pub patch_node : String → Node Placed → String → Patched (Node Placed)
  patch_node parent (leaf r) home = leaf_visited r (visit_route parent home r)
  patch_node parent (branch r f) home =
      branch_visited r f (λ h. patcher (full_path parent r.path) f h) (visit_route parent home r)

  pub patcher : String → Forest Placed → String → Patched (Forest Placed)
  patcher parent nil home = going nil home
  patcher parent (cons n f) home = in_list (patch_node parent n home) f (λ h. patcher parent f h)

unfoldable pub patch_home_affix : String → Forest Placed → Forest Placed
patch_home_affix home routes = patched_routes (patcher "" routes home)
