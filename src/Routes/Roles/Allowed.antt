-- ===== src/Routes/Roles/Allowed.antt =====
-- menus/index.ts in the mode of roles: which menus are left.
use mathlib.Core.Option
use kerthus.Base.{
  ◌≡◌, refl, sym, ap, ◌∙◌, subst, inl, inr, String, Bool, true, Option-cases, List, [], ◌∷◌, Option,
  none, some, find, any, arith,
}
use kerthus.Tree.{Node, leaf, branch, Forest, nil, cons}
use kerthus.Routes.Menu.{Menu}
use kerthus.Routes.Shown.{menu_filter, children_at}
use kerthus.Routes.Roles.{
  Record, matches_route, basic_filter, keep_leaf, keep_branch, role_node, role_filter, get_menus,
  children_menus,
}

any-find : {A : Type 0} (p : A → Bool) (xs : List A) (y : A) → find p xs ≡ some y → any p xs ≡ true
any-find p [] y e = cc
any-find p (x ∷ xs) y e = ground (arith, any-find p xs y)

module _ (matches : String → String → Bool) (routes : List Record) where
  abbrev pub IsAllowed : Menu → Type 0
  IsAllowed m = any (matches_route matches m.path) routes ≡ true

  -- Every menu without children matches a route.
  unfoldable mutual
    pub AllowedIn : Node Menu → Type 0
    AllowedIn (leaf m) = IsAllowed m
    AllowedIn (branch m nil) = IsAllowed m
    AllowedIn (branch m (cons n f)) = AllowedIn n × Allowed f

    pub Allowed : Forest Menu → Type 0
    Allowed nil = Unit
    Allowed (cons n f) = AllowedIn n × Allowed f

  basic_filter-IsAllowed : (m m' : Menu) → basic_filter matches routes m ≡ some m' → IsAllowed m'
  unfolding basic_filter
  basic_filter-IsAllowed m m' e = elim (Option-cases (find (matches_route matches m.path) routes)) [
    | inl n ↦ absurd (none_some (sym (ap (Option.map (λ r. record m { meta = r.meta })) n) ∙ e))
    | inr (r, f) ↦
        subst IsAllowed (some_same (sym (ap (Option.map (λ r. record m { meta = r.meta })) f) ∙ e))
          (any-find (matches_route matches m.path) routes r f)
  ]
    where
      none_some : {A : Type 0} {a : A} → none ≡ some a → ⊥
      none_some h = cc

      some_same : {A : Type 0} {a b : A} → some a ≡ some b → a ≡ b
      some_same h = cc

  keep_leaf-Allowed :
      (o : Option Menu) (rest : Forest Menu)
      → ((m : Menu) → o ≡ some m → IsAllowed m)
      → Allowed rest
      → Allowed (keep_leaf matches o rest)
  unfolding Allowed
  keep_leaf-Allowed none rest h r = r
  keep_leaf-Allowed (some m) rest h r = (h m refl, r)

  keep_branch-Allowed :
      (m : Menu) (o : Option Menu) (f rest : Forest Menu)
      → ((m' : Menu) → o ≡ some m' → IsAllowed m')
      → Allowed f
      → Allowed rest
      → Allowed (keep_branch matches m o f rest)
  unfolding Allowed
  keep_branch-Allowed m (some m') nil rest h a r = (h m' refl, r)
  keep_branch-Allowed m (some m') (cons n f) rest h a r = (a, r)
  keep_branch-Allowed m none nil rest h a r = r
  keep_branch-Allowed m none (cons n f) rest h a r = (a, r)

  mutual
    unfolding role_node Allowed

    role_node-Allowed :
        (n : Node Menu) (rest : Forest Menu)
        → Allowed rest
        → Allowed (role_node matches routes n rest)
    role_node-Allowed (leaf m) rest r =
        keep_leaf-Allowed (basic_filter matches routes m) rest (basic_filter-IsAllowed m) r
    role_node-Allowed (branch m f) rest r =
        keep_branch-Allowed m (basic_filter matches routes m) (role_filter matches routes f) rest
          (basic_filter-IsAllowed m) (role_filter-Allowed f) r

    role_filter-Allowed : (f : Forest Menu) → Allowed (role_filter matches routes f)
    role_filter-Allowed nil = tt
    role_filter-Allowed (cons n f) =
        role_node-Allowed n (role_filter matches routes f) (role_filter-Allowed f)

  -- In the mode of roles every menu without children, among all menus and below each of them, matches
  -- a route that the router has.
  pub get_menus-Allowed :
      (menus : Forest Menu) (path : String)
      → Allowed (get_menus matches true routes menus)
        × Allowed (children_menus matches true routes menus path)
  unfolding get_menus children_menus
  get_menus-Allowed menus path = (
    role_filter-Allowed (menu_filter menus),
    role_filter-Allowed (children_at path (get_menus matches true routes menus)),
  )
