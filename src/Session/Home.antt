-- ===== src/Session/Home.antt =====
-- permission.ts, `authorizedHome`: the page that a user starts at. `upper` is `toUpperCase`, and
-- `external_url` is that of externalUrl.ts, which the URL parser of the browser is behind.
pub mod Shown
use Prim.Native.Char.{code}
use Prim.Native.String
use kerthus.Base.{
  ◌≡◌, refl, sym, subst, ◌⊎◌, inl, inr, String, str_eq, is_empty, or_text, Bool, true, false, not,
  ◌&&◌, ◌||◌, ◌==◌, &&-split, Bool-cases, List, [], ◌∷◌, ◌++◌, includes, All, All-append,
  if◌then◌else◌, arith, eq_iff, str_eq_refl, str_eq_ne,
}
use kerthus.Tree.{Node, leaf, branch, Forest, nil, cons}

-- What the server answers for a route, as far as it is read here; `kind` is `type`.
pub record Route : Type 0 where
  pub path : String
  pub hide_menu : Bool
  pub meta_hide_menu : Bool
  pub disabled : Bool
  pub open_with : String
  pub component : String
  pub kind : String

-- `path.startsWith('/')`
abbrev pub is_absolute : String → Bool
is_absolute String.[] = false
is_absolute (String.◌∷◌ c s) = code c == b'/'

-- `path.startsWith('//')`
abbrev pub is_double : String → Bool
is_double String.[] = false
is_double (String.◌∷◌ c s) = code c == b'/' && is_absolute s

-- `path.replace(/\/+/g, '/')`
abbrev pub collapse : String → String
collapse String.[] = String.[]
collapse (String.◌∷◌ c s) =
    if code c == b'/' && is_absolute s then collapse s else String.◌∷◌ c (collapse s)

-- `/[:*?#]/.test(path)`
abbrev pub has_pattern : String → Bool
has_pattern String.[] = false
has_pattern (String.◌∷◌ c s) =
    (code c == b':' || (code c == b'*' || (code c == b'?' || code c == b'#'))) || has_pattern s

module _ (upper external_url : String → String) where
  -- The path of a route below a path.
  abbrev pub path_below : String → Route → String
  path_below parent r =
      if is_absolute r.path then r.path else collapse (String.◌++◌ parent (String.◌++◌ "/" r.path))

  abbrev pub is_hidden : Bool → Route → Bool
  is_hidden parent_hidden r = parent_hidden || (r.hide_menu || r.meta_hide_menu)

  abbrev pub is_layout : String → Bool
  is_layout c = includes c ("LAYOUT" ∷ "PARENTLAYOUT" ∷ "IFRAME" ∷ [])

  abbrev pub is_part : String → Bool
  is_part kind = includes kind ("action" ∷ "field" ∷ [])

  abbrev pub is_landing : String → Bool
  is_landing path = is_absolute path && (not (is_double path) && not (has_pattern path))

  -- The test of `visit`.
  abbrev pub is_view : (hidden : Bool) → String → Route → Bool
  is_view hidden path r =
      not hidden
      && (not r.disabled
          && (not (str_eq r.open_with "outside")
              && (not (is_empty (upper r.component))
                  && ((not (str_eq r.open_with "inside")
                        || not (is_empty (external_url r.component)))
                      && (not (is_layout (upper r.component))
                          && (not (is_part r.kind) && is_landing path))))))

  abbrev pub pushed : Route → String → Bool → List String
  pushed r parent hidden =
      let path = path_below parent r in
      if is_view (is_hidden hidden r) path r then path ∷ [] else []

  -- The views that `visit` pushes.
  unfoldable mutual
    pub visit : Forest Route → String → Bool → List String
    visit nil parent hidden = []
    visit (cons n f) parent hidden = visit_node n parent hidden ++ visit f parent hidden

    pub visit_node : Node Route → String → Bool → List String
    visit_node (leaf r) parent hidden = pushed r parent hidden
    visit_node (branch r f) parent hidden =
        pushed r parent hidden ++ visit f (path_below parent r) (is_hidden hidden r)

  abbrev pub first_or : String → List String → String
  first_or def [] = def
  first_or def (s ∷ ss) = or_text s def

  abbrev choose : String → List String → String
  choose preferred views =
      if not (is_empty preferred) && includes preferred views
      then preferred
      else first_or "/profile/setting" views

  unfoldable pub authorized_home : Forest Route → String → String
  authorized_home routes preferred = choose preferred (visit routes "" false)

  abbrev pub IsLanding : String → Type 0
  IsLanding path = is_landing path ≡ true

  is_view-IsLanding :
      (hidden : Bool) (path : String) (r : Route) → is_view hidden path r ≡ true → IsLanding path
  is_view-IsLanding hidden path r h =
      let a = (&&-split (not hidden) _ h).1 in
      let b = (&&-split (not r.disabled) _ a).1 in
      let c = (&&-split (not (str_eq r.open_with "outside")) _ b).1 in
      let d = (&&-split (not (is_empty (upper r.component))) _ c).1 in
      let e =
        (&&-split (not (str_eq r.open_with "inside") || not (is_empty (external_url r.component))) _
          d).1 in
      let f = (&&-split (not (is_layout (upper r.component))) _ e).1 in
      (&&-split (not (is_part r.kind)) _ f).1

  view-IsLanding :
      (hidden : Bool) (path : String) (r : Route)
      → All IsLanding (if is_view hidden path r then path ∷ [] else [])
  view-IsLanding hidden path r = elim (Bool-cases (is_view hidden path r)) [
    | inl e ↦
        subst (λ b. All IsLanding (if b then path ∷ [] else [])) (sym e)
          (is_view-IsLanding hidden path r e, tt)
    | inr e ↦ subst (λ b. All IsLanding (if b then path ∷ [] else [])) (sym e) tt
  ]

  mutual
    unfolding visit

    pub visit-IsLanding :
        (f : Forest Route) (parent : String) (hidden : Bool) → All IsLanding (visit f parent hidden)
    visit-IsLanding nil parent hidden = tt
    visit-IsLanding (cons n f) parent hidden =
        All-append IsLanding (visit_node n parent hidden) (visit f parent hidden)
          (visit_node-IsLanding n parent hidden) (visit-IsLanding f parent hidden)

    visit_node-IsLanding :
        (n : Node Route) (parent : String) (hidden : Bool)
        → All IsLanding (visit_node n parent hidden)
    visit_node-IsLanding (leaf r) parent hidden =
        view-IsLanding (is_hidden hidden r) (path_below parent r) r
    visit_node-IsLanding (branch r f) parent hidden =
        All-append IsLanding (pushed r parent hidden)
          (visit f (path_below parent r) (is_hidden hidden r))
          (view-IsLanding (is_hidden hidden r) (path_below parent r) r)
          (visit-IsLanding f (path_below parent r) (is_hidden hidden r))

  pub IsLanding-nonempty : (path : String) → IsLanding path → is_empty path ≡ false
  IsLanding-nonempty path h = str_eq_ne path "" (λ e. cc (subst IsLanding e h))

  first_or-IsLanding :
      (def : String) (views : List String)
      → IsLanding def
      → All IsLanding views
      → IsLanding (first_or def views)
        × (((views ≡ []) × (first_or def views ≡ def))
            ⊎ (includes (first_or def views) views ≡ true))
  first_or-IsLanding def [] d h = (d, inl (refl, refl))
  first_or-IsLanding def (s ∷ ss) d (h, hs) =
      let e : or_text s def ≡ s = rw (IsLanding-nonempty s h) refl in
      (
        subst IsLanding (sym e) h,
        inr (subst (λ x. includes x (s ∷ ss) ≡ true) (sym e) (rw (str_eq_refl s) refl)),
      )

  includes-IsLanding :
      (s : String) (views : List String)
      → includes s views ≡ true
      → All IsLanding views
      → IsLanding s
  includes-IsLanding s [] e h = cc
  includes-IsLanding s (t ∷ ts) e (h, hs) = elim (Bool-cases (str_eq t s)) [
    | inl q ↦ subst IsLanding ((eq_iff t s).0 q) h
    | inr q ↦ includes-IsLanding s ts (rw q at e) hs
  ]

  pub choose-IsLanding :
      (preferred : String) (views : List String)
      → All IsLanding views
      → IsLanding (choose preferred views)
        × (((views ≡ []) × (choose preferred views ≡ "/profile/setting"))
            ⊎ (includes (choose preferred views) views ≡ true))
        × (includes preferred views ≡ true → choose preferred views ≡ preferred)
  choose-IsLanding preferred views all = elim (Bool-cases (includes preferred views)) [
    | inl e ↦
        let l = includes-IsLanding preferred views e all in
        let q : choose preferred views ≡ preferred = rw (IsLanding-nonempty preferred l, e) refl in
        (subst IsLanding (sym q) l, inr (subst (λ x. includes x views ≡ true) (sym q) e), λ h. q)
    | inr e ↦
        let q : choose preferred views ≡ first_or "/profile/setting" views = ground (arith, e) in
        let (l, k) = first_or-IsLanding "/profile/setting" views refl all in
        (
          subst IsLanding (sym q) l,
          subst (λ x. ((views ≡ []) × (x ≡ "/profile/setting")) ⊎ (includes x views ≡ true)) (sym q)
              k,
          λ h. cc,
        )
  ]
