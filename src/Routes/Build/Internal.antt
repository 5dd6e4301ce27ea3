-- ===== src/Routes/Build/Internal.antt =====
-- routeHelper.ts, `transformObjToRoute`: no route leaves the application.
use kerthus.Base.{
  ◌≡◌, refl, String, str_eq_refl, Bool, true, false, not, ◌||◌, Bool-cases, inl, inr, List, [], ◌∷◌,
  ◌++◌, includes, All, All-split, Option, none, some, is_empty, if◌then◌else◌, arith, &&-split,
}
use kerthus.Tree.{Node, leaf, branch, Forest, nil, cons, item}
use kerthus.Routes.{RouteRecord, Given, Placed, is_set, is_given}
use kerthus.Routes.Everywhere.{HoldsIn, Holds, Holds-item}
use mathlib.Core.Option.{map}
use kerthus.Routes.Url.{
  external_url, trim_start, trim_end, is_destination, Location, is_external_destination,
}
use kerthus.Routes.Build.{
  is_internal, keep_internal, kept_below, embed_all, Framed, refused, framed, check_frame,
  embed_node, import_node, async_import_route, import_branch, top_route, top_routes,
  transform_obj_to_route, import_leaf, first_path, titled, parent_of,
}

or_true : (a b : Bool) → a ≡ true → (a || b) ≡ true
or_true a b e = rw e refl

All-includes_in :
    (xs ys : List String)
    → ((s : String) → includes s xs ≡ true → includes s ys ≡ true)
    → All (λ s. includes s ys ≡ true) xs
All-includes_in [] ys h = tt
All-includes_in (x ∷ xs) ys h =
    (h x (rw (str_eq_refl x) refl), All-includes_in xs ys (λ s e. h s (ground (arith, e))))

All-includes : (xs : List String) → All (λ s. includes s xs ≡ true) xs
All-includes xs = All-includes_in xs xs (λ s e. e)

module _ (also : String → Bool) where
  -- A redirect that is missing, or that is no destination outside the application, or one of those
  -- that `also` is true of.
  abbrev pub redirect_stays : Option String → Bool
  redirect_stays none = true
  redirect_stays (some s) = not (is_external_destination s) || also s

  abbrev pub RedirectStays : {C : Type 0} → RouteRecord C → Type 0
  RedirectStays r = redirect_stays r.redirect ≡ true

  abbrev pub Stays : {C : Type 0} → RouteRecord C → Type 0
  Stays r = (is_internal r ≡ true) × RedirectStays r

  kept :
      (n : Node Given) (below rest : Forest Given)
      → RedirectStays (item n)
      → Holds Stays below
      → Holds Stays rest
      → Holds Stays
          (if is_internal (item n) then cons (branch (titled (item n)) below) rest else rest)
  unfolding is_internal
  kept n below rest h hb hr = elim (Bool-cases (is_internal (item n))) [
    | inl t ↦ rw t (((t, h), hb), hr)
    | inr t ↦ rw t hr
  ]

  mutual
    unfolding keep_internal

    kept_below-Holds : (n : Node Given) → HoldsIn RedirectStays n → Holds Stays (kept_below n)
    kept_below-Holds (leaf r) h = tt
    kept_below-Holds (branch r f) h = keep_internal-Holds f h.1

    keep_internal-Holds : (f : Forest Given) → Holds RedirectStays f → Holds Stays (keep_internal f)
    keep_internal-Holds nil h = h
    keep_internal-Holds (cons n f) h =
        kept n (kept_below n) (keep_internal f) (Holds-item RedirectStays n h.0)
          (kept_below-Holds n h.0) (keep_internal-Holds f h.1)

  mutual
    unfolding embed_all is_internal

    embed_node-Holds : (n : Node Given) → HoldsIn Stays n → HoldsIn Stays (embed_node n)
    embed_node-Holds (leaf r) h = h
    embed_node-Holds (branch r f) h = (h.0, embed_all-Holds f h.1)

    embed_all-Holds : (f : Forest Given) → Holds Stays f → Holds Stays (embed_all f)
    embed_all-Holds nil h = h
    embed_all-Holds (cons n f) h = (embed_node-Holds n h.0, embed_all-Holds f h.1)

  abbrev FramedStays : Framed → Type 0
  FramedStays (refused r) = Stays r
  FramedStays (framed r) = Stays r

  either_stays :
      (b : Bool) (x y : Framed) → FramedStays x → FramedStays y → FramedStays (if b then x else y)
  either_stays true x y h k = h
  either_stays false x y h k = k

  either_node :
      (b : Bool) (n m : Node Placed)
      → HoldsIn Stays n
      → HoldsIn Stays m
      → HoldsIn Stays (if b then n else m)
  either_node true n m h k = h
  either_node false n m h k = k

  first_path-Stays :
      (redirect : Option String) (f : Forest Given)
      → redirect_stays redirect ≡ true
      → Holds Stays f
      → redirect_stays (first_path redirect f) ≡ true
  unfolding is_internal
  first_path-Stays redirect nil h k = h
  first_path-Stays redirect (cons n f) h k = elim (Bool-cases (is_set redirect)) [
    | inl t ↦ rw t h
    | inr t ↦ rw t (
        or_true (not (is_external_destination (item n).path)) (also (item n).path)
          (&&-split (not (is_given "outside" (item n).open_with))
            (not (is_external_destination (item n).path)) (Holds-item Stays n k.0).0).1)
  ]

  parent_of-internal : (r : Given) → is_internal r ≡ true → is_internal (parent_of r) ≡ true
  unfolding is_internal is_external_destination trim_start trim_end is_destination
  parent_of-internal r h = ground arith

  module _ (parse : String → Option Location) (upper : String → String) (views : List String) where
    check_frame-Stays : (r : Given) → Stays r → FramedStays (check_frame parse r)
    unfolding check_frame is_internal
    check_frame-Stays r h = elim (Bool-cases (is_given "inside" r.open_with)) [
      | inl t ↦
          rw t (either_stays (is_empty (external_url parse r.component)) (refused _) (framed _) h h)
      | inr t ↦ rw t (either_stays (is_set r.meta.frame_src) (framed _) (framed r) h h)
    ]

    leaf-Stays : (x : Framed) → FramedStays x → HoldsIn Stays (import_leaf upper views x)
    unfolding is_internal
    leaf-Stays (refused r) h = h
    leaf-Stays (framed r) h = h

    branch-Stays :
        (x : Framed) (f g : Forest Placed)
        → FramedStays x
        → Holds Stays f
        → Holds Stays g
        → HoldsIn Stays (import_branch upper views x f g)
    unfolding is_internal
    branch-Stays (refused r) f g h hf hg = (h, hf)
    branch-Stays (framed r) f g h hf hg = (h, hg)

    mutual
      unfolding import_node

      import_node-Stays :
          (n : Node Given) → HoldsIn Stays n → HoldsIn Stays (import_node parse upper views n)
      import_node-Stays (leaf r) h = leaf-Stays _ (check_frame-Stays r h)
      import_node-Stays (branch r f) h =
          branch-Stays _ _ _ (check_frame-Stays r h.0) (embed_all-Holds f h.1) (import-Stays f h.1)

      import-Stays :
          (f : Forest Given) → Holds Stays f → Holds Stays (async_import_route parse upper views f)
      import-Stays nil h = h
      import-Stays (cons n f) h = (import_node-Stays n h.0, import-Stays f h.1)

    top_route-Stays :
        (r : Given) (f : Forest Given)
        → Stays r
        → Holds Stays f
        → HoldsIn Stays (top_route parse upper views r f)
    unfolding top_route is_internal
    top_route-Stays r f h k = elim (Bool-cases (is_set r.component)) [
      | inr t ↦ rw t (h, import-Stays f k)
      | inl t ↦ rw t (
          either_node (is_given "LAYOUT" (map upper r.component)) (branch _ _) (branch _ _)
            ((h.0, first_path-Stays r.redirect f h.1 k), import-Stays f k)
            ((parent_of-internal r h.0, h.1), import-Stays _ ((h, k), tt)))
    ]

    top-Stays : (f : Forest Given) → Holds Stays f → Holds Stays (top_routes parse upper views f)
    unfolding top_routes
    top-Stays nil h = h
    top-Stays (cons (leaf r) f) h = (top_route-Stays r nil h.0 tt, top-Stays f h.1)
    top-Stays (cons (branch r g) f) h = (top_route-Stays r g h.0.0 h.0.1, top-Stays f h.1)

    all_routes-Stays :
        (input : Forest Given)
        → Holds RedirectStays input
        → Holds Stays (transform_obj_to_route parse upper views input)
    unfolding transform_obj_to_route
    all_routes-Stays input h = top-Stays (keep_internal input) (keep_internal-Holds input h)

-- The redirects of all records.
abbrev redirect_of : Option String → List String
redirect_of none = []
redirect_of (some s) = s ∷ []

abbrev mutual
  pub redirects : Forest Given → List String
  redirects nil = []
  redirects (cons n f) = redirects_in n ++ redirects f

  redirects_in : Node Given → List String
  redirects_in (leaf r) = redirect_of r.redirect
  redirects_in (branch r f) = redirect_of r.redirect ++ redirects f

module _ (also : String → Bool) where
  abbrev IsAlso : String → Type 0
  IsAlso s = also s ≡ true

  redirect_of-stays :
      (o : Option String) → All IsAlso (redirect_of o) → redirect_stays also o ≡ true
  redirect_of-stays none h = refl
  redirect_of-stays (some s) h = ground (arith, h.0)

  mutual
    redirects-Holds : (f : Forest Given) → All IsAlso (redirects f) → Holds (RedirectStays also) f
    redirects-Holds nil h = tt
    redirects-Holds (cons n f) h =
        let (a, b) = All-split IsAlso (redirects_in n) (redirects f) h in
        (redirects_in-Holds n a, redirects-Holds f b)

    redirects_in-Holds :
        (n : Node Given) → All IsAlso (redirects_in n) → HoldsIn (RedirectStays also) n
    redirects_in-Holds (leaf r) h = redirect_of-stays r.redirect h
    redirects_in-Holds (branch r f) h =
        let (a, b) = All-split IsAlso (redirect_of r.redirect) (redirects f) h in
        (redirect_of-stays r.redirect a, redirects-Holds f b)

module _ (parse : String → Option Location) (upper : String → String) (views : List String) where
  -- No route of `transformObjToRoute`, at any depth, has the path of a destination outside the
  -- application or is to be opened outside. A redirect of a route is no destination outside the
  -- application, unless it is the redirect of one of the records that the server gave; the code
  -- does not look at these.
  pub transform_obj_to_route-Stays :
      (input : Forest Given)
      → Holds
          (Stays (λ s. includes s (redirects input)))
          (transform_obj_to_route parse upper views input)
  transform_obj_to_route-Stays input =
      let also : String → Bool = λ s. includes s (redirects input) in
      all_routes-Stays also parse upper views input
        (redirects-Holds also input (All-includes (redirects input)))
