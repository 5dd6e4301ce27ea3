-- ===== src/Routes/Build/Frames.antt =====
-- routeHelper.ts, `transformObjToRoute`: what the frames of the routes show.
use mathlib.Core.Option.{map}
use kerthus.Base.{
  ◌≡◌, refl, sym, subst, eq_iff, arith, String, str_eq, str_eq_refl, Bool, true, false, Bool-cases,
  inl, inr, List, Option, none, some, is_empty, if◌then◌else◌,
}
use kerthus.Tree.{Node, leaf, branch, Forest, nil, cons}
use kerthus.Routes.{Component, frame_blank, Given, Placed, is_set, is_given}
use kerthus.Routes.Everywhere.{HoldsIn, Holds}
use kerthus.Routes.Url.{Location, external_url, trim_start, trim_end, after}
use kerthus.Routes.Url.Laws.{external_url_lem}
use kerthus.Routes.Build.{
  keep_internal, embed, embed_all, embed_node, Framed, refused, framed, check_frame, checked_url,
  import_node, async_import_route, import_branch, import_leaf, top_route, top_routes,
  transform_obj_to_route,
}

abbrev is_frame : Component → Bool
is_frame frame_blank = true
is_frame c = false

module _ (parse : String → Option Location) where
  -- A frame that is missing, or an address that passes `externalUrl` as it is.
  abbrev pub passes_url : Option String → Bool
  passes_url none = true
  passes_url (some u) = str_eq (external_url parse (some u)) u

  -- A route that shows a frame has a frame of that kind.
  abbrev pub Shows : Placed → Type 0
  Shows r = (if is_frame r.component then passes_url r.meta.frame_src else true) ≡ true

  any_component : (b p : Bool) → p ≡ true → (if b then p else true) ≡ true
  any_component true p h = h
  any_component false p h = refl

  embed-Shows : (c : Option String) (p : Bool) → (if is_frame (embed c) then p else true) ≡ true
  embed-Shows none p = refl
  embed-Shows (some s) p = refl

  mutual
    unfolding embed_all

    embed_node-Shows : (n : Node Given) → HoldsIn Shows (embed_node n)
    embed_node-Shows (leaf r) = embed-Shows r.component _
    embed_node-Shows (branch r f) = (embed-Shows r.component _, embed_all-Shows f)

    embed_all-Shows : (f : Forest Given) → Holds Shows (embed_all f)
    embed_all-Shows nil = tt
    embed_all-Shows (cons n f) = (embed_node-Shows n, embed_all-Shows f)

  abbrev FramedShows : Framed → Type 0
  FramedShows (refused r) = Shows r
  FramedShows (framed r) = passes_url r.meta.frame_src ≡ true

  url-passes : (v : Option String) → passes_url (some (external_url parse v)) ≡ true
  url-passes v = rw (external_url_lem parse v).0 (str_eq_refl (external_url parse v))

  checked-passes : (v : Option String) → passes_url (checked_url (external_url parse v)) ≡ true
  checked-passes v = elim (Bool-cases (is_empty (external_url parse v))) [
    | inl t ↦ rw t
    | inr t ↦ rw t (url-passes v)
  ]

  empty-passes : passes_url (some "") ≡ true
  unfolding external_url trim_start trim_end after
  empty-passes = refl

  unset-passes : (o : Option String) → is_set o ≡ false → passes_url o ≡ true
  unset-passes none h = refl
  unset-passes (some s) h =
      subst (λ x. passes_url (some x) ≡ true) (sym ((eq_iff s "").0 (ground arith))) empty-passes

  check_frame-Shows : (r : Given) → FramedShows (check_frame parse r)
  unfolding check_frame
  check_frame-Shows r = elim (Bool-cases (is_given "inside" r.open_with)) [
    | inl t ↦ rw t (elim (Bool-cases (is_empty (external_url parse r.component))) [
      | inl e ↦ rw e
      | inr e ↦ rw e (url-passes r.component)
    ])
    | inr t ↦ rw t (elim (Bool-cases (is_set r.meta.frame_src)) [
      | inl e ↦ rw e (checked-passes r.meta.frame_src)
      | inr e ↦ rw e (unset-passes r.meta.frame_src e)
    ])
  ]

module _ (parse : String → Option Location) (upper : String → String) (views : List String) where
  leaf-Shows :
      (x : Framed) → FramedShows parse x → HoldsIn (Shows parse) (import_leaf upper views x)
  leaf-Shows (refused r) h = h
  leaf-Shows (framed r) h = any_component parse _ _ h

  branch-Shows :
      (x : Framed) (f g : Forest Placed)
      → FramedShows parse x
      → Holds (Shows parse) f
      → Holds (Shows parse) g
      → HoldsIn (Shows parse) (import_branch upper views x f g)
  branch-Shows (refused r) f g h hf hg = (h, hf)
  branch-Shows (framed r) f g h hf hg = (any_component parse _ _ h, hg)

  mutual
    unfolding import_node

    import_node-Shows : (n : Node Given) → HoldsIn (Shows parse) (import_node parse upper views n)
    import_node-Shows (leaf r) = leaf-Shows _ (check_frame-Shows parse r)
    import_node-Shows (branch r f) =
        branch-Shows _ _ _ (check_frame-Shows parse r) (embed_all-Shows parse f) (import-Shows f)

    import-Shows : (f : Forest Given) → Holds (Shows parse) (async_import_route parse upper views f)
    import-Shows nil = tt
    import-Shows (cons n f) = (import_node-Shows n, import-Shows f)

  top_route-Shows :
      (r : Given) (f : Forest Given) → HoldsIn (Shows parse) (top_route parse upper views r f)
  unfolding top_route
  top_route-Shows r f = elim (Bool-cases (is_set r.component)) [
    | inr t ↦ rw t (embed-Shows parse r.component _, import-Shows f)
    | inl t ↦ rw t (elim (Bool-cases (is_given "LAYOUT" (map upper r.component))) [
      | inl e ↦ rw e (refl, import-Shows f)
      | inr e ↦ rw e (refl, import-Shows (cons (branch r f) nil))
    ])
  ]

  top-Shows : (f : Forest Given) → Holds (Shows parse) (top_routes parse upper views f)
  unfolding top_routes
  top-Shows nil = tt
  top-Shows (cons (leaf r) f) = (top_route-Shows r nil, top-Shows f)
  top-Shows (cons (branch r g) f) = (top_route-Shows r g, top-Shows f)

  -- A route of `transformObjToRoute` that shows a frame, at any depth, has either no address for it or
  -- one that `externalUrl` answers as it is, whatever the server sent.
  pub transform_obj_to_route-Shows :
      (input : Forest Given) → Holds (Shows parse) (transform_obj_to_route parse upper views input)
  unfolding transform_obj_to_route
  transform_obj_to_route-Shows input = top-Shows (keep_internal input)
