-- ===== src/Routes/Build.antt =====
-- routeHelper.ts, `transformObjToRoute` and `asyncImportRoute`: the routes of the router that are made
-- of the records of the server. `upper` is `toUpperCase`.
pub mod Internal
pub mod Frames
use Prim.Native.String as Text
use kerthus.Base.{
  String, Bool, true, false, not, ◌&&◌, List, Option, none, some, is_empty, or_text, str_eq,
  if◌then◌else◌,
}
use mathlib.Core.Option.{map}
use kerthus.Tree.{Node, leaf, branch, Forest, nil, cons, item}
use kerthus.Routes.{
  RouteRecord, Component, absent, text, layout, frame_blank, parent_layout, exception, Given,
  Placed, is_set, is_given,
}
use kerthus.Routes.Url.{Location, external_url, is_external_destination}
use kerthus.Routes.Views.{dynamic_import}

-- The records that stay within the application.
unfoldable pub is_internal : {C : Type 0} → RouteRecord C → Bool
is_internal r = not (is_given "outside" r.open_with) && not (is_external_destination r.path)

abbrev pub titled : Given → Given
titled r = record r { meta = record r.meta { title = or_text r.meta.title r.name } }

unfoldable mutual
  pub kept_below : Node Given → Forest Given
  kept_below (leaf r) = nil
  kept_below (branch r f) = keep_internal f

  pub keep_internal : Forest Given → Forest Given
  keep_internal nil = nil
  keep_internal (cons n f) =
      let rest = keep_internal f in
      if is_internal (item n) then cons (branch (titled (item n)) (kept_below n)) rest else rest

abbrev pub embed : Option String → Component
embed none = absent
embed (some s) = text s

abbrev pub with_component : {C D : Type 0} → D → RouteRecord C → RouteRecord D
with_component c r = record {
  name = r.name;
  path = r.path;
  open_with = r.open_with;
  redirect = r.redirect;
  component = c;
  meta = r.meta;
}

-- The children below a route that is refused stay as they are.
unfoldable mutual
  pub embed_node : Node Given → Node Placed
  embed_node (leaf r) = leaf (with_component (embed r.component) r)
  embed_node (branch r f) = branch (with_component (embed r.component) r) (embed_all f)

  pub embed_all : Forest Given → Forest Placed
  embed_all nil = nil
  embed_all (cons n f) = cons (embed_node n) (embed_all f)

-- `LayoutMap.get(name)`
abbrev pub layout_of : String → Option Component
layout_of name =
    if str_eq name "LAYOUT"
    then some layout
    else if str_eq name "IFRAME"
    then some frame_blank
    else none

-- A route behind the test of its frame: it is refused, or it goes on.
pub data Framed : Type 0 where
  refused : Placed → Framed
  framed : Given → Framed

abbrev pub with_frame : {C : Type 0} → Option String → RouteRecord C → RouteRecord C
with_frame url r = record r { meta = record r.meta { frame_src = url } }

abbrev pub checked_url : String → Option String
checked_url url = if is_empty url then none else some url

abbrev pub or_frame : Given → Option String
or_frame r =
    if not (is_set r.component) && is_set r.meta.frame_src then some "IFRAME" else r.component

-- `!route.redirect && route.children?.length`
abbrev pub first_path : Option String → Forest Given → Option String
first_path redirect nil = redirect
first_path redirect (cons n f) = if is_set redirect then redirect else some (item n).path

-- The layout around a single route, which has the route as its child.
abbrev pub parent_of : Given → Placed
parent_of r = record {
  name = Text.◌++◌ r.name "父级";
  path = "";
  open_with = r.open_with;
  redirect = r.redirect;
  component = layout;
  meta = record r.meta { single = true; affix = false; frame_src = none };
}

module _ (parse : String → Option Location) where
  abbrev pub open_inside : String → Given → Framed
  open_inside url r =
      if is_empty url
      then refused (with_component exception (with_frame none r))
      else framed (with_component (some "") (with_frame (some url) r))

  unfoldable pub check_frame : Given → Framed
  check_frame r =
      if is_given "inside" r.open_with
      then open_inside (external_url parse r.component) r
      else if is_set r.meta.frame_src
      then framed (with_frame (checked_url (external_url parse r.meta.frame_src)) r)
      else framed r

module _ (upper : String → String) (views : List String) where
  abbrev pub or_view : String → Option Component → Component
  or_view component none = dynamic_import views component
  or_view component (some c) = c

  -- The component behind the test of the frame.
  unfoldable pub component_of : String → Option String → Component
  component_of name none = if is_empty name then absent else parent_layout
  component_of name (some component) =
      if not (is_empty component)
      then or_view component (layout_of (upper component))
      else if is_empty name
      then text component
      else parent_layout

  abbrev pub placed : Given → Placed
  placed r = with_component (component_of r.name (or_frame r)) r

  abbrev pub import_leaf : Framed → Node Placed
  import_leaf (refused r) = leaf r
  import_leaf (framed r) = leaf (placed r)

  abbrev pub import_branch : Framed → Forest Placed → Forest Placed → Node Placed
  import_branch (refused r) unchanged imported = branch r unchanged
  import_branch (framed r) unchanged imported = branch (placed r) imported

module _ (parse : String → Option Location) (upper : String → String) (views : List String) where
  unfoldable mutual
    pub import_node : Node Given → Node Placed
    import_node (leaf r) = import_leaf upper views (check_frame parse r)
    import_node (branch r f) =
        import_branch upper views (check_frame parse r) (embed_all f) (async_import_route f)

    pub async_import_route : Forest Given → Forest Placed
    async_import_route nil = nil
    async_import_route (cons n f) = cons (import_node n) (async_import_route f)

  abbrev pub as_layout : Given → Forest Given → Node Placed
  as_layout r f =
      branch (with_component layout (record r { redirect = first_path r.redirect f }))
        (async_import_route f)

  abbrev pub as_single : Given → Forest Given → Node Placed
  as_single r f = branch (parent_of r) (async_import_route (cons (branch r f) nil))

  unfoldable pub top_route : Given → Forest Given → Node Placed
  top_route r f =
      if not (is_set r.component)
      then branch (with_component (embed r.component) r) (async_import_route f)
      else if is_given "LAYOUT" (map upper r.component)
      then as_layout r f
      else as_single r f

  abbrev pub top_node : Node Given → Node Placed
  top_node (leaf r) = top_route r nil
  top_node (branch r f) = top_route r f

  unfoldable pub top_routes : Forest Given → Forest Placed
  top_routes nil = nil
  top_routes (cons n f) = cons (top_node n) (top_routes f)

  unfoldable pub transform_obj_to_route : Forest Given → Forest Placed
  transform_obj_to_route input = top_routes (keep_internal input)
