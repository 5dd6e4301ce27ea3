-- ===== src/Routes/Menu/Titles.antt =====
-- menuHelper.ts, `transformRouteToMenu`: which menus there are.
use mathlib.Core.Path.{ap₂}
use kerthus.Base.{◌≡◌, refl, sym, ap, ◌∙◌, String, Bool, List, [], ◌∷◌, ◌++◌, map, map-append, some}
use kerthus.Tree.{Node, leaf, branch, Forest, nil, cons, item, preorder, preorders}
use kerthus.Tree.Convert.{tree_map_lem}
use kerthus.Routes.{Placed}
use kerthus.Routes.Menu.{
  Menu, join_node, join_parent_path, menu_of, no_menu, route_list, transform_route_to_menu,
}

abbrev names : List (Node Menu) → List String
names = map (λ (n : Node Menu). (item n).name)

names-both :
    (xs ys xs' ys' : List (Node Menu))
    → names xs ≡ names xs'
    → names ys ≡ names ys'
    → names (xs ++ ys) ≡ names (xs' ++ ys')
names-both xs ys xs' ys' h k = map-append _ xs ys ∙ ap₂ (◌++◌) h k ∙ sym (map-append _ xs' ys')

mutual
  unfolding join_node preorder

  join_node-names :
      (parent : String) (n : Node Menu) → names (preorder (join_node parent n)) ≡ names (preorder n)
  join_node-names parent (leaf m) = refl
  join_node-names parent (branch m f) = ap (m.name ∷◌) (join-names _ f)

  join-names :
      (parent : String) (f : Forest Menu)
      → names (preorders (join_parent_path parent f)) ≡ names (preorders f)
  join-names parent nil = refl
  join-names parent (cons n f) =
      names-both (preorder (join_node parent n)) (preorders (join_parent_path parent f))
        (preorder n) (preorders f) (join_node-names parent n) (join-names parent f)

names-item : (ns : List (Node Menu)) → names ns ≡ map (λ (m : Menu). m.name) (map item ns)
names-item [] = refl
names-item (n ∷ ns) = ap ((item n).name ∷◌) (names-item ns)

titles :
    (ns : List (Node Placed))
    → map (λ (m : Menu). m.name) (map (λ n. menu_of (item n)) ns)
      ≡ map (λ (n : Node Placed). (item n).meta.title) ns
titles [] = refl
titles (n ∷ ns) = ap ((item n).meta.title ∷◌) (titles ns)

-- `transformRouteToMenu` makes one menu of every route of the list that it takes from the modules, at
-- any depth, with the title of the route as its name, in the order of the routes.
pub transform_route_to_menu_lem :
    (mapping : Bool) (routes : Forest Placed)
    → map (λ (n : Node Menu). (item n).name) (preorders (transform_route_to_menu mapping routes))
      ≡ map (λ (n : Node Placed). (item n).meta.title) (preorders (route_list mapping routes))
unfolding transform_route_to_menu
transform_route_to_menu_lem mapping routes =
    join-names "" _
    ∙ names-item _
    ∙ ap (map (λ (m : Menu). m.name)) (
        tree_map_lem no_menu (λ n. some (leaf (menu_of (item n)))) (λ n. refl)
          (route_list mapping routes))
    ∙ titles _
