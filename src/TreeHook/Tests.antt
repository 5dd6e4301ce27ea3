-- ===== src/TreeHook/Tests.antt =====
-- useTree.ts on a small tree.
use kerthus.Base.{true, false, ◌≡◌, refl, ◌||◌, [], ◌∷◌, includes, is_empty, String, AreDistinct}
use kerthus.Tree.{leaf, branch, Forest, nil, cons}
use kerthus.TreeHook.{get_all_keys, get_children_keys, delete_node_by_key}
use kerthus.TreeHook.Insert.{unshift, insert_in, insert_node_by_key}
use kerthus.TreeHook.Insert.Items.{items_of, AddsAt}
use kerthus.TreeHook.Insert.Added.{reached, insert_node_by_key_lem}
use kerthus.TreeHook.Delete.{IsCut, delete_node_by_key_lem}

abbrev name : String → String
name s = s

abbrev under_a : Forest String
under_a = cons (leaf "a1") (cons (leaf "a2") nil)

abbrev b_tree : Forest String
b_tree = cons (branch "b" (cons (leaf "b1") nil)) nil

abbrev ab_tree : Forest String
ab_tree = cons (branch "a" under_a) b_tree

ab_tree-AreDistinct : AreDistinct (get_all_keys name ab_tree)
unfolding get_all_keys
ab_tree-AreDistinct = (refl, (refl, (refl, (refl, (refl, tt)))))

delete_node_by_key_example :
    IsCut
      (get_all_keys name ab_tree)
      (get_children_keys name "a" ab_tree)
      (get_all_keys name (delete_node_by_key name "a" ab_tree))
delete_node_by_key_example = delete_node_by_key_lem name "a" ab_tree refl ab_tree-AreDistinct

insert_node_by_key_example :
    AddsAt
      (items_of (leaf "b2"))
      (is_empty "b" || includes "b" (reached name true ab_tree))
      ab_tree
      (insert_node_by_key name true "b" (leaf "b2") unshift ab_tree)
insert_node_by_key_example = insert_node_by_key_lem name true "b" (leaf "b2") unshift ab_tree

inserted :
    get_all_keys name (insert_node_by_key name true "b" (leaf "b2") unshift ab_tree)
    ≡ "a" ∷ "a1" ∷ "a2" ∷ "b" ∷ "b2" ∷ "b1" ∷ []
unfolding get_all_keys insert_node_by_key insert_in
inserted = refl

-- Where the field of the children has another name, a parent below the top is not found.
nested_parent : insert_node_by_key name false "a1" (leaf "x") unshift ab_tree ≡ ab_tree
unfolding insert_node_by_key insert_in
nested_parent = refl
