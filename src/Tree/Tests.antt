-- ===== src/Tree/Tests.antt =====
-- The functions of treeHelper.ts on small trees.
use mathlib.Core.List.{Memᴰ}
use kerthus.Base.{
  ℕ, ◌+◌, ◌≡◌, refl, inl, inr, ◌==◌, ltb, Bool, List, [], ◌∷◌, ◌++◌, none, some, map, filter, arith,
  or_else,
}
use kerthus.Tree.{Node, leaf, branch, Forest, nil, cons, item, kids, to_list, preorders}
use kerthus.Tree.ForEach.{for_each, call_until, for_each_lem}
use kerthus.Tree.Path.{mem, find_path, refs_all, AreFresh, chain_all, find_path_lem}
use kerthus.Tree.Path.Sound.{Leads, Ends, find_path_sound}
use kerthus.Tree.Build.{Row, Store, list_to_tree}
use kerthus.Tree.Build.Laws.{is_root, is_child_of, list_to_tree_lem}
use kerthus.Tree.Ancestor.{Entry, IsRanked}

-- 1 with the children 2 and 3, 3 with the child 4; and 5.
abbrev menu : Forest ℕ
menu = cons (branch 1 (cons (leaf 2) (cons (branch 3 (cons (leaf 4) nil)) nil))) (cons (leaf 5) nil)

abbrev is_four : Node ℕ → Bool
is_four n = item n == 4

abbrev is_big : Node ℕ → Bool
is_big n = ltb 2 (item n)

abbrev same_ref : ℕ → ℕ
same_ref n = n

menu-AreFresh : AreFresh (refs_all same_ref menu) []
unfolding refs_all mem
menu-AreFresh = (refl, (refl, (refl, (refl, (refl, tt)))))

abbrev sum_until : Node ℕ → ℕ → ℕ × Bool
sum_until n s = (s + item n, item n == 3)

for_each_example : for_each sum_until menu 0 ≡ some (call_until sum_until (preorders menu) 0).0
for_each_example = for_each_lem sum_until menu 0

find_path_example : find_path same_ref is_four menu ≡ some (chain_all same_ref is_four menu [])
find_path_example = find_path_lem same_ref is_four menu menu-AreFresh

abbrev four_path : List (Node ℕ)
four_path =
    branch 1 (cons (leaf 2) (cons (branch 3 (cons (leaf 4) nil)) nil))
    ∷ branch 3 (cons (leaf 4) nil)
    ∷ leaf 4
    ∷ []

four_found : find_path same_ref is_four menu ≡ some (some four_path)
unfolding chain_all
four_found = find_path_lem same_ref is_four menu menu-AreFresh

find_path_sound_example :
    (n : Node ℕ) × (q : List (Node ℕ)) × (four_path ≡ n ∷ q)
    × Memᴰ n (to_list menu)
    × Leads (kids n) q
    × Ends same_ref is_four n q
find_path_sound_example = find_path_sound same_ref is_four menu four_path menu-AreFresh four_found

abbrev rows : List (Row ℕ)
rows =
    record { ref = 0; id = 1; pid = 0 }
    ∷ record { ref = 1; id = 2; pid = 1 }
    ∷ record { ref = 2; id = 3; pid = 1 }
    ∷ []

abbrev no_children : Store
no_children r = none

abbrev equal : ℕ → ℕ → Bool
equal a b = a == b

list_to_tree_example :
    (store' : Store) × (roots : List ℕ) × (list_to_tree equal rows no_children
      ≡ some (store', roots))
    × (roots ≡ map (λ n. n.ref) (filter (is_root equal rows) rows))
    × ((r : ℕ)
        → or_else (store' r) []
          ≡ or_else (no_children r) [] ++ map (λ n. n.ref) (filter (is_child_of equal rows r) rows))
list_to_tree_example = list_to_tree_lem equal rows no_children

abbrev third : Entry
third = record { id = 3; pid = 2 }

abbrev entries : List Entry
entries = record { id = 1; pid = 0 } ∷ record { id = 2; pid = 1 } ∷ record { id = 3; pid = 2 } ∷ []

entries-IsRanked : IsRanked (λ n. n) entries
entries-IsRanked = (
  inl refl,
  (
    inr (record { id = 1; pid = 0 }, refl, omega arith),
    (inr (record { id = 2; pid = 1 }, refl, omega arith), tt),
  ),
)
