-- ===== src/Table/Select/Laws.antt =====
-- useRowSelection.ts and useCustomRow.ts: which rows are selected, and what a click changes.
use mathlib.Core.Path.{ap₂}
use mathlib.Core.Option
use mathlib.Core.Bool.{not}
use kerthus.Base.{
  ◌≡◌, refl, sym, ap, ◌∙◌, subst, String, Bool, true, false, Bool-cases, inl, inr, Option, none,
  some, List, [], ◌∷◌, if◌then◌else◌, includes, find, filter, str_eq, eq_iff, str_eq_refl,
  AreDistinct, AreDistinct-concat, arith, includes-append, is_empty,
}
use kerthus.Tree.{Node, Forest, item}
use kerthus.Tree.Breadth.{find_node_all_lem}
use kerthus.Tree.Breadth.Levels.{level_order}
use kerthus.Table.{Fields, RowKey, is_text}
use kerthus.Table.Select.{
  Selection, checkbox, without, toggled, concat, key_at, has_key, is_asked, picked, push,
  set_selected_row_keys, among, click_found, click_row, get_key,
}

without-includes :
    (k j : String) (ks : List String)
    → AreDistinct ks
    → includes j (without k ks) ≡ (if str_eq j k then false else includes j ks)
without-includes k j [] d = ground arith
without-includes k j (i ∷ ks) (n, d) =
    ground (arith, without-includes k j ks d, eq_iff i k, eq_iff j k, eq_iff i j)

without-AreDistinct : (k : String) (ks : List String) → AreDistinct ks → AreDistinct (without k ks)
without-AreDistinct k [] d = tt
without-AreDistinct k (i ∷ ks) (n, d) = elim (Bool-cases (str_eq i k)) [
  | inl e ↦ rw e d
  | inr e ↦ rw e (without-includes k i ks d ∙ rw (e, n) refl, without-AreDistinct k ks d)
]

toggled-AreDistinct : (k : String) (ks : List String) → AreDistinct ks → AreDistinct (toggled k ks)
toggled-AreDistinct k ks d = elim (Bool-cases (includes k ks)) [
  | inl e ↦ rw e (without-AreDistinct k ks d)
  | inr e ↦ rw e (AreDistinct-concat ks k d e)
]

includes-toggled :
    (k j : String) (ks : List String)
    → AreDistinct ks
    → includes j (toggled k ks) ≡ (if str_eq j k then not (includes k ks) else includes j ks)
includes-toggled k j ks d =
    ground (arith, without-includes k j ks d, includes-append j ks (k ∷ []), eq_iff j k, eq_iff k j)

module _ {ℓ} {V : Type ℓ} (text : V → Option String) (row_key : Option (RowKey V))
    (auto : Bool) where
  asked_of_key :
      (o : Option String) (k : String) (keys : List String)
      → includes k keys ≡ true
      → is_text o k ≡ true
      → among o keys ≡ true
  asked_of_key none k keys h e = cc
  asked_of_key (some j) k keys h e = subst (λ x. includes x keys ≡ true) (sym ((eq_iff j k).0 e)) h

  -- A row with a key that is asked for is found among the rows that are asked for.
  find-asked :
      (k : String) (keys : List String) (ns : List (Node (Fields V)))
      → includes k keys ≡ true
      → find (has_key text row_key auto k) (filter (is_asked text row_key auto keys) ns)
        ≡ find (has_key text row_key auto k) ns
  find-asked k keys [] h = refl
  find-asked k keys (n ∷ ns) h = elim (Bool-cases (has_key text row_key auto k n)) [
    | inl e ↦ rw (asked_of_key (key_at text row_key auto (item n)) k keys h e, e) refl
    | inr e ↦ ground (arith, find-asked k keys ns h)
  ]

  picked-asked :
      (all : List (Node (Fields V))) (asked keys : List String)
      → ((k : String) → includes k keys ≡ true → includes k asked ≡ true)
      → picked text row_key auto (filter (is_asked text row_key auto asked) all) keys
        ≡ picked text row_key auto all keys
  picked-asked all asked [] sub = refl
  picked-asked all asked (k ∷ ks) sub =
      ap₂ push (find-asked k asked all (sub k (rw (str_eq_refl k) refl)))
        (picked-asked all asked ks (λ j h. sub j (later k j ks h)))
    where
      later : (k j : String) (ks : List String) → includes j ks ≡ true → includes j (k ∷ ks) ≡ true
      later k j ks h = ground arith

  -- `setSelectedRowKeys` ends, with the given keys as those that are selected. The rows that are
  -- selected are, in the order of the keys, the first row with each key that there is, level by
  -- level, among the rows of the table and the rows selected so far, which may be on other pages; a
  -- key that no row has selects none.
  pub set_selected_row_keys_lem :
      (keys : List String) (table : Forest (Fields V)) (s : Selection V)
      → (s' : Selection V) × (set_selected_row_keys text row_key auto keys table s ≡ some s')
        × (s'.keys ≡ keys)
        × (s'.rows ≡ picked text row_key auto (level_order (concat table s.rows)) keys)
  unfolding set_selected_row_keys
  set_selected_row_keys_lem keys table s =
      let all = filter (is_asked text row_key auto keys) (level_order (concat table s.rows)) in
      (
        record { keys = keys; rows = picked text row_key auto all keys },
        ap (Option.map (λ ns. record { keys = keys; rows = picked text row_key auto ns keys }))
            ((find_node_all_lem (is_asked text row_key auto keys) (concat table s.rows)).0),
        refl,
        picked-asked (level_order (concat table s.rows)) keys keys (λ k h. h),
      )

  -- A click on a row with a checkbox that is not disabled ends, and turns the selection of the key of
  -- the row around: each other key is selected behind it exactly if it was, and no key is selected
  -- twice if none was.
  pub click_row_toggles :
      (k : String) (row : Fields V) (table : Forest (Fields V)) (s : Selection V)
      → get_key text row_key auto row ≡ some k
      → is_empty k ≡ false
      → AreDistinct s.keys
      → (s' : Selection V) × (click_row text row_key auto true checkbox true row table s ≡ some s')
        × AreDistinct s'.keys
        × ((j : String)
            → includes j s'.keys
              ≡ (if str_eq j k then not (includes k s.keys) else includes j s.keys))
  unfolding click_row
  click_row_toggles k row table s e h d =
      let (s', f, g, _) = set_selected_row_keys_lem (toggled k s.keys) table s in
      (
        s',
        ap (λ o. click_found text row_key auto checkbox true o table s) e ∙ rw h f,
        subst AreDistinct (sym g) (toggled-AreDistinct k s.keys d),
        λ j. ap (includes j) g ∙ includes-toggled k j s.keys d,
      )
