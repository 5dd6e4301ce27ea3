-- ===== src/Tabs/Open/Limit.antt =====
-- multipleTab.ts, `addTab`: the limit `dynamicLevel` on the tabs of one dynamic route.
use kerthus.Base.{
  ℕ, zero, suc, ◌≤◌, ◌<◌, ◌≡◌, refl, ap, String, eq_iff, Bool, true, false, inl, inr, Bool-cases,
  Option-cases, List, [], ◌∷◌, none, some, set, erase_idx, get_elem?, find_index, find_index_sound,
  filter, filter-append, length-filter-le, length, length-append, is_empty, arith,
}
use kerthus.Tabs.{Tab, TabState}
use kerthus.Tabs.Open.{
  is_excluded, same_key, refreshed, refresh_at, close_at, counts, has_real_path, real_path_of,
  make_room, visit, add_tab,
}
use kerthus.Tabs.Open.Keys.{tab_list-add_tab, add_tab-is_excluded}

module _ {P : Type 0} where
  -- The number of the tabs of a dynamic route.
  abbrev pub open_count : String → List (Tab P) → ℕ
  open_count real_path ts = length (filter (has_real_path real_path) ts)

  open_count-set :
      (q : String) (ts : List (Tab P)) (i : ℕ) (r t : Tab P)
      → get_elem? ts i ≡ some t
      → open_count q (set ts i (refreshed r t)) ≡ open_count q ts
  open_count-set q [] i r t e = refl
  open_count-set q (x ∷ ts) zero r t e =
      let same : t ≡ x = cc in
      let k : has_real_path q t ≡ has_real_path q x = ap (has_real_path q) same in ground arith
  open_count-set q (x ∷ ts) (suc i) r t e = ground (arith, open_count-set q ts i r t)

  open_count-erase_idx :
      (q : String) (ts : List (Tab P)) (i : ℕ)
      → find_index (has_real_path q) ts ≡ some i
      → suc (open_count q (erase_idx ts i)) ≡ open_count q ts
  open_count-erase_idx q [] i e = cc
  open_count-erase_idx q (t ∷ ts) zero e = elim (Bool-cases (has_real_path q t)) [
    | inl h ↦ rw h refl
    | inr h ↦ elim (Option-cases (find_index (has_real_path q) ts)) [
      | inl n ↦ ground arith
      | inr (j, n) ↦ ground arith
    ]
  ]
  open_count-erase_idx q (t ∷ ts) (suc i) e = elim (Bool-cases (has_real_path q t)) [
    | inl h ↦ ground arith
    | inr h ↦ elim (Option-cases (find_index (has_real_path q) ts)) [
      | inl n ↦ ground arith
      | inr (j, n) ↦ rw h (open_count-erase_idx q ts i (ground arith))
    ]
  ]

  open_count-of_none :
      (q : String) (ts : List (Tab P))
      → find_index (has_real_path q) ts ≡ none
      → open_count q ts ≡ 0
  open_count-of_none q [] e = refl
  open_count-of_none q (t ∷ ts) e = elim (Bool-cases (has_real_path q t)) [
    | inl h ↦ ground arith
    | inr h ↦ elim (Option-cases (find_index (has_real_path q) ts)) [
      | inl n ↦ rw h (open_count-of_none q ts n)
      | inr (j, n) ↦ ground arith
    ]
  ]

  counts_of_has_real_path :
      (q : String) (t : Tab P) → is_empty q ≡ false → has_real_path q t ≡ true → counts q t ≡ true
  counts_of_has_real_path q t e h = elim (Option-cases t.info.real_path) [
    | inl n ↦ ground arith
    | inr (p, n) ↦ ground (arith, eq_iff p q)
  ]

  -- The test of the source counts at least the tabs of the route.
  open_count-le-counts :
      (q : String) (ts : List (Tab P))
      → is_empty q ≡ false
      → open_count q ts ≤ length (filter (counts q) ts)
  open_count-le-counts q [] e = omega arith
  open_count-le-counts q (t ∷ ts) e = elim (Bool-cases (has_real_path q t)) [
    | inl h ↦ rw (h, counts_of_has_real_path q t e h) (omega (arith, open_count-le-counts q ts e))
    | inr h ↦ rw h (elim (Bool-cases (counts q t)) [
      | inl k ↦ rw k (omega (arith, open_count-le-counts q ts e))
      | inr k ↦ rw k (open_count-le-counts q ts e)
    ])
  ]

  close_first :
      (q : String) (ts : List (Tab P)) (n : ℕ)
      → open_count q ts ≤ n
      → 0 < n
      → open_count q (close_at (find_index (has_real_path q) ts) ts) < n
  close_first q ts n h pos = elim (Option-cases (find_index (has_real_path q) ts)) [
    | inl none_found ↦ rw (none_found, close_at) (omega (arith, open_count-of_none q ts none_found))
    | inr (i, found) ↦ rw (found, close_at) (omega (arith, open_count-erase_idx q ts i found))
  ]

  make_room_limit :
      (r : Tab P) (ts : List (Tab P))
      → is_empty (real_path_of r) ≡ false
      → 0 < r.info.dynamic_level
      → open_count (real_path_of r) ts ≤ r.info.dynamic_level
      → open_count (real_path_of r) (make_room r ts) < r.info.dynamic_level
  unfolding make_room
  make_room_limit r ts e pos h = ground (
    arith,
    close_first (real_path_of r) ts r.info.dynamic_level h pos,
    open_count-le-counts (real_path_of r) ts e,
  )

  open_count-visit :
      (r : Tab P) (ts : List (Tab P))
      → is_empty (real_path_of r) ≡ false
      → 0 < r.info.dynamic_level
      → open_count (real_path_of r) ts ≤ r.info.dynamic_level
      → open_count (real_path_of r) (visit r ts) ≤ r.info.dynamic_level
  unfolding visit
  open_count-visit r ts e pos h = elim (Option-cases (find_index (same_key r) ts)) [
    | inl n ↦
        rw (n, visit, filter-append, length-append)
          (omega (
            arith,
            make_room_limit r ts e pos h,
            length-filter-le (has_real_path (real_path_of r)) (r ∷ []),
          ))
    | inr (i, n) ↦
        let (t, g, k) = find_index_sound (same_key r) ts i n in
        rw (n, visit, g, refresh_at, open_count-set (real_path_of r) ts i r t g) h
  ]

  -- A dynamic route never has more tabs open than its level, if it had no more before: its level is
  -- positive, and its real path not empty.
  pub add_tab_limit :
      (cache_tab : Bool) (r : Tab P) (s : TabState P)
      → is_empty (real_path_of r) ≡ false
      → 0 < r.info.dynamic_level
      → open_count (real_path_of r) s.tab_list ≤ r.info.dynamic_level
      → open_count (real_path_of r) (add_tab cache_tab r s).tab_list ≤ r.info.dynamic_level
  add_tab_limit cache_tab r s e pos h = elim (Bool-cases (is_excluded r)) [
    | inl x ↦ rw (add_tab-is_excluded cache_tab r s x) h
    | inr x ↦ rw (tab_list-add_tab cache_tab r s x) (open_count-visit r s.tab_list e pos h)
  ]

  -- The limit counts the tabs of all dynamic routes together: where the tabs with a real path, of
  -- whatever route, reach the level of the route, one tab of the route is closed, if one is open,
  -- however few of them are open.
  pub make_room_early :
      (r : Tab P) (ts : List (Tab P)) (i : ℕ)
      → is_empty (real_path_of r) ≡ false
      → 0 < r.info.dynamic_level
      → r.info.dynamic_level ≤ length (filter (counts (real_path_of r)) ts)
      → find_index (has_real_path (real_path_of r)) ts ≡ some i
      → suc (open_count (real_path_of r) (make_room r ts)) ≡ open_count (real_path_of r) ts
  unfolding make_room
  make_room_early r ts i e pos many found =
      ground (arith, open_count-erase_idx (real_path_of r) ts i found)
