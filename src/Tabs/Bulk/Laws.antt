-- ===== src/Tabs/Bulk/Laws.antt =====
-- multipleTab.ts: which tabs the operations on many tabs leave.
use mathlib.Core.Bool.{not}
use kerthus.Base.{
  ℕ, zero, suc, ◌+◌, ◌≡◌, refl, sym, ap, subst, ◌∙◌, inl, inr, String, str_eq, eq_iff, str_eq_refl,
  false, Bool-cases, List, [], ◌∷◌, ◌++◌, some, length, take, drop, filter, find_index,
  take-append-drop, ltb, includes, AreDistinct, arith,
}
use kerthus.Tabs.{Tab, TabState, Nav, World}
use kerthus.Tabs.Open.{update_cache_tab}
use kerthus.Tabs.Close.Laws.{full_paths}
use kerthus.Tabs.Bulk.{
  bulk_close_tabs, closable_paths, close_left, close_right, close_left_tabs, close_right_tabs,
}

module _ {P : Type 0} where
  abbrev pub without : List String → List (Tab P) → List (Tab P)
  without paths = filter (λ t. not (includes t.full_path paths))

  abbrev pub affixed : List (Tab P) → List (Tab P)
  affixed = filter (λ t. t.info.affix)

  includes-closable :
      (s : String) (xs ys : List (Tab P))
      → includes s (full_paths (xs ++ ys)) ≡ false
      → includes s (closable_paths xs) ≡ false
  includes-closable s [] ys h = refl
  includes-closable s (x ∷ xs) ys h = ground (arith, includes-closable s xs ys)

  includes-closable_right :
      (s : String) (xs ys : List (Tab P))
      → includes s (full_paths (xs ++ ys)) ≡ false
      → includes s (closable_paths ys) ≡ false
  includes-closable_right s [] [] h = refl
  includes-closable_right s [] (y ∷ ys) h = ground (arith, includes-closable_right s [] ys)
  includes-closable_right s (x ∷ xs) ys h = ground (arith, includes-closable_right s xs ys)

  pub without_none : (ts : List (Tab P)) → without [] ts ≡ ts
  without_none [] = refl
  without_none (t ∷ ts) = ap (t ∷◌) (without_none ts)

  -- A path that no tab has is without effect.
  pub without-skip :
      (s : String) (paths : List String) (ts : List (Tab P))
      → includes s (full_paths ts) ≡ false
      → without (s ∷ paths) ts ≡ without paths ts
  without-skip s paths [] h = refl
  without-skip s paths (t ∷ ts) h =
      ground (arith, without-skip s paths ts, eq_iff s t.full_path, eq_iff t.full_path s)

  -- The closable tabs of a list close themselves, and no tab outside of the list.
  without-closable_left :
      (xs ys : List (Tab P))
      → AreDistinct (full_paths (xs ++ ys))
      → without (closable_paths xs) (xs ++ ys) ≡ affixed xs ++ ys
  without-closable_left [] ys d = without_none ys
  without-closable_left (x ∷ xs) ys d = ground (
    arith,
    without-closable_left xs ys,
    without-skip x.full_path (closable_paths xs) (xs ++ ys),
    includes-closable x.full_path xs ys,
    str_eq_refl x.full_path,
  )

  without-closable :
      (ys : List (Tab P))
      → AreDistinct (full_paths ys)
      → without (closable_paths ys) ys ≡ affixed ys
  without-closable [] d = refl
  without-closable (y ∷ ys) d = ground (
    arith,
    without-closable ys,
    without-skip y.full_path (closable_paths ys) ys,
    includes-closable_right y.full_path [] ys,
    str_eq_refl y.full_path,
  )

  without-closable_right :
      (xs ys : List (Tab P))
      → AreDistinct (full_paths (xs ++ ys))
      → without (closable_paths ys) (xs ++ ys) ≡ xs ++ affixed ys
  without-closable_right [] ys d = without-closable ys d
  without-closable_right (x ∷ xs) ys d =
      ground (arith, without-closable_right xs ys, includes-closable_right x.full_path xs ys)

  take_all :
      (ts : List (Tab P)) (i : ℕ) → ltb i (length ts) ≡ false → (take i ts ≡ ts) × (drop i ts ≡ [])
  take_all [] zero h = (refl, refl)
  take_all [] (suc i) h = (refl, refl)
  take_all (t ∷ ts) zero h = ground arith
  take_all (t ∷ ts) (suc i) h = let (a, b) = take_all ts i (ground arith) in (ap (t ∷◌) a, b)

  append_nil : (ts : List (Tab P)) → ts ++ [] ≡ ts
  append_nil [] = refl
  append_nil (t ∷ ts) = ap (t ∷◌) (append_nil ts)

  split-AreDistinct :
      (i : ℕ) (ts : List (Tab P))
      → AreDistinct (full_paths ts)
      → AreDistinct (full_paths (take i ts ++ drop i ts))
  split-AreDistinct i ts = subst (λ us. AreDistinct (full_paths us)) (sym (take-append-drop i ts))

  close_left_lem :
      (i : ℕ) (s : TabState P)
      → AreDistinct (full_paths s.tab_list)
      → close_left (some i) s
        ≡ record s { tab_list = affixed (take i s.tab_list) ++ drop i s.tab_list }
  unfolding close_left bulk_close_tabs
  close_left_lem zero s d = refl
  close_left_lem (suc i) s d =
      ap (λ ts. record s { tab_list = ts })
        (ap (without (closable_paths (take (suc i) s.tab_list)))
            (sym (take-append-drop (suc i) s.tab_list))
          ∙ without-closable_left (take (suc i) s.tab_list) (drop (suc i) s.tab_list)
              (split-AreDistinct (suc i) s.tab_list d))

  close_right_lem :
      (i : ℕ) (s : TabState P)
      → AreDistinct (full_paths s.tab_list)
      → close_right (some i) s
        ≡ record s { tab_list = take (i + 1) s.tab_list ++ affixed (drop (i + 1) s.tab_list) }
  unfolding close_right bulk_close_tabs
  close_right_lem i s d = elim (Bool-cases (ltb (i + 1) (length s.tab_list))) [
    | inl h ↦ rw h (
        ap (λ ts. record s { tab_list = ts })
          (ap (without (closable_paths (drop (i + 1) s.tab_list)))
              (sym (take-append-drop (i + 1) s.tab_list))
            ∙ without-closable_right (take (i + 1) s.tab_list) (drop (i + 1) s.tab_list)
                (split-AreDistinct (i + 1) s.tab_list d)))
    | inr h ↦
        let (a, b) = take_all s.tab_list (i + 1) h in
        rw h (ap (λ ts. record s { tab_list = ts }) (sym (rw (a, b) (append_nil s.tab_list))))
  ]

module _ {P : Type 0} (home : String) (resolve : Nav P → Tab P) where
  -- Of the tabs before the first one with the path of the route, `closeLeftTabs` leaves those that
  -- are affixed; it leaves all others, in their order, and computes the cached names again. The full
  -- paths of the tabs differ from one another.
  pub close_left_tabs_lem :
      (route : Tab P) (w : World P) (i : ℕ)
      → AreDistinct (full_paths w.store.tab_list)
      → find_index (λ t. str_eq t.path route.path) w.store.tab_list ≡ some i
      → (close_left_tabs home resolve route w).store
        ≡ update_cache_tab (record w.store {
          tab_list = affixed (take i w.store.tab_list) ++ drop i w.store.tab_list;
        })
  unfolding close_left_tabs
  close_left_tabs_lem route w i d e = rw e (ap update_cache_tab (close_left_lem i w.store d))

  -- Of the tabs behind the one with the full path of the route, `closeRightTabs` leaves those that
  -- are affixed; it leaves all others, in their order, and computes the cached names again. The full
  -- paths of the tabs differ from one another.
  pub close_right_tabs_lem :
      (route : Tab P) (w : World P) (i : ℕ)
      → AreDistinct (full_paths w.store.tab_list)
      → find_index (λ t. str_eq t.full_path route.full_path) w.store.tab_list ≡ some i
      → (close_right_tabs home resolve route w).store
        ≡ update_cache_tab (record w.store {
          tab_list = take (i + 1) w.store.tab_list ++ affixed (drop (i + 1) w.store.tab_list);
        })
  unfolding close_right_tabs
  close_right_tabs_lem route w i d e = rw e (ap update_cache_tab (close_right_lem i w.store d))
