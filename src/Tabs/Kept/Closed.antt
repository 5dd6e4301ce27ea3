-- ===== src/Tabs/Kept/Closed.antt =====
-- multipleTab.ts, `closeTab` and `closeTabByKey`, as they bear on the keys `fullPath || path`.
use mathlib.Core.Option
use kerthus.Base.{
  ℕ, zero, suc, ◌≡◌, subst, inl, inr, String, str_eq, Bool-cases, Option-cases, some, get_elem?,
  find_index, length, is_some,
}
use kerthus.Tabs.{Tab, Nav, World, tab_key}
use kerthus.Tabs.Open.{update_cache_tab}
use kerthus.Tabs.Close.{
  close, close_tab, close_tab_by_key, leave_closed, jump_before, target_at, replace, get_to_target,
  has_neighbour,
}
use kerthus.Tabs.Kept.{HasKeys, close-HasKeys}

module _ {P : Type 0} (home : String) (resolve : Nav P → Tab P) where
  pub close_tab-HasKeys :
      (tab : Tab P) (w w' : World P)
      → close_tab home resolve tab w ≡ some w'
      → HasKeys w.store
      → HasKeys w'.store
  unfolding close_tab update_cache_tab
  close_tab-HasKeys tab w w' e d = elim (Bool-cases (str_eq w.current.path tab.path)) [
    | inl h ↦
        elim (Option-cases (
          target_at home w.store.tab_list
            (find_index (λ t. str_eq t.path w.current.path) w.store.tab_list))) [
              | inl n ↦ let f = rw (h, n) at e in cc
              | inr (nav, n) ↦
                  let f = rw (h, n) at e in
                  let q : replace home resolve nav (record w { store = close w.current w.store })
                      ≡ w' =
                    cc in
                  subst (λ v. HasKeys v.store) q (close-HasKeys w.current w.store d)
            ]
    | inr h ↦
        let f = rw h at e in
        let q : record w { store = update_cache_tab (close tab w.store) } ≡ w' = cc in
        subst (λ v. HasKeys v.store) q (close-HasKeys tab w.store d)
  ]

  jump_before-HasKeys :
      (i : ℕ) (w w' : World P)
      → jump_before home resolve i w ≡ some w'
      → HasKeys w.store
      → HasKeys w'.store
  unfolding jump_before
  jump_before-HasKeys zero w w' e d = cc
  jump_before-HasKeys (suc i) w w' e d = elim (Option-cases (get_elem? w.store.tab_list i)) [
    | inl n ↦ let f = rw n at e in cc
    | inr (t, n) ↦
        let f = rw n at e in
        let q : replace home resolve (get_to_target t) w ≡ w' = cc in
        subst (λ v. HasKeys v.store) q d
  ]

  leave_closed-HasKeys :
      (i : ℕ) (w w' : World P)
      → leave_closed home resolve i w ≡ some w'
      → HasKeys w.store
      → HasKeys w'.store
  unfolding leave_closed
  leave_closed-HasKeys i w w' e d =
      elim (Bool-cases
        (is_some (find_index (λ t. str_eq t.full_path w.current.full_path) w.store.tab_list))) [
          | inl h ↦ let f = rw h at e in let q : w ≡ w' = cc in subst (λ v. HasKeys v.store) q d
          | inr h ↦ elim (Bool-cases (has_neighbour home resolve i (length w.store.tab_list))) [
            | inl k ↦ jump_before-HasKeys i w w' (rw (h, k) at e) d
            | inr k ↦
                let f = rw (h, k) at e in let q : w ≡ w' = cc in subst (λ v. HasKeys v.store) q d
          ]
        ]

  pub close_tab_by_key-HasKeys :
      (key : String) (w w' : World P)
      → close_tab_by_key home resolve key w ≡ some w'
      → HasKeys w.store
      → HasKeys w'.store
  unfolding close_tab_by_key Option.bind
  close_tab_by_key-HasKeys key w w' e d =
      elim (Option-cases (find_index (λ t. str_eq (tab_key t) key) w.store.tab_list)) [
        | inl n ↦
            let f = rw (n, close_tab_by_key) at e in
            let q : w ≡ w' = cc in subst (λ v. HasKeys v.store) q d
        | inr (i, n) ↦ elim (Option-cases (get_elem? w.store.tab_list i)) [
          | inl m ↦ let f = rw (n, m, close_tab_by_key) at e in cc
          | inr (t, m) ↦ elim (Option-cases (close_tab home resolve t w)) [
            | inl k ↦ let f = rw (n, m, k, close_tab_by_key) at e in cc
            | inr (v, k) ↦
                leave_closed-HasKeys i v w' (rw (n, m, k, close_tab_by_key) at e)
                  (close_tab-HasKeys t w v k d)
          ]
        ]
      ]
