-- ===== src/Tabs/Close/Laws.antt =====
-- multipleTab.ts, `closeTab` and `closeTabByKey`: what is closed, and where the router goes.
use mathlib.Core.Bool.{not}
use mathlib.Core.Option
use kerthus.Base.{
  ℕ, zero, suc, ◌<◌, ◌≡◌, refl, sym, ap, subst, ◌⊎◌, inl, inr, String, str_eq, eq_iff, str_eq_refl,
  Bool, true, false, Bool-cases, Option-cases, List, [], ◌∷◌, ◌++◌, none, some, map, length,
  get_elem?, find_index, find_index_sound, lt-length_of_get_elem?, ==_iff, str_eq_ne, ◌≢◌, filter,
  includes, AreDistinct, arith, if◌then◌else◌, ◌==◌, ltb,
}
use kerthus.Tabs.{Tab, TabState, Nav, replace_path, World, tab_key}
use kerthus.Tabs.Open.{update_cache_tab, close_at}
use kerthus.Tabs.Close.{
  close, get_to_target, target_at, close_tab, jump_before, leave_closed, close_tab_by_key,
}

module _ {P : Type 0} where
  abbrev pub full_paths : List (Tab P) → List String
  full_paths = map (λ t. t.full_path)

  abbrev is_at : String → Tab P → Bool
  is_at s t = str_eq t.full_path s

  filter_of_not-includes :
      (s : String) (ts : List (Tab P))
      → includes s (full_paths ts) ≡ false
      → filter (λ t. not (is_at s t)) ts ≡ ts
  filter_of_not-includes s [] h = refl
  filter_of_not-includes s (t ∷ ts) h = ground (arith, filter_of_not-includes s ts)

  close_at-filter :
      (s : String) (ts : List (Tab P))
      → AreDistinct (full_paths ts)
      → close_at (find_index (is_at s) ts) ts ≡ filter (λ t. not (is_at s t)) ts
  close_at-filter s [] d = refl
  close_at-filter s (t ∷ ts) d = elim (Bool-cases (is_at s t)) [
    | inl h ↦ rw h (
        sym (
          filter_of_not-includes s ts
            (subst (λ u. includes u (full_paths ts) ≡ false) ((eq_iff t.full_path s).0 h) d.0)))
    | inr h ↦ elim (Option-cases (find_index (is_at s) ts)) [
      | inl n ↦ rw (h, n) (ap (t ∷◌) (rw n at (close_at-filter s ts d.1)))
      | inr (i, n) ↦ rw (h, n) (ap (t ∷◌) (rw n at (close_at-filter s ts d.1)))
    ]
  ]

  abbrev closed : Tab P → TabState P → TabState P
  closed r s = record s {
    tab_list =
        if r.info.affix
        then s.tab_list
        else filter (λ t. not (str_eq t.full_path r.full_path)) s.tab_list;
  }

  close_store :
      (r : Tab P) (s : TabState P) → AreDistinct (full_paths s.tab_list) → close r s ≡ closed r s
  unfolding close
  close_store r s d = by_affix r.info.affix
    where
      by_affix :
          (b : Bool)
          → (if b then s else record s {
            tab_list =
                close_at (find_index (λ t. str_eq t.full_path r.full_path) s.tab_list) s.tab_list;
          })
            ≡ record s {
              tab_list =
                  if b
                  then s.tab_list
                  else filter (λ t. not (str_eq t.full_path r.full_path)) s.tab_list;
            }
      by_affix true = refl
      by_affix false = λ i. record s { tab_list = close_at-filter r.full_path s.tab_list d i }

  -- The neighbour that becomes active: the tab before the closed one, or the one behind the first.
  abbrev IsNeighbour : List (Tab P) → ℕ → Tab P → Type 0
  IsNeighbour ts zero t = get_elem? ts 1 ≡ some t
  IsNeighbour ts (suc i) t = get_elem? ts i ≡ some t

  abbrev pub IsTarget : String → List (Tab P) → ℕ → Nav P → Type 0
  IsTarget home ts i nav =
      ((length ts ≡ 1) × (nav ≡ replace_path home))
      ⊎ ((t : Tab P) × IsNeighbour ts i t × (nav ≡ get_to_target t))

  get_elem?_of_lt :
      (ts : List (Tab P)) (i : ℕ) → i < length ts → (t : Tab P) × (get_elem? ts i ≡ some t)
  get_elem?_of_lt [] i h = absurd (omega arith)
  get_elem?_of_lt (t ∷ ts) zero h = (t, refl)
  get_elem?_of_lt (t ∷ ts) (suc i) h = get_elem?_of_lt ts i (omega arith)

  target_at_total :
      (home : String) (ts : List (Tab P)) (i : ℕ) (t : Tab P)
      → get_elem? ts i ≡ some t
      → (nav : Nav P) × (target_at home ts (some i) ≡ some nav) × IsTarget home ts i nav
  unfolding target_at
  target_at_total home ts zero t e = elim (Bool-cases (length ts == 1)) [
    | inl one ↦ (replace_path home, rw one refl, inl ((==_iff _ _).0 one, refl))
    | inr more ↦
        let (u, g) = get_elem?_of_lt ts 1 (ground (arith, lt-length_of_get_elem? ts 0 t e)) in
        (get_to_target u, rw (more, g) refl, inr (u, g, refl))
  ]
  target_at_total home ts (suc i) t e =
      let (u, g) = get_elem?_of_lt ts i (omega (arith, lt-length_of_get_elem? ts (suc i) t e)) in
      (get_to_target u, rw g refl, inr (u, g, refl))

module _ {P : Type 0} (home : String) (resolve : Nav P → Tab P) where
  left_by :
      (tab : Tab P) (w : World P) (nav : Nav P) (s : TabState P)
      → str_eq w.current.path tab.path ≡ true
      → target_at home w.store.tab_list
          (find_index (λ t. str_eq t.path w.current.path) w.store.tab_list)
        ≡ some nav
      → close w.current w.store ≡ s
      → close_tab home resolve tab w
        ≡ some (record { store = s; current = resolve nav; navs = w.navs ++ nav ∷ [] })
  unfolding close_tab
  left_by tab w nav s e t c =
      rw (e, t)
        (ap (λ x. some (record { store = x; current = resolve nav; navs = w.navs ++ nav ∷ [] })) c)

  -- When the tab with the path of the current route is closed and has a place in the list, `closeTab`
  -- ends. The router goes home if it was the only tab, else to the tab before it, or to the one behind
  -- it if it was the first. Of the store only the list of the tabs is changed: the tabs with the full
  -- path of the route that was current are taken out, and no others, or none at all if this route is
  -- affixed. The full paths of the tabs differ from one another.
  pub close_tab_active :
      (tab : Tab P) (w : World P) (i : ℕ)
      → AreDistinct (full_paths w.store.tab_list)
      → w.current.path ≡ tab.path
      → find_index (λ t. str_eq t.path w.current.path) w.store.tab_list ≡ some i
      → (nav : Nav P) × IsTarget home w.store.tab_list i nav
        × (close_tab home resolve tab w
            ≡ some (record {
              store = record w.store {
                tab_list =
                    if w.current.info.affix
                    then w.store.tab_list
                    else filter
                        (λ t. not (str_eq t.full_path w.current.full_path))
                        w.store.tab_list;
              };
              current = resolve nav;
              navs = w.navs ++ nav ∷ [];
            }))
  close_tab_active tab w i d e f =
      let (t, g, h) = find_index_sound (λ u. str_eq u.path w.current.path) w.store.tab_list i f in
      let (nav, a, b) = target_at_total home w.store.tab_list i t g in
      (
        nav,
        b,
        left_by tab w nav (closed w.current w.store) ((eq_iff w.current.path tab.path).1 e) (rw f a)
            (close_store w.current w.store d),
      )

  -- `closeTabByKey` fails where it closes the first of several tabs while another route without a
  -- tab is active: `tabList[index - 1]` is then `undefined`.
  pub close_tab_by_key_fails :
      (key : String) (w : World P) (t u v : Tab P) (ts : List (Tab P))
      → w.store.tab_list ≡ t ∷ u ∷ v ∷ ts
      → tab_key t ≡ key
      → w.current.path ≢ t.path
      → t.info.affix ≡ false
      → find_index (λ x. str_eq x.full_path w.current.full_path) (u ∷ v ∷ ts) ≡ none
      → close_tab_by_key home resolve key w ≡ none
  unfolding close_tab_by_key close_tab leave_closed jump_before close update_cache_tab Option.bind
  close_tab_by_key_fails key w t u v ts e k ne a n =
      let p = (eq_iff (tab_key t) key).1 k in
      let q = str_eq_refl t.full_path in
      let r = str_eq_ne w.current.path t.path ne in
      let m : ltb 1 (suc (suc (length ts))) ≡ true = ground arith in
      rw
        (
          e, close_tab_by_key, p, e, close_tab, r, a, e, q, Option.bind, leave_closed, n, m,
          jump_before,
        )
        refl
