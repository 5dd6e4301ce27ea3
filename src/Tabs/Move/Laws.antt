-- ===== src/Tabs/Move/Laws.antt =====
-- multipleTab.ts: the order of the tabs, and writes to one tab.
use mathlib.Core.Bool.{not}
use mathlib.Core.List.{Perm}
use mathlib.Core.List.Perm
use kerthus.Base.{
  ℕ, zero, suc, ◌+◌, ◌<◌, ◌≡◌, refl, sym, subst, inl, inr, String, str_eq, eq_iff, false,
  Bool-cases, ◌&&◌, List, [], ◌∷◌, ◌++◌, some, length, get_elem?, erase_idx, insert_idx,
  get_elem?-insert_idx_self, length-erase_idx, lt-length_of_get_elem?, filter, if◌then◌else◌,
  includes, is_empty, arith,
}
use kerthus.Tabs.{Tab, TabState, Nav, redo, World}
use kerthus.Tabs.Move.{moved, sort_tabs, forget, refresh_page}

module _ {ℓ} {A : Type ℓ} where
  insert_idx-perm : (xs : List A) (i : ℕ) (v : A) → Perm (insert_idx xs i v) (v ∷ xs)
  insert_idx-perm xs zero v = Perm.refl _
  insert_idx-perm [] (suc i) v = Perm.refl _
  insert_idx-perm (x ∷ xs) (suc i) v =
      Perm.trans (Perm.cons x (insert_idx-perm xs i v)) (Perm.swap v x xs)

  erase_idx-perm :
      (xs : List A) (i : ℕ) (v : A) → get_elem? xs i ≡ some v → Perm (v ∷ erase_idx xs i) xs
  erase_idx-perm [] i v e = cc
  erase_idx-perm (x ∷ xs) zero v e = subst (λ y. Perm (y ∷ xs) (x ∷ xs)) (cc) (Perm.refl (x ∷ xs))
  erase_idx-perm (x ∷ xs) (suc i) v e =
      Perm.trans (Perm.swap x v (erase_idx xs i)) (Perm.cons x (erase_idx-perm xs i v e))

module _ {P : Type 0} where
  -- `sortTabs` puts a tab of the list at a new index that is within the list, and keeps all tabs; it
  -- counts the move.
  pub sort_tabs_lem :
      (old new : ℕ) (s : TabState P) (t : Tab P)
      → get_elem? s.tab_list old ≡ some t
      → new < length s.tab_list
      → (s' : TabState P) × (sort_tabs old new s ≡ some s')
        × Perm s'.tab_list s.tab_list
        × (get_elem? s'.tab_list new ≡ some t)
        × (s'.last_drag_end_index ≡ s.last_drag_end_index + 1)
  unfolding sort_tabs
  sort_tabs_lem old new s t e h = (
    record s {
      tab_list = moved old new t s.tab_list;
      last_drag_end_index = s.last_drag_end_index + 1;
    },
    rw e refl,
    Perm.trans (insert_idx-perm (erase_idx s.tab_list old) new t)
        (erase_idx-perm s.tab_list old t e),
    get_elem?-insert_idx_self (erase_idx s.tab_list old) new t (
        omega (arith, length-erase_idx s.tab_list old (lt-length_of_get_elem? s.tab_list old t e))),
    refl,
  )

includes-forget :
    (n name : String) (names : List String)
    → includes n (filter (λ m. not (str_eq m name)) names)
      ≡ (includes n names && not (str_eq n name))
includes-forget n name [] = refl
includes-forget n name (m ∷ names) =
    ground (arith, includes-forget n name names, eq_iff m n, eq_iff m name, eq_iff n name)

includes_absent :
    (n name : String) (names : List String)
    → includes name names ≡ false
    → includes n names ≡ (includes n names && not (str_eq n name))
includes_absent n name names h = elim (Bool-cases (str_eq n name)) [
  | inl e ↦ rw (e, subst (λ m. includes m names ≡ false) (sym ((eq_iff n name).0 e)) h) refl
  | inr e ↦ rw e (ground arith)
]

module _ {P : Type 0} where
  includes-forgotten :
      (n name : String) (s : TabState P)
      → is_empty name ≡ false
      → includes n (forget name s).cache_tab_list
        ≡ (includes n s.cache_tab_list && not (str_eq n name))
  includes-forgotten n name s h = elim (Bool-cases (includes name s.cache_tab_list)) [
    | inl e ↦ rw (e, h) (includes-forget n name s.cache_tab_list)
    | inr e ↦ rw e (includes_absent n name s.cache_tab_list e)
  ]

module _ {P : Type 0} (home : String) (resolve : Nav P → Tab P) where
  -- `refreshPage` takes the name of the current route, and no other name, out of the cached ones, and
  -- loads the page again by way of the route of the redirection, unless it is there already.
  pub refresh_page_lem :
      (w : World P)
      → is_empty w.current.name ≡ false
      → ((n : String)
          → includes n (refresh_page home resolve w).store.cache_tab_list
            ≡ (includes n w.store.cache_tab_list && not (str_eq n w.current.name)))
        × ((refresh_page home resolve w).navs
            ≡ (if str_eq w.current.name "Redirect" then w.navs else w.navs ++ redo ∷ []))
  unfolding refresh_page
  refresh_page_lem w h = elim (Bool-cases (str_eq w.current.name "Redirect")) [
    | inl e ↦ rw e (λ n. includes-forgotten n w.current.name w.store h, refl)
    | inr e ↦ rw e (λ n. includes-forgotten n w.current.name w.store h, refl)
  ]
