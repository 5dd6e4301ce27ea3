-- ===== src/Tabs/Kept.antt =====
-- multipleTab.ts: each operation of the store, as it bears on the keys `fullPath || path`.
pub mod Closed
pub mod Renamed
use mathlib.Core.Option
use kerthus.Base.{
  ℕ, zero, suc, ◌+◌, ◌≡◌, refl, subst, inl, inr, String, str_eq, eq_iff, Bool, false, Bool-cases,
  Option-cases, List, [], ◌∷◌, Option, none, some, get_elem?, erase_idx, insert_idx, filter,
  find_index, includes, AreDistinct, arith, ltb, ◌==◌, any, length, is_some,
}
use kerthus.Tabs.{Tab, TabState, Nav, World, tab_key}
use kerthus.Tabs.Open.{add_tab, update_cache_tab}
use kerthus.Tabs.Open.Keys.{keys, AreDistinct-erase_idx, add_tab-keys}
use kerthus.Tabs.Close.{
  close, close_tab, close_tab_by_key, leave_closed, jump_before, target_at, replace, get_to_target,
  has_neighbour,
}
use kerthus.Tabs.Bulk.{close_left, close_right, bulk_close_tabs}
use kerthus.Tabs.Move.{sort_tabs, moved, set_tab_title, titled, write}

module _ {P : Type 0} where
  includes-filter-keys :
      (p : Tab P → Bool) (s : String) (ts : List (Tab P))
      → includes s (keys ts) ≡ false
      → includes s (keys (filter p ts)) ≡ false
  includes-filter-keys p s [] h = refl
  includes-filter-keys p s (t ∷ ts) h = ground (arith, includes-filter-keys p s ts)

  pub AreDistinct-filter :
      (p : Tab P → Bool) (ts : List (Tab P))
      → AreDistinct (keys ts)
      → AreDistinct (keys (filter p ts))
  AreDistinct-filter p [] d = tt
  AreDistinct-filter p (t ∷ ts) d = elim (Bool-cases (p t)) [
    | inl h ↦ rw h (includes-filter-keys p (tab_key t) ts d.0, AreDistinct-filter p ts d.1)
    | inr h ↦ rw h (AreDistinct-filter p ts d.1)
  ]

  includes-insert_idx :
      (s : String) (ts : List (Tab P)) (i : ℕ) (t : Tab P)
      → includes s (keys ts) ≡ false
      → str_eq (tab_key t) s ≡ false
      → includes s (keys (insert_idx ts i t)) ≡ false
  includes-insert_idx s ts zero t h e = ground arith
  includes-insert_idx s [] (suc i) t h e = ground arith
  includes-insert_idx s (u ∷ ts) (suc i) t h e = ground (arith, includes-insert_idx s ts i t)

  AreDistinct-insert_idx :
      (ts : List (Tab P)) (i : ℕ) (t : Tab P)
      → AreDistinct (keys ts)
      → includes (tab_key t) (keys ts) ≡ false
      → AreDistinct (keys (insert_idx ts i t))
  AreDistinct-insert_idx ts zero t d h = (h, d)
  AreDistinct-insert_idx [] (suc i) t d h = (refl, tt)
  AreDistinct-insert_idx (u ∷ ts) (suc i) t d h = (
    includes-insert_idx (tab_key u) ts i t d.0
        (ground (arith, eq_iff (tab_key t) (tab_key u), eq_iff (tab_key u) (tab_key t))),
    AreDistinct-insert_idx ts i t d.1 (ground arith),
  )

  get_elem?-ne :
      (s : String) (ts : List (Tab P)) (i : ℕ) (t : Tab P)
      → get_elem? ts i ≡ some t
      → includes s (keys ts) ≡ false
      → str_eq (tab_key t) s ≡ false
  get_elem?-ne s [] i t e h = cc
  get_elem?-ne s (u ∷ ts) zero t e h =
      let q : u ≡ t = cc in subst (λ x. str_eq (tab_key x) s ≡ false) q (ground arith)
  get_elem?-ne s (u ∷ ts) (suc i) t e h = get_elem?-ne s ts i t e (ground arith)

  includes-erased :
      (ts : List (Tab P)) (i : ℕ) (t : Tab P)
      → AreDistinct (keys ts)
      → get_elem? ts i ≡ some t
      → includes (tab_key t) (keys (erase_idx ts i)) ≡ false
  includes-erased [] i t d e = cc
  includes-erased (u ∷ ts) zero t d e =
      let q : u ≡ t = cc in subst (λ x. includes (tab_key x) (keys ts) ≡ false) q d.0
  includes-erased (u ∷ ts) (suc i) t d e = ground (
    arith,
    includes-erased ts i t d.1 e,
    get_elem?-ne (tab_key u) ts i t e d.0,
    eq_iff (tab_key u) (tab_key t),
    eq_iff (tab_key t) (tab_key u),
  )

  abbrev pub HasKeys : TabState P → Type 0
  HasKeys s = AreDistinct (keys s.tab_list)

  pub close-HasKeys : (r : Tab P) (s : TabState P) → HasKeys s → HasKeys (close r s)
  unfolding close
  close-HasKeys r s d = elim (Bool-cases r.info.affix) [
    | inl h ↦ rw h d
    | inr h ↦ elim (Option-cases (find_index (λ t. str_eq t.full_path r.full_path) s.tab_list)) [
      | inl n ↦ rw (h, n) d
      | inr (i, n) ↦ rw (h, n) (AreDistinct-erase_idx s.tab_list i d)
    ]
  ]

  pub close_left-HasKeys : (o : Option ℕ) (s : TabState P) → HasKeys s → HasKeys (close_left o s)
  unfolding close_left bulk_close_tabs
  close_left-HasKeys none s d = d
  close_left-HasKeys (some zero) s d = d
  close_left-HasKeys (some (suc i)) s d = AreDistinct-filter _ s.tab_list d

  pub close_right-HasKeys : (o : Option ℕ) (s : TabState P) → HasKeys s → HasKeys (close_right o s)
  unfolding close_right bulk_close_tabs
  close_right-HasKeys none s d = d
  close_right-HasKeys (some i) s d = elim (Bool-cases (ltb (i + 1) (length s.tab_list))) [
    | inl h ↦ rw h (AreDistinct-filter _ s.tab_list d)
    | inr h ↦ rw h d
  ]

  pub add_tab-HasKeys :
      (cache_tab : Bool) (r : Tab P) (s : TabState P) → HasKeys s → HasKeys (add_tab cache_tab r s)
  add_tab-HasKeys cache_tab r s d = elim (add_tab-keys cache_tab r s d) [
    | inl (e, h) ↦ rw h d
    | inr (e, h) ↦ h.0
  ]

  pub sort_tabs-HasKeys :
      (old new : ℕ) (s s' : TabState P) → sort_tabs old new s ≡ some s' → HasKeys s → HasKeys s'
  unfolding sort_tabs
  sort_tabs-HasKeys old new s s' e d = elim (Option-cases (get_elem? s.tab_list old)) [
    | inl n ↦ let f = rw (n, sort_tabs) at e in cc
    | inr (t, g) ↦
        let f = rw (g, sort_tabs) at e in
        let q : record s {
          tab_list = moved old new t s.tab_list;
          last_drag_end_index = s.last_drag_end_index + 1;
        }
            ≡ s' =
          cc in
        subst HasKeys q (
          AreDistinct-insert_idx (erase_idx s.tab_list old) new t
            (AreDistinct-erase_idx s.tab_list old d) (includes-erased s.tab_list old t d g))
  ]

  keys-write :
      (r : ℕ) (title : String) (ts : List (Tab P)) → keys (write r (titled title) ts) ≡ keys ts
  keys-write r title [] = refl
  keys-write r title (t ∷ ts) = elim (Bool-cases (t.ref == r)) [
    | inl h ↦ rw (h, keys-write r title ts) refl
    | inr h ↦ rw (h, keys-write r title ts) refl
  ]

  pub set_tab_title-HasKeys :
      (title : String) (r : Tab P) (s : TabState P) → HasKeys s → HasKeys (set_tab_title title r s)
  unfolding set_tab_title update_cache_tab
  set_tab_title-HasKeys title r s d = elim (Bool-cases (any (λ t. t.ref == r.ref) s.tab_list)) [
    | inl h ↦ rw (h, set_tab_title, keys-write r.ref title s.tab_list) d
    | inr h ↦ rw (h, set_tab_title) d
  ]
