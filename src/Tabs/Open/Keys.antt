-- ===== src/Tabs/Open/Keys.antt =====
-- multipleTab.ts, `addTab`: the keys `fullPath || path` of the open tabs.
use kerthus.Base.{
  ℕ, zero, suc, ◌≡◌, refl, ap, String, eq_iff, Bool, true, false, ◌⊎◌, inl, inr, Bool-cases,
  Option-cases, List, [], ◌∷◌, ◌++◌, Option, none, some, map, map-append, set, erase_idx, get_elem?,
  find_index, find_index_sound, includes, includes-append, AreDistinct, AreDistinct-concat,
  str_eq_refl, arith, if◌then◌else◌,
}
use kerthus.Tabs.{Tab, TabState, tab_key}
use kerthus.Tabs.Open.{
  is_excluded, same_key, refreshed, refresh_at, close_at, make_room, visit, add_tab,
  update_cache_tab,
}

module _ {P : Type 0} where
  abbrev pub keys : List (Tab P) → List String
  keys = map tab_key

  tab_key-refreshed : (r t : Tab P) → same_key r t ≡ true → tab_key (refreshed r t) ≡ tab_key t
  tab_key-refreshed r t h =
      ground (arith, eq_iff (tab_key t) (tab_key r), eq_iff r.full_path "", eq_iff t.full_path "")

  keys-set :
      (ts : List (Tab P)) (i : ℕ) (t u : Tab P)
      → get_elem? ts i ≡ some t
      → tab_key u ≡ tab_key t
      → keys (set ts i u) ≡ keys ts
  keys-set [] i t u e h = refl
  keys-set (x ∷ ts) zero t u e h = cc
  keys-set (x ∷ ts) (suc i) t u e h = ap (tab_key x ∷◌) (keys-set ts i t u e h)

  keys-refresh_at :
      (r : Tab P) (ts : List (Tab P)) (i : ℕ)
      → find_index (same_key r) ts ≡ some i
      → keys (refresh_at r ts i) ≡ keys ts
  keys-refresh_at r ts i e =
      let (t, g, h) = find_index_sound (same_key r) ts i e in
      rw (g, refresh_at) (keys-set ts i t (refreshed r t) g (tab_key-refreshed r t h))

  includes-of_none :
      (r : Tab P) (ts : List (Tab P))
      → find_index (same_key r) ts ≡ none
      → includes (tab_key r) (keys ts) ≡ false
  includes-of_none r [] e = refl
  includes-of_none r (t ∷ ts) e = elim (Bool-cases (same_key r t)) [
    | inl h ↦ ground arith
    | inr h ↦ elim (Option-cases (find_index (same_key r) ts)) [
      | inl n ↦ rw h (includes-of_none r ts n)
      | inr (i, n) ↦ ground arith
    ]
  ]

  includes-erase_idx :
      (s : String) (ts : List (Tab P)) (i : ℕ)
      → includes s (keys ts) ≡ false
      → includes s (keys (erase_idx ts i)) ≡ false
  includes-erase_idx s [] i h = refl
  includes-erase_idx s (t ∷ ts) zero h = ground arith
  includes-erase_idx s (t ∷ ts) (suc i) h = ground (arith, includes-erase_idx s ts i)

  pub AreDistinct-erase_idx :
      (ts : List (Tab P)) (i : ℕ) → AreDistinct (keys ts) → AreDistinct (keys (erase_idx ts i))
  AreDistinct-erase_idx [] i d = tt
  AreDistinct-erase_idx (t ∷ ts) zero d = d.1
  AreDistinct-erase_idx (t ∷ ts) (suc i) d =
      (includes-erase_idx (tab_key t) ts i d.0, AreDistinct-erase_idx ts i d.1)

  -- The keys differ, and `s` is none of them.
  abbrev AreFreeOf : String → List (Tab P) → Type 0
  AreFreeOf s ts = AreDistinct (keys ts) × (includes s (keys ts) ≡ false)

  close_at-AreFreeOf :
      (closes : Bool) (o : Option ℕ) (ts : List (Tab P)) (s : String)
      → AreFreeOf s ts
      → AreFreeOf s (if closes then close_at o ts else ts)
  close_at-AreFreeOf false o ts s h = h
  close_at-AreFreeOf true none ts s h = h
  close_at-AreFreeOf true (some i) ts s h =
      (AreDistinct-erase_idx ts i h.0, includes-erase_idx s ts i h.1)

  concat-keys :
      (r : Tab P) (ts : List (Tab P))
      → AreFreeOf (tab_key r) ts
      → AreDistinct (keys (ts ++ r ∷ [])) × (includes (tab_key r) (keys (ts ++ r ∷ [])) ≡ true)
  concat-keys r ts (d, h) = rw map-append (
    AreDistinct-concat (keys ts) (tab_key r) d h,
    ground (arith, includes-append (tab_key r) (keys ts) (tab_key r ∷ []), str_eq_refl (tab_key r)),
  )

  includes-of_some :
      (r : Tab P) (ts : List (Tab P)) (i : ℕ)
      → find_index (same_key r) ts ≡ some i
      → includes (tab_key r) (keys ts) ≡ true
  includes-of_some r [] i e = cc
  includes-of_some r (t ∷ ts) i e = elim (Bool-cases (same_key r t)) [
    | inl h ↦ rw h refl
    | inr h ↦ elim (Option-cases (find_index (same_key r) ts)) [
      | inl n ↦ ground arith
      | inr (j, n) ↦ rw h (includes-of_some r ts j n)
    ]
  ]

  abbrev pub HasKey : Tab P → List (Tab P) → Type 0
  HasKey r ts = AreDistinct (keys ts) × (includes (tab_key r) (keys ts) ≡ true)

  visit-HasKey : (r : Tab P) (ts : List (Tab P)) → AreDistinct (keys ts) → HasKey r (visit r ts)
  unfolding visit make_room
  visit-HasKey r ts d = elim (Option-cases (find_index (same_key r) ts)) [
    | inl n ↦
        rw (n, visit)
          (concat-keys r (make_room r ts)
            (close_at-AreFreeOf _ _ ts (tab_key r) (d, includes-of_none r ts n)))
    | inr (i, n) ↦ rw (n, visit, keys-refresh_at r ts i n) (d, includes-of_some r ts i n)
  ]

  pub tab_list-add_tab :
      (cache_tab : Bool) (r : Tab P) (s : TabState P)
      → is_excluded r ≡ false
      → (add_tab cache_tab r s).tab_list ≡ visit r s.tab_list
  unfolding add_tab update_cache_tab
  tab_list-add_tab true r s e = rw e refl
  tab_list-add_tab false r s e = rw e refl

  pub add_tab-is_excluded :
      (cache_tab : Bool) (r : Tab P) (s : TabState P)
      → is_excluded r ≡ true
      → add_tab cache_tab r s ≡ s
  unfolding add_tab
  add_tab-is_excluded cache_tab r s e = rw e refl

  -- A route that is excluded changes nothing. Behind `addTab` of any other route the keys
  -- `fullPath || path` of the tabs differ from one another if they did before, and the key of the
  -- route is among them.
  pub add_tab-keys :
      (cache_tab : Bool) (r : Tab P) (s : TabState P)
      → AreDistinct (keys s.tab_list)
      → ((is_excluded r ≡ true) × (add_tab cache_tab r s ≡ s))
        ⊎ ((is_excluded r ≡ false) × HasKey r (add_tab cache_tab r s).tab_list)
  add_tab-keys cache_tab r s d = elim (Bool-cases (is_excluded r)) [
    | inl e ↦ inl (e, add_tab-is_excluded cache_tab r s e)
    | inr e ↦ inr (e, rw (tab_list-add_tab cache_tab r s e) (visit-HasKey r s.tab_list d))
  ]
