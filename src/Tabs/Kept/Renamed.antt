-- ===== src/Tabs/Kept/Renamed.antt =====
-- multipleTab.ts, `updateTabPath`: the keys behind the new path of a tab.
use mathlib.Core.Bool.{not}
use kerthus.Base.{
  ℕ, ◌≤◌, ◌≡◌, refl, inl, inr, String, str_eq, eq_iff, false, Bool-cases, List, [], ◌∷◌, filter,
  includes, AreDistinct, arith, ◌==◌, any, length, is_empty,
}
use kerthus.Tabs.{Tab, TabState, tab_key}
use kerthus.Tabs.Open.{update_cache_tab}
use kerthus.Tabs.Open.Keys.{keys}
use kerthus.Tabs.Kept.{HasKeys}
use kerthus.Tabs.Move.{write, with_path, update_tab_path}

module _ {P : Type 0} where
  -- The object stands at one place of the list at most, and no other tab has the key.
  abbrev pub IsFree : String → ℕ → List (Tab P) → Type 0
  IsFree path ref ts =
      (length (filter (λ t. t.ref == ref) ts) ≤ 1)
      × (includes path (keys (filter (λ t. not (t.ref == ref)) ts)) ≡ false)

  tab_key-with_path : (path : String) (t : Tab P) → tab_key (with_path path t) ≡ path
  tab_key-with_path path t = elim (Bool-cases (is_empty path)) [
    | inl e ↦ rw e refl
    | inr e ↦ rw e refl
  ]

  write-none :
      (path : String) (ref : ℕ) (ts : List (Tab P))
      → length (filter (λ t. t.ref == ref) ts) ≤ 0
      → (write ref (with_path path) ts ≡ ts) × (filter (λ t. not (t.ref == ref)) ts ≡ ts)
  write-none path ref [] h = (refl, refl)
  write-none path ref (t ∷ ts) h = elim (Bool-cases (t.ref == ref)) [
    | inl e ↦ absurd (let f = rw e at h in omega arith)
    | inr e ↦ let (a, b) = write-none path ref ts (rw e at h) in (rw (e, a) refl, rw (e, b) refl)
  ]

  includes-write :
      (s path : String) (ref : ℕ) (ts : List (Tab P))
      → str_eq path s ≡ false
      → includes s (keys ts) ≡ false
      → includes s (keys (write ref (with_path path) ts)) ≡ false
  includes-write s path ref [] n h = refl
  includes-write s path ref (t ∷ ts) n h = elim (Bool-cases (t.ref == ref)) [
    | inl e ↦ rw (e, tab_key-with_path path t, n) (includes-write s path ref ts n (ground arith))
    | inr e ↦ rw e (ground (arith, includes-write s path ref ts n))
  ]

  write_path-AreDistinct :
      (path : String) (ref : ℕ) (ts : List (Tab P))
      → IsFree path ref ts
      → AreDistinct (keys ts)
      → AreDistinct (keys (write ref (with_path path) ts))
  write_path-AreDistinct path ref [] f d = tt
  write_path-AreDistinct path ref (t ∷ ts) (one, free) d = elim (Bool-cases (t.ref == ref)) [
    | inl e ↦
        let (a, b) = write-none path ref ts (let f = rw e at one in omega arith) in
        let g = rw (e, b) at free in rw (e, a, tab_key-with_path path t) (g, d.1)
    | inr e ↦
        let g = rw e at free in
        rw e (
          includes-write (tab_key t) path ref ts
              (ground (arith, eq_iff path (tab_key t), eq_iff (tab_key t) path)) d.0,
          write_path-AreDistinct path ref ts (rw e at one, ground arith) d.1,
        )
  ]

  pub update_tab_path-HasKeys :
      (path : String) (r : Tab P) (s : TabState P)
      → IsFree path r.ref s.tab_list
      → HasKeys s
      → HasKeys (update_tab_path path r s)
  unfolding update_tab_path update_cache_tab
  update_tab_path-HasKeys path r s f d = elim (Bool-cases (any (λ t. t.ref == r.ref) s.tab_list)) [
    | inl h ↦ rw h (write_path-AreDistinct path r.ref s.tab_list f d)
    | inr h ↦ rw h d
  ]
