-- ===== src/Tree/Ancestor.antt =====
-- treeHelper.ts, `getTopParentId`: from an entry of a flat list up to the ancestor at the top.
use native.Mathlib.Decide.{ℕ_discrete}
use kerthus.Base.{
  ℕ, zero, suc, ◌<◌, ◌≡◌, ◌≢◌, ap, ◌∙◌, ◌⊎◌, inl, inr, List, Option, none, some, arith, ◌==◌, ==_ne,
  if◌then◌else◌, All, All-find, find,
}

pub record Entry : Type 0 where
  pub id : ℕ
  pub pid : ℕ

-- `type_error` is the exception of a property access on `undefined`; `running` means that the loop
-- has not ended within the fuel.
pub data Outcome : Type 0 where
  returns : ℕ → Outcome
  type_error running : Outcome

abbrev with_id : ℕ → List Entry → Option Entry
with_id key = find (λ n. n.id == key)

-- The loop `while (parent[pid] !== 0)`, and what stands behind it.
climb : ℕ → List Entry → Option Entry → Outcome
climb zero list parent = running
climb (suc fuel) list none = type_error
climb (suc fuel) list (some p) =
    let next = climb fuel list (with_id p.pid list) in if p.pid == 0 then returns p.id else next

-- The body behind `currentNode = treeData.find(…)`.
above_entry : ℕ → List Entry → Option Entry → Outcome
above_entry fuel list none = type_error
above_entry fuel list (some c) =
    if c.pid == 0 then returns 0 else climb fuel list (with_id c.pid list)

pub get_top_parent_id : ℕ → List Entry → ℕ → Outcome
unfolding above_entry
get_top_parent_id fuel list current_id = above_entry fuel list (with_id current_id list)

-- Each entry refers to no parent, or to an entry of the list that stands lower in the ranking.
abbrev pub IsRanked : (ℕ → ℕ) → List Entry → Type 0
IsRanked rank list =
    All (λ n. (n.pid ≡ 0) ⊎ ((m : Entry) × (with_id n.pid list ≡ some m) × (rank m.id < rank n.id)))
      list

-- The steps from an entry to an ancestor.
pub data Above (list : List Entry) : Entry → Entry → Type 0 where
  self : (n : Entry) → Above list n n
  up : {n m r : Entry} → with_id n.pid list ≡ some m → Above list m r → Above list n r

module _ (rank : ℕ → ℕ) (list : List Entry) (ranked : IsRanked rank list) where
  abbrev Reaches : ℕ → Entry → Type 0
  Reaches fuel p =
      (r : Entry) × (climb fuel list (some p) ≡ returns r.id) × (r.pid ≡ 0) × Above list p r

  climb-step :
      (fuel : ℕ) (p m : Entry)
      → p.pid ≢ 0
      → with_id p.pid list ≡ some m
      → Reaches fuel m
      → Reaches (suc fuel) p
  unfolding climb
  climb-step fuel p m ne e (r, c, z, a) =
      (r, rw (==_ne p.pid 0 ne) (ap (climb fuel list) e ∙ c), z, up e a)

  climb-root : (fuel : ℕ) (p : Entry) → p.pid ≡ 0 → climb (suc fuel) list (some p) ≡ returns p.id
  unfolding climb
  climb-root fuel p z = ground arith

  climb_total :
      (fuel : ℕ) (p : Entry) (key : ℕ)
      → with_id key list ≡ some p
      → rank p.id < fuel
      → Reaches fuel p
  climb_total zero p key e h = absurd (omega arith)
  climb_total (suc fuel) p key e h = elim (All-find _ (λ n. n.id == key) list p ranked e) [
    | inl z ↦ (p, climb-root fuel p z, z, self p)
    | inr (m, f, l) ↦ elim (ℕ_discrete p.pid 0) [
      | yes z ↦ (p, climb-root fuel p z, z, self p)
      | no ne ↦ climb-step fuel p m ne f (climb_total fuel m p.pid f (omega arith))
    ]
  ]

  climb-from :
      (fuel current_id : ℕ) (c m : Entry)
      → with_id current_id list ≡ some c
      → with_id c.pid list ≡ some m
      → c.pid ≢ 0
      → Reaches fuel m
      → (r : Entry) × (get_top_parent_id fuel list current_id ≡ returns r.id)
        × (r.pid ≡ 0)
        × Above list c r
  unfolding get_top_parent_id
  climb-from fuel current_id c m e f ne (r, k, z, a) =
      (r, rw (e, above_entry, ==_ne c.pid 0 ne) (ap (climb fuel list) f ∙ k), z, up f a)

  -- In a ranked list `getTopParentId` ends for an entry of the list: with 0 if the entry has no
  -- parent, and otherwise with the id of an ancestor of the entry that has no parent.
  pub get_top_parent_id_lem :
      (fuel : ℕ) (current_id : ℕ) (c : Entry)
      → with_id current_id list ≡ some c
      → rank c.id < fuel
      → ((c.pid ≡ 0) × (get_top_parent_id fuel list current_id ≡ returns 0))
        ⊎ ((r : Entry) × (get_top_parent_id fuel list current_id ≡ returns r.id)
            × (r.pid ≡ 0)
            × Above list c r)
  unfolding get_top_parent_id
  get_top_parent_id_lem fuel current_id c e h =
      elim (All-find _ (λ n. n.id == current_id) list c ranked e) [
        | inl z ↦ inl (z, rw e (ground arith))
        | inr (m, f, l) ↦ elim (ℕ_discrete c.pid 0) [
          | yes z ↦ inl (z, rw e (ground arith))
          | no ne ↦
              inr (climb-from fuel current_id c m e f ne (climb_total fuel m c.pid f (omega arith)))
        ]
      ]
