-- ===== src/Table/Columns/Order.antt =====
-- useColumns.ts: the order of the columns by `sortFixedColumn` and `setColumns`.
use mathlib.Core.Path.{ap₂}
use mathlib.Core.List.{Perm, perm_middle}
use mathlib.Core.List.Perm
use kerthus.Base.{
  ℕ, suc, ◌≤◌, ◌≡◌, refl, sym, ◌∙◌, subst, String, str_eq, is_empty, or_text, Bool, true, false,
  not, ◌&&◌, Bool-cases, inl, inr, List, [], ◌∷◌, ◌++◌, map, if◌then◌else◌, leb, filter,
  filter-append, includes, All, arith, append-nil, append_assoc, find_index, or_else,
}
use mathlib.Core.Option
use kerthus.Table.Columns.{
  Side, left, right, nowhere, is_left_side, is_right_side, Column, is_left, is_right, sort_loop,
  sort_fixed_column,
}

abbrev pub same_texts : List String → List String → Bool
same_texts [] [] = true
same_texts [] (t ∷ ts) = false
same_texts (s ∷ ss) [] = false
same_texts (s ∷ ss) (t ∷ ts) = str_eq s t && same_texts ss ts

left-right : (x : Side) → is_left_side x ≡ true → is_right_side x ≡ false
left-right left h = refl
left-right right h = cc
left-right nowhere h = cc

module _ {ℓ} {A : Type ℓ} where
  abbrev pub is_shown : Column A → Bool
  is_shown c = not c.default_hidden

  abbrev pub is_between : Column A → Bool
  is_between c = not (is_left c) && not (is_right c)

  sort_loop-filter :
      (ls ds rs cs : List (Column A))
      → sort_loop ls ds rs cs
        ≡ filter is_shown (
            (ls ++ filter is_left cs)
            ++ ((ds ++ filter is_between cs) ++ (rs ++ filter is_right cs)))
  sort_loop-filter ls ds rs [] = simp (append-nil)
  sort_loop-filter ls ds rs (c ∷ cs) = elim (Bool-cases (is_left c)) [
    | inl l ↦
        let r = left-right c.fixed l in
        ground (
          arith,
          sort_loop-filter (ls ++ c ∷ []) ds rs cs,
          append_assoc ls (c ∷ []) (filter is_left cs),
        )
    | inr l ↦ elim (Bool-cases (is_right c)) [
      | inl r ↦ ground (
        arith,
        sort_loop-filter ls ds (rs ++ c ∷ []) cs,
        append_assoc rs (c ∷ []) (filter is_right cs),
      )
      | inr r ↦ ground (
        arith,
        sort_loop-filter ls (ds ++ c ∷ []) rs cs,
        append_assoc ds (c ∷ []) (filter is_between cs),
      )
    ]
  ]

  filter_comm :
      (p q : Column A → Bool) (cs : List (Column A))
      → filter p (filter q cs) ≡ filter q (filter p cs)
  filter_comm p q [] = refl
  filter_comm p q (c ∷ cs) = ground (arith, filter_comm p q cs)

  three-perm :
      (cs : List (Column A))
      → Perm (filter is_left cs ++ (filter is_between cs ++ filter is_right cs)) cs
  three-perm [] = Perm.refl []
  three-perm (c ∷ cs) =
      let rest = filter is_between cs ++ filter is_right cs in
      let in_between =
        Perm.trans (perm_middle {a = c} (filter is_left cs) rest) (Perm.cons c (three-perm cs)) in
      elim (Bool-cases (is_left c)) [
        | inl l ↦ rw (l, left-right c.fixed l) (Perm.cons c (three-perm cs))
        | inr l ↦ elim (Bool-cases (is_right c)) [
          | inl r ↦
              rw (l, r)
                (Perm.trans
                  (Perm.append_left (filter is_left cs)
                    (perm_middle (filter is_between cs) (filter is_right cs)))
                  in_between)
          | inr r ↦ rw (l, r) in_between
        ]
      ]

  -- The columns that are shown, with those that are fixed to the left first, and those that are fixed
  -- to the right last, and each group in the order that it had; no column is lost or added.
  pub sort_fixed_column_lem :
      (cs : List (Column A))
      → (sort_fixed_column cs
          ≡ filter is_left (filter is_shown cs)
            ++ (filter is_between (filter is_shown cs) ++ filter is_right (filter is_shown cs)))
        × Perm (sort_fixed_column cs) (filter is_shown cs)
  unfolding sort_fixed_column
  sort_fixed_column_lem cs =
      let e =
        sort_loop-filter [] [] [] cs
        ∙ filter-append is_shown (filter is_left cs) (filter is_between cs ++ filter is_right cs)
        ∙ ap₂ (◌++◌) (filter_comm is_shown is_left cs) (
            filter-append is_shown (filter is_between cs) (filter is_right cs)
            ∙ ap₂ (◌++◌) (filter_comm is_shown is_between cs) (filter_comm is_shown is_right cs)) in
      (e, subst (λ xs. Perm xs (filter is_shown cs)) (sym e) (three-perm (filter is_shown cs)))

  -- `item.dataIndex?.toString() || item.key`
  abbrev pub name_of : Column A → String
  name_of c = or_text c.data_index c.key

  -- `columnKeys.indexOf(item.dataIndex)`, one more than in the language.
  abbrev pub rank : List String → Column A → ℕ
  rank keys c =
      if is_empty c.data_index
      then 0
      else or_else (Option.map suc (find_index (λ k. str_eq k c.data_index) keys)) 0

  abbrev pub insert_by : List String → Column A → List (Column A) → List (Column A)
  insert_by keys c [] = c ∷ []
  insert_by keys c (d ∷ ds) =
      if leb (rank keys c) (rank keys d) then c ∷ d ∷ ds else d ∷ insert_by keys c ds

  -- The stable sort of the language by `rank`.
  abbrev pub sort_by : List String → List (Column A) → List (Column A)
  sort_by keys [] = []
  sort_by keys (c ∷ cs) = insert_by keys c (sort_by keys cs)

  abbrev pub with_hidden : List String → Column A → Column A
  with_hidden keys c = record c { default_hidden = not (includes (name_of c) keys) }

  abbrev order_by : List String → List (Column A) → List (Column A) → List (Column A)
  order_by keys cache cs =
      if same_texts (map (λ c. c.data_index) cache) keys then cs else sort_by keys cs

  -- `setColumns` with keys; `cache` is `cacheColumns`.
  unfoldable pub set_columns : List String → List (Column A) → List (Column A)
  set_columns [] cache = []
  set_columns (k ∷ ks) cache = order_by (k ∷ ks) cache (map (with_hidden (k ∷ ks)) cache)

  insert_by-perm :
      (keys : List String) (c : Column A) (ds : List (Column A))
      → Perm (insert_by keys c ds) (c ∷ ds)
  insert_by-perm keys c [] = Perm.refl (c ∷ [])
  insert_by-perm keys c (d ∷ ds) = elim (Bool-cases (leb (rank keys c) (rank keys d))) [
    | inl e ↦ rw e (Perm.refl (c ∷ d ∷ ds))
    | inr e ↦ rw e (Perm.trans (Perm.cons d (insert_by-perm keys c ds)) (Perm.swap c d ds))
  ]

  abbrev pub IsSorted : List String → List (Column A) → Type 0
  IsSorted keys [] = Unit
  IsSorted keys (c ∷ cs) = All (λ d. rank keys c ≤ rank keys d) cs × IsSorted keys cs

  insert_by-All :
      (keys : List String) (n : ℕ) (c : Column A) (ds : List (Column A))
      → n ≤ rank keys c
      → All (λ d. n ≤ rank keys d) ds
      → All (λ d. n ≤ rank keys d) (insert_by keys c ds)
  insert_by-All keys n c [] h k = (h, tt)
  insert_by-All keys n c (d ∷ ds) h (k, ks) = elim (Bool-cases (leb (rank keys c) (rank keys d))) [
    | inl e ↦ rw e (h, (k, ks))
    | inr e ↦ rw e (k, insert_by-All keys n c ds h ks)
  ]

  All-le :
      (keys : List String) (m n : ℕ) (ds : List (Column A))
      → m ≤ n
      → All (λ d. n ≤ rank keys d) ds
      → All (λ d. m ≤ rank keys d) ds
  All-le keys m n [] h k = tt
  All-le keys m n (d ∷ ds) h (k, ks) = (omega arith, All-le keys m n ds h ks)

  insert_by-IsSorted :
      (keys : List String) (c : Column A) (ds : List (Column A))
      → IsSorted keys ds
      → IsSorted keys (insert_by keys c ds)
  insert_by-IsSorted keys c [] h = (tt, tt)
  insert_by-IsSorted keys c (d ∷ ds) (h, hs) = elim (Bool-cases (leb (rank keys c) (rank keys d))) [
    | inl e ↦
        let le : rank keys c ≤ rank keys d = ground arith in
        rw e ((le, All-le keys (rank keys c) (rank keys d) ds le h), (h, hs))
    | inr e ↦
        let le : rank keys d ≤ rank keys c = ground arith in
        rw e (insert_by-All keys (rank keys d) c ds le h, insert_by-IsSorted keys c ds hs)
  ]

  sort_by-perm : (keys : List String) (cs : List (Column A)) → Perm (sort_by keys cs) cs
  sort_by-perm keys [] = Perm.refl []
  sort_by-perm keys (c ∷ cs) =
      Perm.trans (insert_by-perm keys c (sort_by keys cs)) (Perm.cons c (sort_by-perm keys cs))

  sort_by-IsSorted : (keys : List String) (cs : List (Column A)) → IsSorted keys (sort_by keys cs)
  sort_by-IsSorted keys [] = tt
  sort_by-IsSorted keys (c ∷ cs) =
      insert_by-IsSorted keys c (sort_by keys cs) (sort_by-IsSorted keys cs)

  -- `setColumns` with keys keeps every column of the cache, hides those that no key names and shows
  -- the others; where the keys are not just those of the cache in its order, the columns stand in the
  -- order of the keys behind those that have no key in them.
  pub set_columns_lem :
      (k : String) (ks : List String) (cache : List (Column A))
      → Perm (set_columns (k ∷ ks) cache) (map (with_hidden (k ∷ ks)) cache)
        × ((same_texts (map (λ c. c.data_index) cache) (k ∷ ks) ≡ false)
            → IsSorted (k ∷ ks) (set_columns (k ∷ ks) cache))
  unfolding set_columns
  set_columns_lem k ks cache =
      elim (Bool-cases (same_texts (map (λ c. c.data_index) cache) (k ∷ ks))) [
        | inl e ↦ rw e (Perm.refl (map (with_hidden (k ∷ ks)) cache), λ h. cc)
        | inr e ↦ rw e (
          sort_by-perm (k ∷ ks) (map (with_hidden (k ∷ ks)) cache),
          λ h. sort_by-IsSorted (k ∷ ks) (map (with_hidden (k ∷ ks)) cache),
        )
      ]
