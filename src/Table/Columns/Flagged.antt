-- ===== src/Table/Columns/Flagged.antt =====
-- useColumns.ts: the column of the indices, and the column of the actions.
use kerthus.Base.{
  ℕ, zero, suc, ◌-◌, ◌≤◌, ◌≡◌, refl, sym, ap, ◌∙◌, subst, Bool, true, false, not, ◌&&◌, Bool-cases,
  Option-cases, inl, inr, some, List, [], ◌∷◌, ◌++◌, if◌then◌else◌, ltb, filter, filter-append, any,
  any-append, find_index, length, append-nil, arith,
}
use kerthus.Table.Columns.{
  Flag, plain, index, action, is_action_flag, is_index_flag, Column, Side, left, nowhere,
  unshift_index, is_index, is_action, drop_index, index_loop, handle_index_column,
  handle_action_column,
}

action-index : (x : Flag) → is_action_flag x ≡ true → is_index_flag x ≡ false
action-index action h = refl
action-index plain h = cc
action-index index h = cc

module _ {ℓ} {A : Type ℓ} where
  abbrev pub other : Column A → Bool
  other c = not (is_index c)

  abbrev pub count_index : List (Column A) → ℕ
  count_index cs = length (filter is_index cs)

  abbrev pub is_plain : Column A → Bool
  is_plain c = not (is_action c) && other c

  plain-others :
      (cs : List (Column A))
      → filter is_plain cs ≡ filter (λ c. not (is_action c)) (filter other cs)
  plain-others [] = refl
  plain-others (c ∷ cs) = ground (arith, plain-others cs)

  any-count : (cs : List (Column A)) → any is_index cs ≡ ltb 0 (count_index cs)
  any-count [] = refl
  any-count (c ∷ cs) = ground (arith, any-count cs)

  -- A column of indices less, if there is one, and all others as they were.
  drop_index-count :
      (cs : List (Column A))
      → (count_index (drop_index cs) ≡ count_index cs - 1)
        × (filter other (drop_index cs) ≡ filter other cs)
  drop_index-count [] = (refl, refl)
  drop_index-count (c ∷ cs) = elim (Bool-cases (is_index c)) [
    | inl e ↦ (ground arith, ground arith)
    | inr e ↦
        let (a, b) = drop_index-count cs in
        elim (Option-cases (find_index is_index cs)) [
          | inl n ↦ (ground arith, ground arith)
          | inr (i, n) ↦ (ground arith, ground arith)
        ]
  ]

  show_loop :
      (n i : ℕ) (cs : List (Column A))
      → index_loop true n i (cs, not (any is_index cs)) ≡ (cs, not (any is_index cs))
  show_loop zero i cs = refl
  show_loop (suc n) i cs = elim (Bool-cases (ltb i (length cs))) [
    | inl e ↦ rw e (show_loop n (suc i) cs)
    | inr e ↦ rw e (show_loop n (suc i) cs)
  ]

  -- What the loop keeps where the column of the indices is not shown.
  record Hides (cs : List (Column A)) (b : Bool) (s : List (Column A) × Bool) : Type ℓ where
    same_flag : s.1 ≡ b
    fewer : count_index s.0 ≤ count_index cs
    others : filter other s.0 ≡ filter other cs

  hide_loop :
      (n i : ℕ) (cs : List (Column A)) (b : Bool) → Hides cs b (index_loop false n i (cs, b))
  hide_loop zero i cs b = record { same_flag = refl; fewer = omega arith; others = refl }
  hide_loop (suc n) i cs b = elim (Bool-cases (ltb i (length cs))) [
    | inl e ↦
        let h = hide_loop n (suc i) (drop_index cs) b in
        let (less, same) = drop_index-count cs in
        rw e (record {
          same_flag = h.same_flag;
          fewer = omega (arith, h.fewer, less);
          others = h.others ∙ same;
        })
    | inr e ↦ rw e (hide_loop n (suc i) cs b)
  ]

  first_round :
      (show : Bool) (c : Column A) (cs : List (Column A))
      → index_loop show (suc (length cs)) 0 (c ∷ cs, false)
        ≡ index_loop show
            (length cs)
            1
            (if show then (c ∷ cs, not (any is_index (c ∷ cs))) else (drop_index (c ∷ cs), false))
  first_round true c cs =
      let t : ltb 0 (length (c ∷ cs)) ≡ true = ground arith in
      ap
        (λ b.
          index_loop true (length cs) 1
            (if b then (c ∷ cs, not (any is_index (c ∷ cs))) else (c ∷ cs, false)))
        t
  first_round false c cs =
      let t : ltb 0 (length (c ∷ cs)) ≡ true = ground arith in
      ap
        (λ b.
          index_loop false (length cs) 1
            (if b then (drop_index (c ∷ cs), false) else (c ∷ cs, false)))
        t

  module _ (index_column : Side → Column A) where
    abbrev Counts : Bool → List (Column A) → List (Column A) → Type ℓ
    Counts show cs ds =
        (count_index ds ≡ (if show then 1 else 0)) × (filter other ds ≡ filter other cs)

    unshift-none : (s : List (Column A) × Bool) → s.1 ≡ false → unshift_index index_column s ≡ s.0
    unshift-none (cs, true) h = cc
    unshift-none (cs, false) h = refl

    shown-Counts :
        (cs : List (Column A))
        → ((side : Side) → is_index (index_column side) ≡ true)
        → count_index cs ≤ 1
        → Counts true cs (unshift_index index_column (cs, not (any is_index cs)))
    shown-Counts cs f h = elim (Bool-cases (any is_index cs)) [
      | inl e ↦ let k = any-count cs in rw e (ground arith, refl)
      | inr e ↦
          let k = any-count cs in
          rw e (ground (arith, f left, f nowhere), ground (arith, f left, f nowhere))
    ]

    hidden-Counts :
        (c : Column A) (cs : List (Column A))
        → count_index (c ∷ cs) ≤ 1
        → Counts false
            (c ∷ cs)
            (unshift_index index_column (index_loop false (suc (length cs)) 0 (c ∷ cs, false)))
    hidden-Counts c cs h =
        let l = hide_loop (length cs) 1 (drop_index (c ∷ cs)) false in
        let (less, same) = drop_index-count (c ∷ cs) in
        let s = index_loop false (length cs) 1 (drop_index (c ∷ cs), false) in
        let none_left : count_index s.0 ≡ 0 = omega (arith, l.fewer, less, h) in
        subst (Counts false (c ∷ cs))
          (sym
            (ap (unshift_index index_column) (first_round false c cs) ∙ unshift-none s l.same_flag))
          (none_left, l.others ∙ same)

    handle_index-Counts :
        (show : Bool) (c : Column A) (cs : List (Column A))
        → ((side : Side) → is_index (index_column side) ≡ true)
        → count_index (c ∷ cs) ≤ 1
        → Counts show (c ∷ cs) (handle_index_column index_column false show (c ∷ cs))
    unfolding handle_index_column
    handle_index-Counts true c cs f h =
        subst (λ s. Counts true (c ∷ cs) (unshift_index index_column s))
          (sym (first_round true c cs ∙ show_loop (length cs) 1 (c ∷ cs)))
          (shown-Counts (c ∷ cs) f h)
    handle_index-Counts false c cs f h = hidden-Counts c cs h

    action-Counts :
        (show : Bool) (action_column : Column A) (cs ds : List (Column A))
        → is_action action_column ≡ true
        → Counts show cs ds
        → let es = handle_action_column (some action_column) ds in
          (count_index es ≡ (if show then 1 else 0))
          × (any is_action es ≡ true)
          × (filter is_plain es ≡ filter is_plain cs)
    unfolding handle_action_column
    action-Counts show action_column cs ds a (k, l) =
        let unplain : is_plain action_column ≡ false = rw a refl in
        let same =
          plain-others ds ∙ ap (filter (λ c. not (is_action c))) l ∙ sym (plain-others cs) in
        elim (Bool-cases (any is_action ds)) [
          | inl e ↦ rw e (k, e, same)
          | inr e ↦ rw e (
            ap length (filter-append is_index ds (action_column ∷ []))
                ∙ ap (λ b. length (filter is_index ds ++ (if b then action_column ∷ [] else [])))
                    (action-index action_column.flag a)
                ∙ ap length (append-nil (filter is_index ds))
                ∙ k,
            any-append is_action ds (action_column ∷ []) ∙ rw (e, a) refl,
            filter-append is_plain ds (action_column ∷ [])
                ∙ ap (λ b. filter is_plain ds ++ (if b then action_column ∷ [] else [])) unplain
                ∙ append-nil (filter is_plain ds)
                ∙ same,
          )
        ]

    -- Where the array is no tree and has columns, and at most one column of indices, there is one behind
    -- `handleIndexColumn` and `handleActionColumn` if it is to be shown, and none otherwise; with an
    -- action column there is a column of actions; and all other columns are there, in their order.
    pub handle_columns_lem :
        (show : Bool) (action_column c : Column A) (cs : List (Column A))
        → ((side : Side) → is_index (index_column side) ≡ true)
        → (is_action action_column ≡ true)
        → count_index (c ∷ cs) ≤ 1
        → let ds =
            handle_action_column
              (some action_column)
              (handle_index_column index_column false show (c ∷ cs)) in
          (count_index ds ≡ (if show then 1 else 0))
          × (any is_action ds ≡ true)
          × (filter is_plain ds ≡ filter is_plain (c ∷ cs))
    handle_columns_lem show action_column c cs f a h =
        action-Counts show action_column (c ∷ cs)
          (handle_index_column index_column false show (c ∷ cs)) a
          (handle_index-Counts show c cs f h)
