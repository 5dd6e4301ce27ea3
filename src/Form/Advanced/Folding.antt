-- ===== src/Form/Advanced/Folding.antt =====
-- useAdvanced.ts: the fields that are seen when the form is folded.
use kerthus.Base.{
  ℕ, ◌+◌, ◌*◌, ◌≤◌, ◌<◌, ◌≡◌, refl, ap, inl, inr, String, Bool, true, false, Bool-cases, List, [],
  ◌∷◌, ◌++◌, All, leb, arith,
}
use kerthus.Form.Advanced.{
  Props, Schema, AdvanceState, or_num, basic_col_len, is_seen, width_of, lay_out,
}

abbrev pub IsSeen : String × Bool → Type 0
IsSeen e = e.1 ≡ true

abbrev pub IsHidden : String × Bool → Type 0
IsHidden e = e.1 ≡ false

-- The fields that are seen stand in front of those that are hidden.
abbrev pub IsFolded : List (String × Bool) → Type 0
IsFolded fields =
    (xs : List (String × Bool)) × (ys : List (String × Bool)) × (fields ≡ xs ++ ys)
    × All IsSeen xs
    × All IsHidden ys

module _ (props : Props) (width : ℕ) (s : AdvanceState) (folded : s.is_advanced ≡ false) where
  abbrev pub room : ℕ
  room = basic_col_len * or_num props.always_show_lines 1

  is_seen-room : (sum : ℕ) → sum ≤ room → is_seen props s sum ≡ true
  unfolding is_seen
  is_seen-room sum h = ground arith

  is_seen-over : (sum : ℕ) → room < sum → is_seen props s sum ≡ false
  unfolding is_seen
  is_seen-over sum h = ground arith

  -- Behind the room no field is seen.
  over :
      (xs : List Schema) (sum real : ℕ)
      → room < sum
      → All IsHidden (lay_out props width s xs sum real).fields
        × ((lay_out props width s xs sum real).real_item_col_sum ≡ real)
  unfolding lay_out
  over [] sum real h = (tt, refl)
  over (x ∷ xs) sum real h = elim (Bool-cases x.is_show) [
    | inl e ↦
        let sum' = sum + width_of props width s x in
        let n = is_seen-over sum' (omega arith) in
        let (a, b) = over xs sum' real (omega arith) in rw (e, n) ((refl, a), b)
    | inr e ↦ rw e (over xs sum real h)
  ]

  -- A field that is seen in front of the others.
  one_seen :
      (e : String × Bool) (fields : List (String × Bool))
      → IsSeen e
      → IsFolded fields
      → IsFolded (e ∷ fields)
  one_seen e fields h (xs, ys, q, a, b) = (e ∷ xs, ys, ap (e ∷◌) q, (h, a), b)

  within :
      (xs : List Schema) (sum real : ℕ)
      → sum ≤ room
      → real ≤ room
      → IsFolded (lay_out props width s xs sum real).fields
        × ((lay_out props width s xs sum real).real_item_col_sum ≤ room)
  unfolding lay_out
  within [] sum real h k = (([], [], refl, tt, tt), k)
  within (x ∷ xs) sum real h k = elim (Bool-cases x.is_show) [
    | inr e ↦ rw e (within xs sum real h k)
    | inl e ↦
        let sum' = sum + width_of props width s x in
        elim (Bool-cases (leb sum' room)) [
          | inl l ↦
              let m : sum' ≤ room = ground arith in
              let n = is_seen-room sum' m in
              let (a, b) = within xs sum' sum' m m in
              rw (e, n)
                (one_seen (x.field, true) (lay_out props width s xs sum' sum').fields refl a, b)
          | inr l ↦
              let m : room < sum' = ground arith in
              let n = is_seen-over sum' m in
              let (a, b) = over xs sum' real m in
              rw (e, n)
                (
                  (
                    [],
                    (x.field, false) ∷ (lay_out props width s xs sum' real).fields,
                    refl,
                    tt,
                    (refl, a),
                  ),
                  omega arith,
                )
        ]
  ]

  -- When the form is folded, the fields that are seen are a first part of those that are shown, and
  -- the last of them ends within the lines that are always shown.
  pub lay_out-IsFolded :
      (schemas : List Schema)
      → IsFolded (lay_out props width s schemas 0 0).fields
        × ((lay_out props width s schemas 0 0).real_item_col_sum
            ≤ basic_col_len * or_num props.always_show_lines 1)
  lay_out-IsFolded schemas = within schemas 0 0 (omega arith) (omega arith)
