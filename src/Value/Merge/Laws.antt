-- ===== src/Value/Merge/Laws.antt =====
-- utils/index.ts, `deepMerge`: what a merge reads, and that merging again changes nothing.
use kerthus.Base.{
  ◌≡◌, refl, sym, subst, ◌∙◌, inl, inr, String, str_eq, eq_iff, str_eq_refl, true, false, ◌||◌,
  Bool-cases, if◌then◌else◌, arith,
}
use kerthus.Value.{
  Value, undefined, null, bool, number, text, date, blob, func, array, object, Fields, no_fields,
  with_field, get, has, put,
}
use kerthus.Value.Maps.{get-put, has-put, get-absent}
use kerthus.Value.Merge.{put_all, merge_value, deep_merge}

-- The keys of an object differ from one another, at every depth.
unfoldable mutual
  pub IsCleanValue : Value → Type 0
  IsCleanValue (object g) = IsClean g
  IsCleanValue undefined = Unit
  IsCleanValue null = Unit
  IsCleanValue (bool b) = Unit
  IsCleanValue (number n) = Unit
  IsCleanValue (text s) = Unit
  IsCleanValue (date d) = Unit
  IsCleanValue (blob n) = Unit
  IsCleanValue (func n) = Unit
  IsCleanValue (array vs) = Unit

  pub IsClean : Fields → Type 0
  IsClean no_fields = Unit
  IsClean (with_field k v g) = (has k g ≡ false) × IsCleanValue v × IsClean g

-- The keys of one object.
abbrev pub IsApart : Fields → Type 0
IsApart no_fields = Unit
IsApart (with_field k v g) = (has k g ≡ false) × IsApart g

pub IsClean-IsApart : (g : Fields) → IsClean g → IsApart g
unfolding IsClean
IsClean-IsApart no_fields h = tt
IsClean-IsApart (with_field k v g) (n, c, h) = (n, IsClean-IsApart g h)

pub get-put_all :
    (indices : Value → Fields) (k : String) (g f : Fields)
    → IsApart g
    → (get k (put_all indices g f) ≡ (if has k g then get k g else get k f))
      × (has k (put_all indices g f) ≡ (has k g || has k f))
get-put_all indices k no_fields f h = (refl, refl)
get-put_all indices k (with_field q v g) f (n, h) =
    let (a, b) = get-put_all indices k g (put q v f) h in
    (
      ground (arith, a, get-put k q v f, eq_iff q k, get-absent k g),
      ground (arith, b, has-put k q v f),
    )

module _ (indices : Value → Fields) where
  deep_merge-field :
      (q : String) (v : Value) (g f : Fields)
      → deep_merge indices (with_field q v g) f
        ≡ deep_merge indices g (put q (merge_value indices v (get q f)) f)
  unfolding deep_merge
  deep_merge-field q v g f = refl

  -- What `deepMerge` has at a key.
  abbrev pub merged_at : String → Fields → Fields → Value
  merged_at k g f = if has k g then merge_value indices (get k g) (get k f) else get k f

  get-deep_merge_first :
      (q : String) (v : Value) (g f r : Fields)
      → has q g ≡ false
      → get q r ≡ merged_at q g (put q (merge_value indices v (get q f)) f)
      → get q r ≡ merged_at q (with_field q v g) f
  get-deep_merge_first q v g f r n e =
      let w : get q r ≡ get q (put q (merge_value indices v (get q f)) f) = rw n at e in
      let u : get q (put q (merge_value indices v (get q f)) f) ≡ merge_value indices v (get q f) =
        rw (str_eq_refl q) at (get-put q q (merge_value indices v (get q f)) f) in
      rw (str_eq_refl q) (w ∙ u)

  get-deep_merge_other :
      (q k : String) (v : Value) (g f r : Fields)
      → str_eq q k ≡ false
      → get k r ≡ merged_at k g (put q (merge_value indices v (get q f)) f)
      → get k r ≡ merged_at k (with_field q v g) f
  get-deep_merge_other q k v g f r t e =
      let u : get k (put q (merge_value indices v (get q f)) f) ≡ get k f =
        rw t at (get-put k q (merge_value indices v (get q f)) f) in
      rw t (rw u at e)

  -- `deepMerge` keeps the fields that the target does not name, and merges each of the others.
  pub get-deep_merge :
      (k : String) (g f : Fields)
      → IsApart g
      → (get k (deep_merge indices g f) ≡ merged_at k g f)
        × (has k (deep_merge indices g f) ≡ (has k g || has k f))
  unfolding deep_merge
  get-deep_merge k no_fields f h = (refl, refl)
  get-deep_merge k (with_field q v g) f (n, h) =
      let m = merge_value indices v (get q f) in
      let (a, b) = get-deep_merge k g (put q m f) h in
      (
        elim (Bool-cases (str_eq q k)) [
          | inl t ↦
              subst
                (λ j. get j (deep_merge indices g (put q m f)) ≡ merged_at j (with_field q v g) f)
                ((eq_iff q k).0 t)
                (get-deep_merge_first q v g f (deep_merge indices g (put q m f)) n (
                  subst (λ j. get j (deep_merge indices g (put q m f)) ≡ merged_at j g (put q m f))
                    (sym ((eq_iff q k).0 t)) a))
          | inr t ↦ get-deep_merge_other q k v g f (deep_merge indices g (put q m f)) t a
        ],
        ground (arith, b, has-put k q m f),
      )

  -- The target is in the object already, as the merge would leave it.
  abbrev pub IsIn : Fields → Fields → Fields → Type 0
  IsIn no_fields f full = Unit
  IsIn (with_field k v g) f full =
      (has k full ≡ true) × (get k full ≡ merge_value indices v (get k f)) × IsIn g f full

  pub IsIn-step :
      (f full g : Fields)
      → IsApart g
      → ((k : String)
          → has k g ≡ true
          → (has k full ≡ true) × (get k full ≡ merge_value indices (get k g) (get k f)))
      → IsIn g f full
  IsIn-step f full no_fields d h = tt
  IsIn-step f full (with_field k v g) (n, d) h =
      let (a, b) = h k (rw (str_eq_refl k)) in
      (
        a,
        rw (str_eq_refl k) at b,
        IsIn-step f full g d (λ j t. elim (Bool-cases (str_eq k j)) [
          | inl e ↦ cc (subst (λ i. has i g ≡ false) ((eq_iff k j).0 e) n)
          | inr e ↦ rw e at (h j (rw e t))
        ]),
      )
