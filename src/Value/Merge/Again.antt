-- ===== src/Value/Merge/Again.antt =====
-- utils/index.ts, `deepMerge`: merging a target a second time changes nothing.
use kerthus.Base.{
  ℕ, ◌≡◌, refl, sym, ap, subst, ◌∙◌, inl, inr, String, str_eq, eq_iff, str_eq_refl, true, false,
  Bool-cases,
}
use kerthus.Value.{
  Value, undefined, null, bool, number, text, date, blob, func, array, object, Fields, no_fields,
  with_field, get, has,
}
use kerthus.Value.Maps.{put-same}
use kerthus.Value.Merge.{
  merged_flat, merged_indexed, merged_date, merged_object, put_all, merge_value, deep_merge,
}
use kerthus.Value.Merge.Laws.{
  IsCleanValue, IsClean, IsApart, IsClean-IsApart, get-put_all, get-deep_merge, IsIn, IsIn-step,
}

-- The fields of the first object are among those of the second.
abbrev IsAmong : Fields → Fields → Type 0
IsAmong no_fields full = Unit
IsAmong (with_field k v g) full = (has k full ≡ true) × (get k full ≡ v) × IsAmong g full

IsAmong-step :
    (full g : Fields)
    → IsApart g
    → ((k : String) → has k g ≡ true → (has k full ≡ true) × (get k full ≡ get k g))
    → IsAmong g full
IsAmong-step full no_fields d h = tt
IsAmong-step full (with_field k v g) (n, d) h =
    let (a, b) = h k (rw (str_eq_refl k)) in
    (
      a,
      rw (str_eq_refl k) at b,
      IsAmong-step full g d (λ j t. elim (Bool-cases (str_eq k j)) [
        | inl e ↦ cc (subst (λ i. has i g ≡ false) ((eq_iff k j).0 e) n)
        | inr e ↦ rw e at (h j (rw e t))
      ]),
    )

IsAmong-refl : (g : Fields) → IsApart g → IsAmong g g
IsAmong-refl g d = IsAmong-step g g d (λ k h. (h, refl))

module _ (indices : Value → Fields) where
  put_all-among : (g full : Fields) → IsAmong g full → put_all indices g full ≡ full
  put_all-among no_fields full h = refl
  put_all-among (with_field k v g) full (a, b, h) =
      ap (put_all indices g) (put-same k v full a b) ∙ put_all-among g full h

  put_all_again :
      (g f : Fields) → IsApart g → put_all indices g (put_all indices g f) ≡ put_all indices g f
  put_all_again g f d = put_all-among g (put_all indices g f) (
      IsAmong-step (put_all indices g f) g d
        (λ k h. let (a, b) = get-put_all indices k g f d in (rw h at b, rw h at a)))

  flat_again :
      (v r : Value)
      → merged_flat indices v v ≡ v
      → merged_flat indices (merged_flat indices r v) v ≡ merged_flat indices r v
  flat_again v (object f) h = refl
  flat_again v (date d) h = refl
  flat_again v undefined h = h
  flat_again v null h = h
  flat_again v (bool b) h = h
  flat_again v (number n) h = h
  flat_again v (text s) h = h
  flat_again v (blob n) h = h
  flat_again v (func n) h = h
  flat_again v (array vs) h = h

  indexed_again :
      (v r : Value)
      → IsApart (indices v)
      → merged_indexed indices v v ≡ v
      → merged_indexed indices (merged_indexed indices r v) v ≡ merged_indexed indices r v
  indexed_again v (object f) d h = ap object (put_all_again (indices v) f d)
  indexed_again v (date n) d h = refl
  indexed_again v undefined d h = h
  indexed_again v null d h = h
  indexed_again v (bool b) d h = h
  indexed_again v (number n) d h = h
  indexed_again v (text s) d h = h
  indexed_again v (blob n) d h = h
  indexed_again v (func n) d h = h
  indexed_again v (array vs) d h = h

  date_again :
      (d : ℕ) (r : Value)
      → IsApart (indices (date d))
      → merged_date indices (merged_date indices r (date d)) (date d)
        ≡ merged_date indices r (date d)
  date_again d (object f) h = ap object (put_all_again (indices (date d)) f h)
  date_again d (date n) h = refl
  date_again d undefined h = refl
  date_again d null h = refl
  date_again d (bool b) h = refl
  date_again d (number n) h = refl
  date_again d (text s) h = refl
  date_again d (blob n) h = refl
  date_again d (func n) h = refl
  date_again d (array vs) h = refl

  object_again :
      (g : Fields) (r : Value) (merge : Fields → Fields)
      → merge g ≡ g
      → ((f : Fields) → merge (merge f) ≡ merge f)
      → merged_object indices (merged_object indices r g merge) g merge
        ≡ merged_object indices r g merge
  object_again g (object f) merge s h = ap object (h f)
  object_again g (date d) merge s h = refl
  object_again g undefined merge s h = ap object s
  object_again g null merge s h = ap object s
  object_again g (bool b) merge s h = ap object s
  object_again g (number n) merge s h = ap object s
  object_again g (text t) merge s h = ap object s
  object_again g (blob n) merge s h = ap object s
  object_again g (func n) merge s h = ap object s
  object_again g (array vs) merge s h = ap object s

  merged-IsIn : (g f : Fields) → IsApart g → IsIn indices g f (deep_merge indices g f)
  merged-IsIn g f d =
      IsIn-step indices f (deep_merge indices g f) g d
        (λ k h. let (a, b) = get-deep_merge indices k g f d in (rw h at b, rw h at a))

  module _ (apart : (v : Value) → IsApart (indices v)) where
    mutual
      unfolding merge_value IsClean

      value_self : (v : Value) → IsCleanValue v → merge_value indices v v ≡ v
      value_self (object g) c = ap object (self_in g g c (IsAmong-refl g (IsClean-IsApart g c)))
      value_self undefined c = refl
      value_self null c = refl
      value_self (bool b) c = refl
      value_self (number n) c = refl
      value_self (text s) c = refl
      value_self (date d) c = refl
      value_self (blob n) c = refl
      value_self (func n) c = refl
      value_self (array vs) c = refl

      -- What is among the fields of an object is merged into it without a change.
      self_in : (g full : Fields) → IsClean g → IsAmong g full → deep_merge indices g full ≡ full
      self_in no_fields full c h = refl
      self_in (with_field k v g) full (n, c, d) (a, b, h) =
          ap (deep_merge indices g) (
            put-same k (merge_value indices v (get k full)) full a
              (b ∙ sym (ap (merge_value indices v) b ∙ value_self v c)))
          ∙ self_in g full d h

    mutual
      unfolding merge_value IsClean

      value_again :
          (v r : Value)
          → IsCleanValue v
          → merge_value indices v (merge_value indices v r) ≡ merge_value indices v r
      value_again (object g) r c =
          object_again g r (deep_merge indices g)
            (self_in g g c (IsAmong-refl g (IsClean-IsApart g c)))
            (λ f. again_in g f (deep_merge indices g f) c (merged-IsIn g f (IsClean-IsApart g c)))
      value_again undefined r c = flat_again undefined r refl
      value_again null r c = flat_again null r refl
      value_again (bool b) r c = flat_again (bool b) r refl
      value_again (number n) r c = flat_again (number n) r refl
      value_again (text s) r c = indexed_again (text s) r (apart (text s)) refl
      value_again (date d) r c = date_again d r (apart (date d))
      value_again (blob n) r c = indexed_again (blob n) r (apart (blob n)) refl
      value_again (func n) r c = flat_again (func n) r refl
      value_again (array vs) r c = indexed_again (array vs) r (apart (array vs)) refl

      again_in :
          (g f full : Fields) → IsClean g → IsIn indices g f full → deep_merge indices g full ≡ full
      again_in no_fields f full c h = refl
      again_in (with_field k v g) f full (n, c, d) (a, b, h) =
          ap (deep_merge indices g) (
            put-same k (merge_value indices v (get k full)) full a
              (b ∙ sym (ap (merge_value indices v) b ∙ value_again v (get k f) c)))
          ∙ again_in g f full d h
