-- ===== src/Form/Values/Ranges.antt =====
-- useFormValues.ts, `handleRangeTimeValue`: the fields of the ranges are taken apart.
use mathlib.Core.Option
use kerthus.Base.{
  ◌≡◌, refl, ap, ◌∙◌, inl, inr, String, str_eq, is_empty, Bool, true, false, not, ◌&&◌, ◌||◌,
  Bool-cases, Option-cases, List, [], ◌∷◌, none, some, ◌==◌, any, All, if◌then◌else◌, arith,
}
use kerthus.Value.{
  Value, undefined, null, bool, number, text, date, blob, func, array, object, Values, Fields, get,
  has, put, erase, is_true,
}
use kerthus.Value.Maps.{get-put, has-put, get-erase, has-erase}
use kerthus.Form.Values.{Range, nth, two_of, with_times, handle_range, handle_range_time_value}

-- The arrays and the texts can be taken apart, and what is falsy is dropped; a date, a file, a function,
-- an object, a number but 0 and `true` are neither.
abbrev pub is_iterable : Value → Bool
is_iterable undefined = true
is_iterable null = true
is_iterable (bool b) = not b
is_iterable (number n) = n == 0
is_iterable (text s) = true
is_iterable (date n) = false
is_iterable (blob n) = false
is_iterable (func n) = false
is_iterable (array vs) = true
is_iterable (object f) = false

abbrev pub is_complete : Range → Bool
is_complete r = not (is_empty r.field || is_empty r.start_key || is_empty r.end_key)

-- A key that a range writes to.
abbrev pub is_written : String → Range → Bool
is_written q r = str_eq r.start_key q || str_eq r.end_key q

abbrev pub is_mapped : String → Range → Bool
is_mapped q r = is_complete r && str_eq r.field q

module _ (format_date : Value → String → String) where
  -- What one range leaves.
  record Taken (r : Range) (f g : Fields) : Type 0 where
    pub result : handle_range format_date r f ≡ some g
    pub iterable : (k : String) → is_iterable (get k f) ≡ true → is_iterable (get k g) ≡ true
    pub absent : (q : String) → has q f ≡ false → is_written q r ≡ false → has q g ≡ false
    pub taken : (q : String) → is_mapped q r ≡ true → has q g ≡ false

  abbrev timed : Range → Values → Fields → Fields
  timed r vs f = erase r.field (
      put r.end_key (text (format_date (nth vs 1) r.end_format))
        (put r.start_key (text (format_date (nth vs 0) r.start_format)) f))

  iterable_text : (s : String) → is_iterable (text s) ≡ true
  iterable_text s = refl

  get-timed :
      (r : Range) (vs : Values) (f : Fields) (k : String)
      → get k (timed r vs f) ≡ (
          if str_eq r.field k
          then undefined
          else if str_eq r.end_key k
          then text (format_date (nth vs 1) r.end_format)
          else if str_eq r.start_key k
          then text (format_date (nth vs 0) r.start_format)
          else get k f)
  get-timed r vs f k =
      rw (get-erase k r.field _, get-put k r.end_key _ _, get-put k r.start_key _ f) refl

  has-timed :
      (r : Range) (vs : Values) (f : Fields) (k : String)
      → has k (timed r vs f) ≡ (
          if str_eq r.field k
          then false
          else (has k f || str_eq r.start_key k) || str_eq r.end_key k)
  has-timed r vs f k =
      rw (has-erase k r.field _, has-put k r.end_key _ _, has-put k r.start_key _ f) refl

  timed-Taken :
      (r : Range) (vs : Values) (f : Fields)
      → handle_range format_date r f ≡ some (timed r vs f)
      → Taken r f (timed r vs f)
  timed-Taken r vs f e = record {
    result = e;
    iterable = λ k h. elim (Bool-cases (str_eq r.field k)) [
      | inl t ↦ rw (get-timed r vs f k, t) refl
      | inr t ↦
          rw (get-timed r vs f k, t)
            (elim (Bool-cases (str_eq r.end_key k)) [
              | inl u ↦ rw u (iterable_text (format_date (nth vs 1) r.end_format))
              | inr u ↦ rw u (elim (Bool-cases (str_eq r.start_key k)) [
                | inl w ↦ rw w (iterable_text (format_date (nth vs 0) r.start_format))
                | inr w ↦ rw w h
              ])
            ])
    ];
    absent = λ q h w. ground (arith, has-timed r vs f q);
    taken = λ q h. ground (arith, has-timed r vs f q);
  }

  erased-Taken :
      (r : Range) (f : Fields)
      → handle_range format_date r f ≡ some (erase r.field f)
      → Taken r f (erase r.field f)
  erased-Taken r f e = record {
    result = e;
    iterable = λ k h. elim (Bool-cases (str_eq r.field k)) [
      | inl t ↦ rw (get-erase k r.field f, t) refl
      | inr t ↦ rw (get-erase k r.field f, t) h
    ];
    absent = λ q h w. ground (arith, has-erase q r.field f);
    taken = λ q h. ground (arith, has-erase q r.field f);
  }

  kept-Taken :
      (r : Range) (f : Fields)
      → is_complete r ≡ false
      → handle_range format_date r f ≡ some f
      → Taken r f f
  kept-Taken r f c e = record {
    result = e;
    iterable = λ k h. h;
    absent = λ q h w. h;
    taken = λ q h. ground (arith, c);
  }

  falsy_lem :
      (r : Range) (f : Fields)
      → is_complete r ≡ true
      → is_true (get r.field f) ≡ false
      → handle_range format_date r f ≡ some (erase r.field f)
  unfolding handle_range
  falsy_lem r f c t = ground (arith, c, t)

  handle_range-with_times :
      (r : Range) (f : Fields)
      → is_complete r ≡ true
      → is_true (get r.field f) ≡ true
      → handle_range format_date r f ≡ with_times format_date r f (two_of (get r.field f))
  unfolding handle_range
  handle_range-with_times r f c t = ground (arith, c, t)

  incomplete_lem :
      (r : Range) (f : Fields) → is_complete r ≡ false → handle_range format_date r f ≡ some f
  unfolding handle_range
  incomplete_lem r f c = ground (arith, c)

  not_iterable : (v : Value) → is_iterable v ≡ true → is_true v ≡ true → two_of v ≡ none → ⊥
  not_iterable undefined h t n = cc
  not_iterable null h t n = cc
  not_iterable (bool true) h t n = cc
  not_iterable (bool false) h t n = cc
  not_iterable (number x) h t n = ground (arith, h, t)
  not_iterable (text s) h t n = cc
  not_iterable (date x) h t n = cc
  not_iterable (blob x) h t n = cc
  not_iterable (func x) h t n = cc
  not_iterable (array vs) h t n = cc
  not_iterable (object f) h t n = cc

  handle_range-Taken :
      (r : Range) (f : Fields) → is_iterable (get r.field f) ≡ true → (g : Fields) × Taken r f g
  handle_range-Taken r f h = elim (Bool-cases (is_complete r)) [
    | inr c ↦ (f, kept-Taken r f c (incomplete_lem r f c))
    | inl c ↦ elim (Bool-cases (is_true (get r.field f))) [
      | inr t ↦ (erase r.field f, erased-Taken r f (falsy_lem r f c t))
      | inl t ↦ elim (Option-cases (two_of (get r.field f))) [
        | inl n ↦ absurd (not_iterable (get r.field f) h t n)
        | inr v ↦ (
          timed r v.0 f,
          timed-Taken r v.0 f
              (handle_range-with_times r f c t ∙ ap (with_times format_date r f) v.1),
        )
      ]
    ]
  ]

  -- What the ranges leave together.
  record AllTaken (rs : List Range) (f g : Fields) : Type 0 where
    pub result : handle_range_time_value format_date rs f ≡ some g
    pub absent : (q : String) → has q f ≡ false → any (is_written q) rs ≡ false → has q g ≡ false
    pub taken :
        (q : String) → any (is_mapped q) rs ≡ true → any (is_written q) rs ≡ false → has q g ≡ false

  no_range : (f : Fields) → AllTaken [] f f
  unfolding handle_range_time_value
  no_range f = record { result = refl; absent = λ q h w. h; taken = λ q h w. cc }

  next_result :
      (r : Range) (rs : List Range) (f g h : Fields)
      → handle_range format_date r f ≡ some g
      → handle_range_time_value format_date rs g ≡ some h
      → handle_range_time_value format_date (r ∷ rs) f ≡ some h
  unfolding handle_range_time_value Option.bind
  next_result r rs f g h e d = rw e d

  next_range :
      (r : Range) (rs : List Range) (f g h : Fields)
      → Taken r f g
      → AllTaken rs g h
      → AllTaken (r ∷ rs) f h
  next_range r rs f g h t a = record {
    result = next_result r rs f g h t.result a.result;
    absent = λ q x w. a.absent q (t.absent q x (ground (arith, w))) (ground (arith, w));
    taken = λ q x w. elim (Bool-cases (is_mapped q r)) [
      | inl m ↦ a.absent q (t.taken q m) (ground (arith, w))
      | inr m ↦ a.taken q (ground (arith, x, m)) (ground (arith, w))
    ];
  }

  iterable_all :
      (r : Range) (f g : Fields) (rs : List Range)
      → Taken r f g
      → All (λ s. is_iterable (get s.field f) ≡ true) rs
      → All (λ s. is_iterable (get s.field g) ≡ true) rs
  iterable_all r f g [] t h = tt
  iterable_all r f g (s ∷ rs) t h = (t.iterable s.field h.0, iterable_all r f g rs t h.1)

  all-AllTaken :
      (rs : List Range) (f : Fields)
      → All (λ r. is_iterable (get r.field f) ≡ true) rs
      → (g : Fields) × AllTaken rs f g
  all-AllTaken [] f h = (f, no_range f)
  all-AllTaken (r ∷ rs) f h =
      let one = handle_range-Taken r f h.0 in
      let rest = all-AllTaken rs one.0 (iterable_all r f one.0 rs one.1 h.1) in
      (rest.0, next_range r rs f one.0 rest.0 one.1 rest.1)

  -- Where the fields of the ranges are arrays, texts or falsy, the ranges end without an exception. A
  -- field of a complete range is not left, if no range writes to this field.
  pub handle_range_time_value_lem :
      (rs : List Range) (f : Fields) (q : String)
      → All (λ r. is_iterable (get r.field f) ≡ true) rs
      → any (is_mapped q) rs ≡ true
      → any (is_written q) rs ≡ false
      → (g : Fields) × (handle_range_time_value format_date rs f ≡ some g) × (has q g ≡ false)
  handle_range_time_value_lem rs f q h m w =
      let all = all-AllTaken rs f h in (all.0, all.1.result, all.1.taken q m w)
