-- ===== src/Routes/Url/Laws.antt =====
-- externalUrl.ts: what passes `externalUrl`, and that `isExternalDestination` knows it.
use Prim.Native.Char.{Char, code}
use kerthus.Base.{
  ◌≡◌, refl, sym, ap, ◌∙◌, ◌⊎◌, inl, inr, ℕ, String, Bool, true, false, ◌&&◌, ◌||◌, ◌==◌,
  Bool-cases, List, [], ◌∷◌, Option, none, some, if◌then◌else◌, arith,
}
use kerthus.Routes.Url.{
  is_space, is_unsafe, lower, trim_start, trim_end, trim, after, http, https, either_rest,
  after_scheme, names_host, has_unsafe, Location, passes, external_url, is_scheme, ends_scheme,
  is_destination, is_external_destination,
}

is_unsafe-space : (c : ℕ) → is_unsafe c ≡ false → is_space c ≡ false
unfolding is_unsafe
is_unsafe-space c h = ground arith

trim_end_cons :
    (c : Char) (s : String)
    → is_space (code c) ≡ false
    → trim_end s ≡ s
    → trim_end (String.◌∷◌ c s) ≡ String.◌∷◌ c s
unfolding trim_end
trim_end_cons c s h e = ground arith

-- A text without white space is trimmed.
trim_end-safe : (s : String) → has_unsafe s ≡ false → trim_end s ≡ s
unfolding has_unsafe trim_end
trim_end-safe String.[] h = refl
trim_end-safe (String.◌∷◌ c s) h = elim (Bool-cases (is_unsafe (code c))) [
  | inl t ↦ cc
  | inr t ↦ trim_end_cons c s (is_unsafe-space (code c) t) (trim_end-safe s (rw t at h))
]

trim_start-safe : (s : String) → has_unsafe s ≡ false → trim_start s ≡ s
unfolding has_unsafe trim_start
trim_start-safe String.[] h = refl
trim_start-safe (String.◌∷◌ c s) h = elim (Bool-cases (is_unsafe (code c))) [
  | inl t ↦ cc
  | inr t ↦ rw (is_unsafe-space (code c) t)
]

pub trim-safe : (s : String) → has_unsafe s ≡ false → trim s ≡ s
trim-safe s h = ap trim_end (trim_start-safe s h) ∙ trim_end-safe s h

scheme_lower : (c p : ℕ) → (lower c == p) ≡ true → is_scheme p ≡ true → is_scheme c ≡ true
unfolding lower is_scheme
scheme_lower c p h k = ground arith

scheme_colon : (c p : ℕ) → (lower c == p) ≡ true → (p == b':') ≡ true → (c == b':') ≡ true
unfolding lower
scheme_colon c p h k = ground arith

-- The codes of a beginning that is a scheme, up to its colon.
abbrev leads : List ℕ → Bool
leads [] = false
leads (p ∷ ps) = p == b':' || (is_scheme p && leads ps)

after-leads :
    (ps : List ℕ) (s r : String) → after ps s ≡ some r → leads ps ≡ true → ends_scheme s ≡ true
unfolding after ends_scheme
after-leads [] s r h k = cc
after-leads (p ∷ ps) String.[] r h k = cc
after-leads (p ∷ ps) (String.◌∷◌ c s) r h k =
    ground (arith, scheme_lower (code c) p, after-leads ps s r, scheme_colon (code c) p)

-- An input with the beginning of an address is a destination.
begins_h :
    (ps : List ℕ) (s r : String)
    → after (104 ∷ ps) s ≡ some r
    → leads ps ≡ true
    → is_destination s ≡ true
unfolding after is_destination lower
begins_h ps String.[] r h k = cc
begins_h ps (String.◌∷◌ c s) r h k = ground (arith, after-leads ps s r)

begins :
    (s : String) (o p : Option String)
    → after https s ≡ o
    → after http s ≡ p
    → names_host (either_rest o p) ≡ true
    → is_destination s ≡ true
unfolding is_scheme lower
begins s (some r) p e f h = begins_h (116 ∷ 116 ∷ 112 ∷ 115 ∷ 58 ∷ 47 ∷ 47 ∷ []) s r e refl
begins s none (some r) e f h = begins_h (116 ∷ 116 ∷ 112 ∷ 58 ∷ 47 ∷ 47 ∷ []) s r f refl
begins s none none e f h = cc

module _ (parse : String → Option Location) where
  -- What `external_url` answers for a trimmed input.
  abbrev checked : String → String
  checked s = if passes parse s then s else ""

  passes-safe : (s : String) → passes parse s ≡ true → has_unsafe s ≡ false
  passes-safe s h = ground arith

  passes-host : (s : String) → passes parse s ≡ true → names_host (after_scheme s) ≡ true
  passes-host s h = ground arith

  checked-cases : (s : String) → ((passes parse s ≡ true) × (checked s ≡ s)) ⊎ (checked s ≡ "")
  checked-cases s = elim (Bool-cases (passes parse s)) [
    | inl t ↦ inl (t, rw t)
    | inr t ↦ inr (rw t)
  ]

  checked_again : (s : String) → external_url parse (some (checked s)) ≡ checked s
  unfolding external_url trim_start trim_end after
  checked_again s = elim (checked-cases s) [
    | inl (t, e) ↦ ap (λ x. checked (trim x)) e ∙ ap checked (trim-safe s (passes-safe s t))
    | inr e ↦ ap (λ x. checked (trim x)) e ∙ sym e
  ]

  known : (s : String) → (checked s ≡ "") ⊎ (is_external_destination (checked s) ≡ true)
  unfolding is_external_destination
  known s = elim (checked-cases s) [
    | inl (t, e) ↦ inr (
        ap (λ x. is_destination (trim x)) e
        ∙ ap is_destination (trim-safe s (passes-safe s t))
        ∙ begins s (after https s) (after http s) refl refl (passes-host s t))
    | inr e ↦ inl e
  ]

  -- `externalUrl` answers "" or an address that it answers as it is when it is asked again, and that
  -- `isExternalDestination` takes for a destination outside the application.
  pub external_url_lem :
      (v : Option String)
      → (external_url parse (some (external_url parse v)) ≡ external_url parse v)
        × ((external_url parse v ≡ "") ⊎ (is_external_destination (external_url parse v) ≡ true))
  unfolding external_url after
  external_url_lem none = (checked_again "", inl refl)
  external_url_lem (some v) = (checked_again (trim v), known (trim v))
