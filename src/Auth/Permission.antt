-- ===== src/Auth/Permission.antt =====
-- usePermission.ts, `hasPermission`, with the getters of the store permission.ts as its state.
-- `intersection` is that of lodash-es.
use kerthus.Base.{
  ◌≡◌, refl, sym, ap, ◌∙◌, inl, inr, String, str_eq, str_eq_refl, eq_iff, Bool, true, false,
  Bool-cases, ◌||◌, ◌&&◌, List, [], ◌∷◌, includes, any, length, ltb, arith, if◌then◌else◌, is_empty,
}

pub data Mode : Type 0 where
  role back route_mapping : Mode

-- The argument `value`: missing, one text, or an array.
pub data Asked : Type 0 where
  nothing : Asked
  one : String → Asked
  many : List String → Asked

pub record Rights : Type 0 where
  pub roles : List String
  pub permissions : List String
  pub is_platform_admin : Bool

-- What the rights have of the texts asked for.
abbrev pub owns : Mode → Rights → String → Bool
owns role r s = includes s r.roles
owns route_mapping r s = includes s r.roles
owns back r s = r.is_platform_admin || includes s r.permissions

module _ (intersection : List String → List String → List String) where
  -- Both modes by roles, and the mode by codes behind the test for the administrator.
  abbrev has_any : Asked → List String → Bool
  has_any nothing owned = true
  has_any (one s) owned = includes s owned
  has_any (many ss) owned = ltb 0 (length (intersection ss owned))

  abbrev pub is_missing : Asked → Bool
  is_missing nothing = true
  is_missing (one s) = is_empty s
  is_missing (many ss) = false

  abbrev by_mode : Mode → Asked → Rights → Bool
  by_mode role value r = has_any value r.roles
  by_mode route_mapping value r = has_any value r.roles
  by_mode back value r = if r.is_platform_admin then true else has_any value r.permissions

  -- `def` is the answer where nothing is asked for.
  pub has_permission : Mode → Asked → Bool → Rights → Bool
  has_permission mode value def r = if is_missing value then def else by_mode mode value r

  -- The intersection has what both lists have.
  abbrev pub IsIntersection : Type 0
  IsIntersection =
      (s : String) (xs ys : List String)
      → includes s (intersection xs ys) ≡ (includes s xs && includes s ys)

any-of_includes :
    (p : String → Bool) (s : String) (ss : List String)
    → includes s ss ≡ true
    → p s ≡ true
    → any p ss ≡ true
any-of_includes p s [] h k = cc
any-of_includes p s (t ∷ ss) h k = elim (Bool-cases (str_eq t s)) [
  | inl e ↦ let q : p t ≡ true = ap p ((eq_iff t s).0 e) ∙ k in ground arith
  | inr e ↦ ground (arith, any-of_includes p s ss (rw e at h) k)
]

any-witness :
    (p : String → Bool) (ss : List String)
    → any p ss ≡ true
    → (s : String) × (includes s ss ≡ true) × (p s ≡ true)
any-witness p [] h = cc
any-witness p (t ∷ ss) h = elim (Bool-cases (p t)) [
  | inl e ↦ (t, rw (str_eq_refl t) refl, e)
  | inr e ↦ let (s, a, b) = any-witness p ss (rw e at h) in (s, ground arith, b)
]

nonempty-of_includes :
    (s : String) (xs : List String) → includes s xs ≡ true → ltb 0 (length xs) ≡ true
nonempty-of_includes s [] h = cc
nonempty-of_includes s (x ∷ xs) h = ground arith

module _ (intersection : List String → List String → List String)
    (law : IsIntersection intersection) where
  shared :
      (s : String) (ss owned xs : List String)
      → xs ≡ intersection ss owned
      → includes s xs ≡ (includes s ss && includes s owned)
  shared s ss owned xs e = ap (includes s) e ∙ law s ss owned

  none_shared :
      (ss owned xs : List String)
      → xs ≡ intersection ss owned
      → any (λ s. includes s owned) ss ≡ false
      → ltb 0 (length xs) ≡ false
  none_shared ss owned [] e h = refl
  none_shared ss owned (x ∷ xs) e h =
      let both = shared x ss owned (x ∷ xs) e in
      let here : includes x (x ∷ xs) ≡ true = rw (str_eq_refl x) refl in
      let k : any (λ s. includes s owned) ss ≡ true =
        any-of_includes (λ s. includes s owned) x ss (ground arith) (ground arith) in
      cc

  common-any :
      (ss owned : List String)
      → ltb 0 (length (intersection ss owned)) ≡ any (λ s. includes s owned) ss
  common-any ss owned = elim (Bool-cases (any (λ s. includes s owned) ss)) [
    | inl h ↦
        let (s, a, b) = any-witness (λ x. includes x owned) ss h in
        nonempty-of_includes s (intersection ss owned) (law s ss owned ∙ rw (a, b) refl) ∙ sym h
    | inr h ↦ none_shared ss owned (intersection ss owned) refl h ∙ sym h
  ]

  any-or :
      (b : Bool) (p : String → Bool) (s : String) (ss : List String)
      → (if b then true else any p (s ∷ ss)) ≡ any (λ x. b || p x) (s ∷ ss)
  any-or true p s ss = refl
  any-or false p s ss = refl

  -- `hasPermission` of an array that is not empty is true exactly if one of its texts is a role of the
  -- user, in the modes by roles, or one of the user's codes, in the mode of the back end, where the
  -- administrator of the platform has every code; the default does not matter.
  pub has_permission_many :
      (mode : Mode) (s : String) (ss : List String) (def : Bool) (r : Rights)
      → has_permission intersection mode (many (s ∷ ss)) def r ≡ any (owns mode r) (s ∷ ss)
  unfolding has_permission
  has_permission_many role s ss def r = common-any (s ∷ ss) r.roles
  has_permission_many route_mapping s ss def r = common-any (s ∷ ss) r.roles
  has_permission_many back s ss def r =
      ap (λ b. if r.is_platform_admin then true else b) (common-any (s ∷ ss) r.permissions)
      ∙ any-or r.is_platform_admin (λ x. includes x r.permissions) s ss
