-- ===== src/Auth/Tests.antt =====
-- The guard on a first visit, and permissions of a user of the back end.
use kerthus.Base.{
  ◌≡◌, refl, ap, ◌⊎◌, inl, inr, String, str_eq, eq_iff, Bool, true, false, Bool-cases, List, [],
  ◌∷◌, includes, any, filter, arith,
}
use kerthus.Auth.Guard.{
  Target, Session, ok, Call, is_login, guard, after_load, enter, Admits, guard-Admits,
}
use kerthus.Auth.Permission.{
  Rights, back, many, IsIntersection, owns, has_permission, has_permission_many,
}

abbrev users_page : Target
users_page = record {
  path = "/users";
  full_path = "/users";
  name = "Users";
  ignore_auth = false;
  redirect = "";
}

abbrev visit : Session
visit = record {
  has_token = true;
  has_access_token = true;
  session_timeout = false;
  dynamic_added = false;
  fetched = true;
  home = "";
}

abbrev answers : Call
answers s = ok "/users"

abbrev exists : String → Bool
exists path = false

abbrev plain : String → String
plain s = s

users_admitted :
    Admits answers answers exists plain (guard answers answers exists plain users_page "" visit).0
unfolding guard after_load enter
users_admitted = inr refl

guard-Admits_example :
    (is_login users_page ≡ true)
    ⊎ ((true ≡ false) × (false ≡ true))
    ⊎ ((true ≡ true)
        × ((guard answers answers exists plain users_page "" visit).1.dynamic_added ≡ true))
guard-Admits_example = guard-Admits answers answers exists plain users_page "" visit users_admitted

abbrev shared : List String → List String → List String
shared xs ys = filter (λ s. includes s ys) xs

includes-shared : IsIntersection shared
includes-shared s [] ys = refl
includes-shared s (x ∷ xs) ys = elim (Bool-cases (str_eq x s)) [
  | inl e ↦
      let q : includes x ys ≡ includes s ys = ap (λ t. includes t ys) ((eq_iff x s).0 e) in
      ground (arith, includes-shared s xs ys)
  | inr e ↦ ground (arith, includes-shared s xs ys)
]

abbrev rights : Rights
rights = record { roles = []; permissions = "user:add" ∷ []; is_platform_admin = false }

has_permission_many_example :
    has_permission shared back (many ("user:del" ∷ "user:add" ∷ [])) true rights
    ≡ any (owns back rights) ("user:del" ∷ "user:add" ∷ [])
has_permission_many_example =
    has_permission_many shared includes-shared back "user:del" ("user:add" ∷ []) true rights
