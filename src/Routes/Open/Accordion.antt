-- ===== src/Routes/Open/Accordion.antt =====
-- useOpenKeys.ts, `handleOpenChange`: the accordion of the root submenus.
use kerthus.Base.{
  ◌≡◌, refl, ap, ◌≤◌, String, str_eq, Bool, true, false, not, Bool-cases, inl, inr, List, [], ◌∷◌,
  ◌++◌, none, some, includes, is_empty, find, filter, filter-append, length, append-nil,
  str_eq_refl, if◌then◌else◌, arith, All,
}
use kerthus.Routes.Open.{Opened, Mode, handle_open_change, keys_behind}

-- The root submenus that are open.
abbrev pub open_roots : List String → List String → List String
open_roots roots keys = filter (λ key. includes key roots) keys

-- What the menu reports for a click on a submenu: its key is taken out, or put behind the others.
abbrev pub clicked : String → List String → List String
clicked key keys =
    if includes key keys then filter (λ k. not (str_eq k key)) keys else keys ++ key ∷ []

open_roots-filter :
    (roots : List String) (p : String → Bool) (keys : List String)
    → length (open_roots roots (filter p keys)) ≤ length (open_roots roots keys)
open_roots-filter roots p [] = omega arith
open_roots-filter roots p (k ∷ ks) = ground (arith, open_roots-filter roots p ks)

-- No key is new in a list whose keys were there.
find-none :
    (p q : String → Bool) (keys : List String)
    → All (λ k. q k ≡ false) keys
    → find q (filter p keys) ≡ none
find-none p q [] h = refl
find-none p q (k ∷ ks) h = ground (arith, find-none p q ks h.1)

find-behind :
    (q : String → Bool) (key : String) (keys : List String)
    → All (λ k. q k ≡ false) keys
    → q key ≡ true
    → find q (keys ++ key ∷ []) ≡ some key
find-behind q key [] h k = rw k
find-behind q key (x ∷ keys) h k = rw h.0 (find-behind q key keys h.1 k)

included :
    (keys all : List String)
    → ((k : String) → includes k keys ≡ true → includes k all ≡ true)
    → All (λ k. not (includes k all) ≡ false) keys
included [] all h = tt
included (k ∷ keys) all h =
    (ap not (h k (ground (arith, str_eq_refl k))), included keys all (λ j e. h j (ground arith)))

at_most_one :
    (roots keys : List String) (key : String)
    → length (open_roots roots keys) ≤ 1
    → includes key keys ≡ false
    → length (open_roots roots (keys_behind roots (keys ++ key ∷ []) (some key))) ≤ 1
at_most_one roots keys key h n = elim (Bool-cases (includes key roots)) [
  | inl t ↦ rw t (elim (Bool-cases (is_empty key)) [
    | inl e ↦ rw e (omega arith)
    | inr e ↦ rw (e, t) (omega arith)
  ])
  | inr t ↦ rw (t, filter-append, t, append-nil) h
]

behind-one :
    (roots keys : List String) (key : String)
    → length (open_roots roots keys) ≤ 1
    → length (
        open_roots roots (
          keys_behind roots
            (clicked key keys)
            (find (λ k. not (includes k keys)) (clicked key keys))))
      ≤ 1
behind-one roots keys key h =
    let old : All (λ k. not (includes k keys) ≡ false) keys = included keys keys (λ k e. e) in
    elim (Bool-cases (includes key keys)) [
      | inl t ↦
          rw (t, find-none (λ k. not (str_eq k key)) (λ k. not (includes k keys)) keys old)
            (omega (arith, h, open_roots-filter roots (λ k. not (str_eq k key)) keys))
      | inr t ↦
          rw (t, find-behind (λ k. not (includes k keys)) key keys old (ap not t))
            (at_most_one roots keys key h t)
    ]

-- In the accordion of a vertical menu that is not collapsed, a click on a submenu leaves at most one
-- root submenu open if there was at most one.
pub handle_open_change_lem :
    (mode : Mode) (roots : List String) (key : String) (s : Opened)
    → mode.horizontal ≡ false
    → mode.accordion ≡ true
    → mode.mix_sidebar ≡ false
    → mode.collapsed ≡ false
    → length (open_roots roots s.open_keys) ≤ 1
    → length
        (open_roots roots (handle_open_change mode roots (clicked key s.open_keys) s).open_keys)
      ≤ 1
unfolding handle_open_change
handle_open_change_lem mode roots key s h a m c l =
    rw (h, a, m, c) (behind-one roots s.open_keys key l)
