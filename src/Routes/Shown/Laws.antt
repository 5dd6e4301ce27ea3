-- ===== src/Routes/Shown/Laws.antt =====
-- menus/index.ts: no menu that is hidden is shown.
use mathlib.Core.Path.{ap₂}
use kerthus.Base.{◌≡◌, refl, ap, String, str_eq, true, Bool-cases, inl, inr, if◌then◌else◌}
use kerthus.Tree.{Node, leaf, branch, Forest, nil, cons, item}
use kerthus.Routes.Everywhere.{HoldsIn, Holds, Holds-item}
use kerthus.Routes.Menu.{Menu}
use kerthus.Routes.Shown.{
  is_shown, filter_below, menu_filter, shallow, get_shallow_menus, children_of, children_at,
  get_children_menus,
}

abbrev pub IsShown : Menu → Type 0
IsShown m = is_shown m ≡ true

cons-IsShown :
    (n m : Node Menu) (f : Forest Menu)
    → (is_shown (item n) ≡ true → HoldsIn IsShown m)
    → Holds IsShown f
    → Holds IsShown (if is_shown (item n) then cons m f else f)
cons-IsShown n m f h k = elim (Bool-cases (is_shown (item n))) [
  | inl t ↦ rw t (h t, k)
  | inr t ↦ rw t k
]

mutual
  unfolding menu_filter

  filter_below-IsShown :
      (n : Node Menu) → is_shown (item n) ≡ true → HoldsIn IsShown (filter_below n)
  filter_below-IsShown (leaf m) t = t
  filter_below-IsShown (branch m f) t = (t, menu_filter-IsShown f)

  menu_filter-IsShown : (f : Forest Menu) → Holds IsShown (menu_filter f)
  menu_filter-IsShown nil = tt
  menu_filter-IsShown (cons n f) =
      cons-IsShown n (filter_below n) (menu_filter f) (filter_below-IsShown n)
        (menu_filter-IsShown f)

mutual
  unfolding menu_filter

  filter_below-same : (n : Node Menu) → HoldsIn IsShown n → filter_below n ≡ n
  filter_below-same (leaf m) h = refl
  filter_below-same (branch m f) h = ap (branch m) (menu_filter-same f h.1)

  menu_filter-same : (f : Forest Menu) → Holds IsShown f → menu_filter f ≡ f
  menu_filter-same nil h = refl
  menu_filter-same (cons n f) h =
      rw (Holds-item IsShown n h.0) (ap₂ cons (filter_below-same n h.0) (menu_filter-same f h.1))

children_of-IsShown : (n : Node Menu) → HoldsIn IsShown n → Holds IsShown (children_of n)
children_of-IsShown (leaf m) h = tt
children_of-IsShown (branch m f) h = elim (Bool-cases m.meta.hide_children_in_menu) [
  | inl t ↦ rw t tt
  | inr t ↦ rw t h.1
]

children_at-IsShown :
    (path : String) (f : Forest Menu) → Holds IsShown f → Holds IsShown (children_at path f)
children_at-IsShown path nil h = tt
children_at-IsShown path (cons n f) h = elim (Bool-cases (str_eq (item n).path path)) [
  | inl t ↦ rw t (children_of-IsShown n h.0)
  | inr t ↦ rw t (children_at-IsShown path f h.1)
]

shallow-IsShown : (f : Forest Menu) → Holds IsShown f → Holds IsShown (shallow f)
shallow-IsShown nil h = tt
shallow-IsShown (cons (leaf m) f) h = (h.0, shallow-IsShown f h.1)
shallow-IsShown (cons (branch m g) f) h = (h.0.0, shallow-IsShown f h.1)

-- No menu of `getAsyncMenus`, of `getShallowMenus` or below a parent in `getChildrenMenus` is hidden,
-- at any depth, and filtering the menus again changes nothing.
pub menu_filter_lem :
    (menus : Forest Menu) (parent_path : String)
    → Holds IsShown (menu_filter menus)
      × Holds IsShown (get_shallow_menus menus)
      × Holds IsShown (get_children_menus menus parent_path)
      × (menu_filter (menu_filter menus) ≡ menu_filter menus)
unfolding get_children_menus get_shallow_menus
menu_filter_lem menus parent_path =
    let h : Holds IsShown (menu_filter menus) = menu_filter-IsShown menus in
    (
      h,
      shallow-IsShown (menu_filter menus) h,
      children_at-IsShown parent_path (menu_filter menus) h,
      menu_filter-same (menu_filter menus) h,
    )
