-- ===== src/Routes/Open.antt =====
-- menuHelper.ts, `getAllParentPath`, and components/Menu/src/useOpenKeys.ts: the submenus that are
-- open. An item of a menu has an identity and a path; `uniq` is that of lodash-es.
pub mod Accordion
use kerthus.Base.{
  ℕ, String, Bool, false, true, not, ◌||◌, List, [], ◌∷◌, ◌++◌, map, Option, none, some, includes,
  is_empty, find, str_eq, if◌then◌else◌,
}
use mathlib.Core.Option
use kerthus.Tree.{Node, leaf, branch, Forest, nil, cons, item}
use kerthus.Tree.Path.{find_path}

-- `MenuState`, the lists of keys
pub record Opened : Type 0 where
  pub open_keys : List String
  pub collapsed_open_keys : List String
  pub selected_keys : List String

-- `mode`, `accordion`, `getIsMixSidebar` and `getCollapsed`
pub record Mode : Type 0 where
  pub horizontal : Bool
  pub accordion : Bool
  pub mix_sidebar : Bool
  pub collapsed : Bool

abbrev pub get_open_keys : Mode → Opened → List String
get_open_keys mode s =
    if (if mode.mix_sidebar then false else mode.collapsed)
    then s.collapsed_open_keys
    else s.open_keys

abbrev pub reset_keys : Opened → Opened
reset_keys s = record s { selected_keys = []; open_keys = [] }

module _ {ℓ} {A : Type ℓ} (ref : A → ℕ) (path_of : A → String) where
  abbrev pub paths_or_none : Option (List (Node A)) → List String
  paths_or_none none = []
  paths_or_none (some p) = map (λ n. path_of (item n)) p

  -- `none` where the fuel of the search runs out.
  pub get_all_parent_path : Forest A → String → Option (List String)
  get_all_parent_path tree path =
      Option.map paths_or_none (find_path ref (λ n. str_eq (path_of (item n)) path) tree)

  abbrev pub with_parents : (List String → List String) → Mode → Opened → List String → Opened
  with_parents uniq mode s parents = record s {
    open_keys = if not mode.accordion then uniq (s.open_keys ++ parents) else parents;
  }

  -- The run of the timer; a menu that is empty has no path to open.
  pub set_open_keys :
      (List String → List String) → Mode → Forest A → String → Opened → Option Opened
  set_open_keys uniq mode nil path s =
      some (if mode.horizontal then s else record s { open_keys = [] })
  set_open_keys uniq mode (cons n f) path s =
      let parents = get_all_parent_path (cons n f) path in
      if mode.horizontal then some s else Option.map (with_parents uniq mode s) parents

abbrev pub has_submenu {ℓ} : {A : Type ℓ} → Node A → Bool
has_submenu (leaf a) = false
has_submenu (branch a nil) = false
has_submenu (branch a (cons n f)) = true

-- `rootSubMenuKeys`
pub root_keys {ℓ} : {A : Type ℓ} → (A → String) → Forest A → List String
root_keys path_of nil = []
root_keys path_of (cons n f) =
    let rest = root_keys path_of f in if has_submenu n then path_of (item n) ∷ rest else rest

abbrev pub latest_open_key : List String → Opened → Option String
latest_open_key keys s = find (λ key. not (includes key s.open_keys)) keys

-- `latestOpenKey` is `undefined` where no key is new, and no root has that key.
abbrev pub keys_behind : List String → List String → Option String → List String
keys_behind roots keys none = keys
keys_behind roots keys (some key) =
    if not (includes key roots) then keys else if is_empty key then [] else key ∷ []

unfoldable pub handle_open_change : Mode → List String → List String → Opened → Opened
handle_open_change mode roots keys s =
    if mode.horizontal || not mode.accordion || mode.mix_sidebar
    then record s { open_keys = keys }
    else if not mode.collapsed
    then record s { open_keys = keys_behind roots keys (latest_open_key keys s) }
    else record s { collapsed_open_keys = keys }
