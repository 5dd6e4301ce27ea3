-- ===== src/Table/Fetch.antt =====
-- useDataSource.ts, `fetch` and `handleTableChange`, with `setPagination` of usePagination.tsx: the
-- requests for a page of rows. `R` is an array of rows, and `P` the rest of the parameters of a request.
pub mod Ends
use kerthus.Base.{
  ℕ, zero, suc, ◌+◌, ◌-◌, ◌/◌, ◌≤◌, ◌<◌, ◌≡◌, refl, length, ◌&&◌, ltb, Bool, true, false, Option,
  none, some, or_else, List, [], ◌∷◌, ◌++◌, if◌then◌else◌, arith,
}

-- `Math.ceil(total / size)`; a division by 0 is infinite.
abbrev pub ceil_div : ℕ → ℕ → ℕ
ceil_div total size = (total + (size - 1)) / size

-- What `api` answers: an array, or an object with the list and, perhaps, a total.
pub data Answer {ℓ} (R : Type ℓ) : Type ℓ where
  failed : Answer R
  array : R → Answer R
  object : R → Option ℕ → Answer R

pub data Event {ℓ} (R : Type ℓ) : Type ℓ where
  fetch_success : R → Option ℕ → Event R
  fetch_error : Event R

pub record Paging : Type 0 where
  pub current : Option ℕ
  pub page_size : Option ℕ
  pub total : Option ℕ

-- `config` is `configRef` of usePagination.tsx, and `show` its flag; `asked` has the page and the size
-- of each request so far, or `none` where they are left out.
pub record TableState {ℓ} (R : Type ℓ) : Type ℓ where
  pub rows : R
  pub config : Paging
  pub show : Bool
  pub loading : Bool
  pub events : List (Event R)
  pub asked : List (Option (ℕ × ℕ))

-- The properties of the table: `base` is `pagination` where it is an object, and `paginated` is false
-- where it is `false`. `api` answers the requests by their number; the parameters beside the page are
-- its own. `after_fetch` answers the rows that are shown, or fails.
pub record Props {ℓ} (R : Type ℓ) : Type ℓ where
  pub has_api : Bool
  pub api : ℕ → Option (ℕ × ℕ) → Answer R
  pub after_fetch : R → Option R
  pub length_of : R → ℕ
  pub no_rows : R
  pub paginated : Bool
  pub base : Paging

abbrev pub either : Option ℕ → Option ℕ → Option ℕ
either none o = o
either (some n) o = some n

abbrev pub only_current : ℕ → Paging
only_current n = record { current = some n; page_size = none; total = none }

abbrev pub only_total : ℕ → Paging
only_total n = record { current = none; page_size = none; total = some n }

-- `opt && opt.page`, where a page 0 counts as none.
abbrev pub asked_page : Option ℕ → Option ℕ
asked_page none = none
asked_page (some zero) = none
asked_page (some (suc n)) = some (suc n)

-- `current > Math.ceil(resultTotal / pageSize)`, under `if (Number(resultTotal))`.
abbrev pub is_past_end : Option ℕ → ℕ → ℕ → Bool
is_past_end none size n = false
is_past_end (some zero) size n = false
is_past_end (some (suc t)) zero n = false
is_past_end (some (suc t)) (suc m) n = ltb (ceil_div (suc t) (suc m)) n

module _ {ℓ} {R : Type ℓ} (props : Props R) where
  -- `getPaginationInfo` is an object, and not `false`.
  abbrev pub is_paged : TableState R → Bool
  is_paged s = s.show && props.paginated

  -- `const { current = 1, pageSize = PAGE_SIZE } = unref(getPaginationInfo)`
  abbrev pub current_of : TableState R → ℕ
  current_of s = if is_paged s then or_else s.config.current (or_else props.base.current 1) else 1

  abbrev pub size_of : TableState R → ℕ
  size_of s =
      if is_paged s then or_else s.config.page_size (or_else props.base.page_size 10) else 10

  -- `setPagination` with the fields of `info` that are there.
  abbrev pub set_pagination : Paging → TableState R → TableState R
  set_pagination info s = record s {
    config = record {
      current = either info.current (if is_paged s then some (current_of s) else none);
      page_size = either info.page_size (if is_paged s then some (size_of s) else none);
      total =
          either info.total (if is_paged s then either s.config.total props.base.total else none);
    };
  }

  abbrev page_params : Option ℕ → TableState R → Option (ℕ × ℕ)
  page_params opt s =
      if props.paginated then some (or_else (asked_page opt) (current_of s), size_of s) else none

  abbrev ask : Option ℕ → TableState R → TableState R
  ask opt s = record s { loading = true; asked = s.asked ++ page_params opt s ∷ [] }

  -- The `catch`, and the `finally` behind it.
  abbrev fail : TableState R → TableState R
  fail s =
      set_pagination (only_total 0)
        (record s { rows = props.no_rows; events = s.events ++ fetch_error ∷ []; loading = false })

  abbrev set_asked_page : Option ℕ → TableState R → TableState R
  set_asked_page none s = s
  set_asked_page (some n) s = set_pagination (only_current n) s

  abbrev succeed : Option ℕ → R → Option ℕ → TableState R → TableState R
  succeed opt r total s = set_asked_page (asked_page opt) (
      set_pagination (only_total (or_else total 0))
        (record s { rows = r; events = s.events ++ fetch_success r total ∷ []; loading = false }))

  abbrev show_rows : Option ℕ → Option R → Option ℕ → TableState R → TableState R
  show_rows opt none total s = fail s
  show_rows opt (some r) total s = succeed opt r total s

  abbrev last_page : TableState R → Option ℕ → ℕ
  last_page s total = ceil_div (or_else total 0) (size_of s)

  -- Behind the answer of the api; `again` is the call of `fetch` in `fetch`.
  abbrev take_rows :
      (TableState R → Option (TableState R))
      → Option ℕ
      → R
      → Option ℕ
      → TableState R
      → Option (TableState R)
  take_rows again opt r total s =
      if is_past_end total (size_of s) (current_of s)
      then again (set_pagination (only_current (last_page s total)) s)
      else some (show_rows opt (props.after_fetch r) total s)

  abbrev handle :
      (TableState R → Option (TableState R))
      → Option ℕ
      → Answer R
      → TableState R
      → Option (TableState R)
  handle again opt failed s = some (fail s)
  handle again opt (array r) s = take_rows again opt r (some (props.length_of r)) s
  handle again opt (object r total) s = take_rows again opt r total s

  -- The answer to the request that `ask` makes in the state.
  abbrev answer : Option ℕ → TableState R → Answer R
  answer opt s = props.api (length s.asked) (page_params opt s)

  -- `none` means that the fuel ran out.
  unfoldable pub fetch_loop : ℕ → Option ℕ → TableState R → Option (TableState R)
  fetch_loop zero opt s = none
  fetch_loop (suc fuel) opt s = handle (fetch_loop fuel opt) opt (answer opt s) (ask opt s)

  pub fetch : Option ℕ → TableState R → Option (TableState R)
  fetch opt s = if props.has_api then fetch_loop (suc (current_of s)) opt s else some s
