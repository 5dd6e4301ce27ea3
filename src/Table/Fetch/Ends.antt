-- ===== src/Table/Fetch/Ends.antt =====
-- useDataSource.ts, `fetch`: it ends, and what the table shows then.
use kerthus.Base.{ℕ, ◌≤◌, ◌≡◌, ◌⊎◌, false, Option, none, some, or_else, length}
use kerthus.Table.Fetch.{TableState, Props, current_of, size_of, asked_page, is_past_end}

module _ {ℓ} {R : Type ℓ} (props : Props R) where
  -- The table behind a call: the api, or what comes behind it, failed and there are no rows, or the
  -- rows of an answer are shown, and the page is one that the answer has.
  abbrev pub Shows : Option ℕ → TableState R → Type ℓ
  Shows opt s =
      ((s.rows ≡ props.no_rows) × (s.config.total ≡ some 0))
      ⊎ ((r : R) × (total : Option ℕ) × (props.after_fetch r ≡ some s.rows)
          × (asked_page opt ≡ none
              → (s.config.total ≡ some (or_else total 0))
                × (is_past_end total (size_of props s) (current_of props s) ≡ false)))

  abbrev pub Settled : Option ℕ → ℕ → TableState R → Type ℓ
  Settled opt most s = (s.loading ≡ false) × (length s.asked ≤ most) × Shows opt s
