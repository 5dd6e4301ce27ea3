-- ===== src/Tabs/Hook/Sides.antt =====
-- useTabs.ts, `handleTabAction`: what the actions on one side of the current tab, and on all tabs,
-- leave in the store.
use kerthus.Base.{◌≡◌, String, Option, some}
use kerthus.Tabs.{Tab, TabState, Nav, World}

module _ {P : Type 0} (home : String) (resolve : Nav P → Tab P) where
  -- An action that ends with such a store.
  abbrev pub EndsIn : Option (World P) → TabState P → Type 0
  EndsIn o s = (w : World P) × (o ≡ some w) × (w.store ≡ s)
