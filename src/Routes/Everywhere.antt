-- ===== src/Routes/Everywhere.antt =====
-- Statements about every item of a tree of routes or menus (web/admin/src/router/helper).
use kerthus.Tree.{Node, leaf, branch, Forest, nil, cons, item}

module _ {A : Type 0} (P : A → Type 0) where
  abbrev mutual
    pub HoldsIn : Node A → Type 0
    HoldsIn (leaf a) = P a
    HoldsIn (branch a f) = P a × Holds f

    pub Holds : Forest A → Type 0
    Holds nil = Unit
    Holds (cons n f) = HoldsIn n × Holds f

  pub Holds-item : (n : Node A) → HoldsIn n → P (item n)
  Holds-item (leaf a) h = h
  Holds-item (branch a f) h = h.0
