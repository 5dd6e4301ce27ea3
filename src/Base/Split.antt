-- ===== src/Base/Split.antt =====
-- `text.split(c)` for a separator of one character, given by its code.
use Prim.Native.Nat.{ℕ}
use Prim.Native.Char.{Char, code}
use Prim.Native.String.{String}
use mathlib.Core.List.{List, [], ◌∷◌}
use kerthus.Base.Tests.{if◌then◌else◌, ◌==◌}

abbrev pub in_first : Char → List String → List String
in_first c [] = []
in_first c (s ∷ ss) = String.◌∷◌ c s ∷ ss

unfoldable pub split_on : ℕ → String → List String
split_on p String.[] = "" ∷ []
split_on p (String.◌∷◌ c s) =
    let rest = split_on p s in if code c == p then "" ∷ rest else in_first c rest
