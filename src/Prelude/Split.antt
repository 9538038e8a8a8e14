-- ===== src/Prelude/Split.antt =====
-- `String.includes` and `String.split` with a separator of one code unit.
use Prim.Native.Nat.{ℕ}
use mathlib.Core.Bool.{Bool, false, ◌||◌}
use mathlib.Core.Option.{Option, none, some}
use mathlib.Core.List.{List, [], ◌∷◌}
use backit_on_stellar.Prelude.Tests.{if◌then◌else◌, ◌==◌}

unfoldable pub includes : ℕ → List ℕ → Bool
includes x [] = false
includes x (y ∷ ys) = x == y || includes x ys

-- The first part that `split` gives.
unfoldable pub split_head : ℕ → List ℕ → List ℕ
split_head x [] = []
split_head x (y ∷ ys) = let rest = split_head x ys in if x == y then [] else y ∷ rest

-- The text behind the first separator, if there is one.
unfoldable pub split_tail : ℕ → List ℕ → Option (List ℕ)
split_tail x [] = none
split_tail x (y ∷ ys) = let rest = split_tail x ys in if x == y then some ys else rest

-- `parts[1]` of a split.
unfoldable pub second_part : ℕ → Option (List ℕ) → Option (List ℕ)
unfolding split_head
second_part x none = none
second_part x (some rest) = some (split_head x rest)

-- All the parts.
unfoldable pub extend_first : ℕ → List (List ℕ) → List (List ℕ)
extend_first y [] = (y ∷ []) ∷ []
extend_first y (part ∷ parts) = (y ∷ part) ∷ parts

unfoldable pub split_all : ℕ → List ℕ → List (List ℕ)
unfolding extend_first
split_all x [] = [] ∷ []
split_all x (y ∷ ys) =
    let rest = split_all x ys in if x == y then [] ∷ rest else extend_first y rest
