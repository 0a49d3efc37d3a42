-- ===== src/Base/Sort.antt =====
-- Python's `sorted` on texts.
use Prim.Native.Nat.{Ordering}
use Prim.Native.String.{String, compare}
use mathlib.Core.List.{List, [], ◌∷◌}

-- `sorted` on texts
insert_sorted : String → List String → List String
insert_sorted k [] = k ∷ []
insert_sorted k (j ∷ rest) = elim (compare k j) [
  | Ordering.gt ↦ j ∷ insert_sorted k rest
  | _ ↦ k ∷ j ∷ rest
]

unfoldable pub sorted : List String → List String
unfolding insert_sorted
sorted [] = []
sorted (k ∷ rest) = insert_sorted k (sorted rest)
