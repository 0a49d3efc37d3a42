-- ===== src/Base/Dict.antt =====
-- Python's `dict` and `set` with text keys, in insertion order.
use Prim.Native.String.{String}
use mathlib.Core.Path.{◌≡◌, refl}
use mathlib.Core.Bool.{Bool, false, ◌||◌, ◌&&◌, not}
use mathlib.Core.Option.{Option, none, some}
use mathlib.Core.List.{List, [], ◌∷◌}
use native.Mathlib.Omega.{arith}
use text.Mathlib.Text.{◌==◌}
use text.Mathlib.TextEquality.{eq_iff}
use lich_agent_bridge.Base.Tests.{if◌then◌else◌}

module _ {ℓ} {V : Type ℓ} where
  -- `d.get(key)`
  unfoldable pub lookup : String → List (String × V) → Option V
  lookup key [] = none
  lookup key ((other, value) ∷ rest) = if other == key then some value else lookup key rest

  -- `d[k] = v`: a key that is there keeps its place.
  unfoldable pub insert : String → V → List (String × V) → List (String × V)
  insert key value [] = (key, value) ∷ []
  insert key value ((other, old) ∷ rest) =
      if other == key then (other, value) ∷ rest else (other, old) ∷ insert key value rest

  -- `d.pop(key, None)`
  unfoldable pub remove : String → List (String × V) → List (String × V)
  remove key [] = []
  remove key ((other, value) ∷ rest) =
      let kept = remove key rest in if other == key then kept else (other, value) ∷ kept

  pub lookup-insert :
      (key other : String) (value : V) (rest : List (String × V))
      → lookup other (insert key value rest)
        ≡ (if key == other then some value else lookup other rest)
  unfolding lookup insert
  lookup-insert key other value [] = refl
  lookup-insert key other value ((head, old) ∷ rest) = ground (
    arith,
    eq_iff key other,
    eq_iff head key,
    eq_iff head other,
    lookup-insert key other value rest,
  )

  pub lookup-remove :
      (key other : String) (rest : List (String × V))
      → lookup other (remove key rest) ≡ (if key == other then none else lookup other rest)
  unfolding lookup remove
  lookup-remove key other [] = ground arith
  lookup-remove key other ((head, old) ∷ rest) =
      ground
        (arith, eq_iff key other, eq_iff head key, eq_iff head other, lookup-remove key other rest)

-- `k in s`
unfoldable pub member : String → List String → Bool
member k [] = false
member k (j ∷ s) = j == k || member k s

-- `s.add(k)`
unfoldable pub add : String → List String → List String
unfolding member
add k s = if member k s then s else k ∷ s

-- `s.discard(k)`
unfoldable pub discard : String → List String → List String
discard k [] = []
discard k (j ∷ s) = let rest = discard k s in if j == k then rest else j ∷ rest

pub member-add : (k j : String) (s : List String) → member j (add k s) ≡ (k == j || member j s)
unfolding add
member-add k j s = ground (arith, eq_iff k j)

pub member-discard :
    (k j : String) (s : List String) → member j (discard k s) ≡ (not (k == j) && member j s)
unfolding member discard
member-discard k j [] = ground arith
member-discard k j (i ∷ s) =
    ground (arith, eq_iff k j, eq_iff i k, eq_iff i j, member-discard k j s)
