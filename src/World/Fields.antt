-- ===== src/World/Fields.antt =====
-- What `publish_snapshot` compares and reports of two snapshots.
use lich_agent_bridge.Base.{
  String, Bool, true, false, ◌&&◌, Option, none, some, List, [], ◌∷◌, ◌++◌, if◌then◌else◌, str_eq,
}
use lich_agent_bridge.Base.Dict.{lookup, add}
use lich_agent_bridge.World.Types.{Env, Snapshot}
use lich_agent_bridge.Base.Sort.{sorted}

module _ {V : Type 0} (env : Env V) where
  open env use {same}

  unfoldable pub keys : List (String × V) → List String
  keys [] = []
  keys ((k, v) ∷ rest) = k ∷ keys rest

  unfoldable pub same_option : Option V → Option V → Bool
  same_option none none = true
  same_option none (some w) = false
  same_option (some v) none = false
  same_option (some v) (some w) = same v w

  -- `a.get(key) == b.get(key)`
  unfoldable pub same_at : String → List (String × V) → List (String × V) → Bool
  unfolding same_option
  same_at k m n = same_option (lookup k m) (lookup k n)

  unfoldable pub all_same : List String → List (String × V) → List (String × V) → Bool
  unfolding same_at
  all_same [] m n = true
  all_same (k ∷ rest) m n = same_at k m n && all_same rest m n

  -- The keys at which the two mappings differ.
  unfoldable pub differing : List String → List (String × V) → List (String × V) → List String
  unfolding same_at
  differing [] m n = []
  differing (k ∷ rest) m n =
      let found = differing rest m n in if same_at k m n then found else k ∷ found

  unfoldable pub union : List String → List String → List String
  union [] s = s
  union (k ∷ rest) s = add k (union rest s)

  -- `_semantic_snapshot(previous) == _semantic_snapshot(snapshot)`
  unfoldable pub same_meaning : Snapshot V → Snapshot V → Bool
  unfolding all_same keys union
  same_meaning a b =
      str_eq a.character b.character
      && str_eq a.generation b.generation
      && all_same (union (keys a.fields) (keys b.fields)) a.fields b.fields

  -- `_changed_fields`
  unfoldable pub changed_fields : Option (Snapshot V) → Snapshot V → List String
  unfolding differing keys union sorted
  changed_fields none b = sorted ("character" ∷ "generation" ∷ keys b.fields)
  changed_fields (some a) b = sorted (
      (if str_eq a.character b.character then [] else "character" ∷ [])
      ++ (if str_eq a.generation b.generation then [] else "generation" ∷ [])
      ++ differing (union (keys a.fields) (keys b.fields)) a.fields b.fields)
