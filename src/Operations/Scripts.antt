-- ===== src/Operations/Scripts.antt =====
-- The registered scripts of src/lich_agent_bridge/script_adapters.py, and what
-- src/lich_agent_bridge/operations.py demands of a session before and after it starts one.
use lich_agent_bridge.Base.{
  ℕ, String, Bool, true, false, ◌&&◌, ◌||◌, not, Option, none, some, List, [], ◌∷◌, leb, ltb,
  if◌then◌else◌, str_eq, is_some,
}
use lich_agent_bridge.Base.Dict.{lookup, member}
use lich_agent_bridge.Base.Text.{concat, strip}
use lich_agent_bridge.Watchers.Names.{drop_article, squeeze}
use lich_agent_bridge.Operations.Host.{Texts}
use lich_agent_bridge.Operations.Objects.{rest_after}

-- `ScriptEntrypoint`
pub record Entrypoint : Type 0 where
  pub name : String
  pub command : String
  pub numeric_argument : Option String

-- `ScriptAdapter`, its lanes sorted
pub record Adapter : Type 0 where
  pub name : String
  pub ownership_lanes : List String
  pub entrypoints : List Entrypoint

abbrev pub bigshot : Adapter
bigshot = record {
  name = "bigshot";
  ownership_lanes = "combat" ∷ "movement" ∷ [];
  entrypoints =
      record { name = "start"; command = "bigshot start"; numeric_argument = none }
      ∷ record { name = "stop"; command = "bigshot stop"; numeric_argument = none }
      ∷ [];
}

abbrev pub eloot : Adapter
eloot = record {
  name = "eloot";
  ownership_lanes = "inventory" ∷ [];
  entrypoints =
      record { name = "loot_current_room"; command = "eloot loot"; numeric_argument = none }
      ∷ record { name = "stop"; command = "eloot stop"; numeric_argument = none }
      ∷ [];
}

-- `build()` without arguments
abbrev pub build : Entrypoint → Option String
build e = if is_some e.numeric_argument then none else some e.command

-- `command(entrypoint)`; `none` where it raises `ValidationError`
unfoldable pub adapter_command : String → List Entrypoint → Option String
adapter_command name [] = none
adapter_command name (e ∷ rest) = if str_eq e.name name then build e else adapter_command name rest

-- A text of both lists.
unfoldable pub intersects : List String → List String → Bool
intersects [] l = false
intersects (x ∷ xs) l = member x l || intersects xs l

unfoldable pub all_in : List String → List String → Bool
all_in [] l = true
all_in (x ∷ xs) l = member x l && all_in xs l

unfoldable pub no_duplicate : List String → Bool
no_duplicate [] = true
no_duplicate (x ∷ xs) = not (member x xs) && no_duplicate xs

abbrev pub is_none_or_empty : Option (List String) → Bool
is_none_or_empty (some (x ∷ l)) = false
is_none_or_empty _ = true

abbrev pub is_nil {ℓ} : {A : Type ℓ} → List A → Bool
is_nil [] = true
is_nil (x ∷ l) = false

-- A level that is no integer.
unfoldable pub any_unknown : List (String × Option ℕ) → Bool
any_unknown [] = false
any_unknown ((part, none) ∷ rest) = true
any_unknown ((part, some n) ∷ rest) = any_unknown rest

unfoldable pub any_severe : ℕ → List (String × Option ℕ) → Bool
any_severe level [] = false
any_severe level ((part, none) ∷ rest) = any_severe level rest
any_severe level ((part, some n) ∷ rest) = leb level n || any_severe level rest

abbrev pub is_false : Option Bool → Bool
is_false (some false) = true
is_false _ = false

abbrev pub is_below : Option ℕ → Option ℕ → Bool
is_below none load = true
is_below (some limit) none = false
is_below (some limit) (some n) = ltb n limit

unfoldable pub held : List (Option String) → List String
held [] = []
held (none ∷ rest) = held rest
held (some s ∷ rest) = s ∷ held rest

abbrev pub same_set : Option (List String) → List String → Bool
same_set none l = true
same_set (some k) l = all_in k l && all_in l k

module _ (py : Texts) where
  casefold_all : List String → List String
  casefold_all [] = []
  casefold_all (s ∷ rest) = py.casefold s ∷ casefold_all rest

  -- Whether the running scripts include this one.
  unfoldable pub is_running : String → List String → Bool
  unfolding casefold_all
  is_running name scripts = member name (casefold_all scripts)

  unfoldable pub normal : List String → List String
  unfolding squeeze drop_article strip
  normal [] = []
  normal (s ∷ rest) = py.casefold (squeeze (drop_article (strip s))) ∷ normal rest

  abbrev pub is_owner : String → Option String → Bool
  is_owner name none = false
  is_owner name (some o) = str_eq (py.casefold o) name

  abbrev pub is_free_for : String → Option String → Bool
  is_free_for name none = true
  is_free_for name (some o) = str_eq (py.casefold o) name

  abbrev pub lane_free : String → Option (Option String) → Bool
  lane_free name none = false
  lane_free name (some o) = is_free_for name o

  abbrev pub lane_owned : String → Option (Option String) → Bool
  lane_owned name none = false
  lane_owned name (some o) = is_owner name o

  unfoldable pub lanes_free : String → List String → List (String × Option String) → Bool
  lanes_free name [] owners = true
  lanes_free name (lane ∷ rest) owners =
      lane_free name (lookup lane owners) && lanes_free name rest owners

  unfoldable pub lanes_owned : String → List String → List (String × Option String) → Bool
  lanes_owned name [] owners = true
  lanes_owned name (lane ∷ rest) owners =
      lane_owned name (lookup lane owners) && lanes_owned name rest owners

  unfoldable pub is_clean : Option String → Bool
  is_clean none = true
  is_clean (some s) =
      str_eq (py.casefold s) "idle"
      || str_eq (py.casefold s) "stopped"
      || is_some (rest_after "completed:" (py.casefold s))

  unfoldable pub is_completed : String → Option String → Bool
  is_completed i none = false
  is_completed i (some s) = str_eq (py.casefold s) (py.casefold (concat ("completed:" ∷ i ∷ [])))
