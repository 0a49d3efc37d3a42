-- ===== src/Operations/Objects.antt =====
-- The items, commands and methods of `item.audit` of src/lich_agent_bridge/operations.py.
use Prim.Native.Char.{code}
use lich_agent_bridge.Base.{
  String, Bool, true, false, ◌&&◌, ◌||◌, not, Option, none, some, List, [], ◌∷◌, ltb, if◌then◌else◌,
  str_eq, ◌==◌,
}
use lich_agent_bridge.Base.Dict.{member}
use lich_agent_bridge.Base.Text.{concat, is_blank, is_digit}
use lich_agent_bridge.Operations.Types.{Argument, Item, Location, Method}

abbrev pub method_name : Method → String
method_name Method.look = "look"
method_name Method.inspect = "inspect"
method_name Method.spell_405 = "405"
method_name Method.spell_735 = "735"

abbrev pub is_spell : Method → Bool
is_spell Method.spell_405 = true
is_spell Method.spell_735 = true
is_spell _ = false

-- The Boolean equality of methods.
abbrev pub same_method : Method → Method → Bool
same_method Method.look Method.look = true
same_method Method.inspect Method.inspect = true
same_method Method.spell_405 Method.spell_405 = true
same_method Method.spell_735 Method.spell_735 = true
same_method _ _ = false

-- The rest of the text after the given start, if it has it.
abbrev pub rest_after : String → String → Option String
rest_after String.[] s = some s
rest_after (String.◌∷◌ p ps) String.[] = none
rest_after (String.◌∷◌ p ps) (String.◌∷◌ c s) =
    let rest = rest_after ps s in if code p == code c then rest else none

abbrev pub starts_with_digit : String → Bool
unfolding is_digit
starts_with_digit String.[] = false
starts_with_digit (String.◌∷◌ c s) = is_digit (code c)

abbrev pub ends_here : Option String → Bool
ends_here none = false
ends_here (some rest) = not (starts_with_digit rest)

refers_from : String → Bool → String → Bool
unfolding is_digit
refers_from i after_digit String.[] = false
refers_from i after_digit (String.◌∷◌ c s) =
    (not after_digit && ends_here (rest_after (concat ("#" ∷ i ∷ [])) (String.◌∷◌ c s)))
    || refers_from i (is_digit (code c)) s

-- `re.search(rf"(?<![0-9])#{re.escape(object_id)}(?![0-9])", command)`
unfoldable pub refers_to : String → String → Bool
unfolding refers_from
refers_to i command = refers_from i false command

abbrev pub all_methods : List Method
all_methods = Method.look ∷ Method.inspect ∷ Method.spell_405 ∷ Method.spell_735 ∷ []

abbrev pub is_empty : List Method → Bool
is_empty [] = true
is_empty (m ∷ ms) = false

-- `item_id.removeprefix("#")`
abbrev pub without_hash : String → String
without_hash s = elim (rest_after "#" s) [ none ↦ s | some rest ↦ rest ]

unfoldable pub only : List String → List (String × Argument) → Bool
only keys [] = true
only keys ((k, v) ∷ rest) = member k keys && only keys rest

-- All that are items with this id.
unfoldable pub with_id : String → List Item → List Item
with_id i [] = []
with_id i (x ∷ l) = let rest = with_id i l in if str_eq x.object_id i then x ∷ rest else rest

abbrev pub the_only : List Item → Option Item
the_only (x ∷ []) = some x
the_only _ = none

-- `max(safe, key=...)`: the first of the highest rank.
unfoldable pub safest : Location → List Location → Location
safest best [] = best
safest best (l ∷ rest) = safest (if ltb best.safety_rank l.safety_rank then l else best) rest

abbrev pub in_hand : Item → Bool
in_hand x = str_eq x.location.kind "right_hand" || str_eq x.location.kind "left_hand"

abbrev pub is_restore : Option String → Bool
is_restore none = false
is_restore (some c) = not (is_blank c)

abbrev pub at_place : Item → Location → Bool
at_place x l = str_eq x.location.location_id l.location_id

unfoldable pub keep : (Method → Bool) → List Method → List Method
keep f [] = []
keep f (m ∷ ms) = let rest = keep f ms in if f m then m ∷ rest else rest
