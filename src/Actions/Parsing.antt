-- ===== src/Actions/Parsing.antt =====
-- The `from_mapping` methods of src/lich_agent_bridge/actions.py: requests from decoded JSON objects.
use lich_agent_bridge.Base.{
  ℕ, ◌+◌, String, Bool, true, false, ◌&&◌, ◌||◌, not, Option, none, some, List, [], ◌∷◌, leb,
  if◌then◌else◌, str_eq, is_some, length,
}
use lich_agent_bridge.Base.Dict.{lookup, member}
use lich_agent_bridge.Base.Text.{len}
use lich_agent_bridge.Actions.Types.{
  Approval, Context, Control, Outcome, Proposal, Report, Result, ok, err,
}
use lich_agent_bridge.Actions.Types
use lich_agent_bridge.Actions.Fields.{text, action_id, character_name, generation_name}

-- A decoded JSON value, as far as the methods tell values apart. `other` is an object or a number
-- that is no integer; an integer that is negative is `below_zero`.
pub data Json : Type 0 where
  null other : Json
  boolean : Bool → Json
  integer below_zero : ℕ → Json
  string : String → Json
  array : List (Option String) → Json

-- The messages of `ValidationError` in these methods; `field` is one of `_text` and `_action_id`.
pub data Malformed : Type 0 where
  unknown_field missing_field not_a_string bad_room not_one_command not_an_array : Malformed
  bad_count too_long bad_ttl not_a_boolean bad_mode bad_outcome : Malformed
  field : Types.Error → Malformed

pub data Parsed {ℓ} (A : Type ℓ) : Type ℓ where
  parsed : A → Parsed A
  refused : Malformed → Parsed A

abbrev pub Object : Type 0
Object = List (String × Json)

infixl 20 ◌>>=◌
unfoldable pub ◌>>=◌ : {A B : Type 0} → Parsed A → (A → Parsed B) → Parsed B
parsed a >>= f = f a
refused e >>= f = refused e

abbrev pub demand : Bool → Malformed → Parsed (Unit {0})
demand true e = parsed tt
demand false e = refused e

abbrev pub of_result : {A : Type 0} → Result A → Parsed A
of_result (ok a) = parsed a
of_result (err e) = refused (field e)

all_allowed : List String → Object → Bool
all_allowed allowed [] = true
all_allowed allowed ((key, v) ∷ rest) = member key allowed && all_allowed allowed rest

all_there : List String → Object → Bool
all_there [] value = true
all_there (key ∷ rest) value = is_some (lookup key value) && all_there rest value

-- `_strict_keys` of an object
unfoldable pub strict_keys : List String → List String → Object → Parsed (Unit {0})
unfolding all_allowed all_there
strict_keys allowed required value =
    if not (all_allowed allowed value)
    then refused unknown_field
    else demand (all_there required value) missing_field

-- `_text`, with its test of the type, and the checks that are built on it.
unfoldable pub text_of : (String → Result String) → Option Json → Parsed String
text_of check (some (string s)) = of_result (check s)
text_of check _ = refused not_a_string

module _ (casefold : String → String) (show : Json → String) where
  -- `_room`; `show` is `str` of an integer or a boolean.
  unfoldable pub room_of : Option Json → Parsed String
  room_of (some (string s)) = of_result (text 80 s)
  room_of (some (integer n)) = of_result (text 80 (show (integer n)))
  room_of (some (below_zero n)) = of_result (text 80 (show (below_zero n)))
  room_of (some (boolean b)) = of_result (text 80 (show (boolean b)))
  room_of _ = refused bad_room

  -- `ActionContext.from_mapping`
  unfoldable pub parse_context : Object → Parsed Context
  unfolding strict_keys text_of room_of
  parse_context value = do
    let names = "character" ∷ "room_id" ∷ "generation" ∷ []
    _ ← strict_keys names names value
    character ← text_of character_name (lookup "character" value)
    room ← room_of (lookup "room_id" value)
    generation ← text_of generation_name (lookup "generation" value)
    parsed (record { character = character; room_id = room; generation = generation })

  or_manual : Option Json → Option Json
  or_manual none = some (string "manual")
  or_manual (some v) = some v

  -- `ActionApproval.from_mapping`
  unfoldable pub parse_approval : Object → Parsed Approval
  unfolding strict_keys text_of room_of or_manual
  parse_approval value = do
    let required = "action_id" ∷ "character" ∷ "room_id" ∷ "generation" ∷ []
    _ ← strict_keys ("approval_mode" ∷ required) required value
    written ← text_of (text 16) (or_manual (lookup "approval_mode" value))
    let mode = casefold written
    _ ← demand (str_eq mode "manual" || str_eq mode "auto") bad_mode
    i ← text_of action_id (lookup "action_id" value)
    character ← text_of character_name (lookup "character" value)
    room ← room_of (lookup "room_id" value)
    generation ← text_of generation_name (lookup "generation" value)
    parsed (record {
      action_id = i;
      character = character;
      room_id = room;
      approval_mode = mode;
      generation = generation;
    })

  boolean_of : Option Json → Parsed Bool
  boolean_of (some (boolean b)) = parsed b
  boolean_of _ = refused not_a_boolean

  -- `ActionControl.from_mapping`
  unfoldable pub parse_control : Object → Parsed Control
  unfolding strict_keys text_of boolean_of
  parse_control value = do
    let names = "character" ∷ "enabled" ∷ "generation" ∷ []
    _ ← strict_keys names names value
    enabled ← boolean_of (lookup "enabled" value)
    character ← text_of character_name (lookup "character" value)
    generation ← text_of generation_name (lookup "generation" value)
    parsed (record { character = character; enabled = enabled; generation = generation })

  unfoldable pub commands_of : List (Option String) → Parsed (List String)
  commands_of [] = parsed []
  commands_of (none ∷ rest) = refused not_a_string
  commands_of (some s ∷ rest) = do
    c ← of_result (text 160 s)
    cs ← commands_of rest
    parsed (c ∷ cs)

  total_len : List String → ℕ
  total_len [] = 0
  total_len (c ∷ cs) = len c + total_len cs

  -- The entry `commands`.
  unfoldable pub sequence_of : Option Json → Parsed (List String)
  unfolding commands_of total_len
  sequence_of (some (array items)) = do
    _ ← demand (leb 2 (length items) && leb (length items) 12) bad_count
    commands ← commands_of items
    _ ← demand (leb (total_len commands) 1200) too_long
    parsed commands
  sequence_of _ = refused not_an_array

  -- The command and the sequence, of which one is there.
  unfoldable pub order_of : Object → Parsed (Option String × List String)
  unfolding sequence_of text_of
  order_of value =
      if is_some (lookup "command" value)
      then if is_some (lookup "commands" value)
        then refused not_one_command
        else text_of (text 160) (lookup "command" value) >>= (λ c. parsed (some c, []))
      else if is_some (lookup "commands" value)
      then sequence_of (lookup "commands" value) >>= (λ cs. parsed (none, cs))
      else refused not_one_command

  -- The entry `ttl_seconds`.
  unfoldable pub ttl_of : Option Json → Parsed ℕ
  ttl_of none = parsed 45
  ttl_of (some (integer n)) = if leb 1 n && leb n 120 then parsed n else refused bad_ttl
  ttl_of _ = refused bad_ttl

  optional : (Option Json → Parsed String) → Option Json → Parsed (Option String)
  optional f none = parsed none
  optional f (some null) = parsed none
  optional f (some v) = f (some v) >>= (λ s. parsed (some s))

  -- `ActionProposal.from_mapping`
  unfoldable pub parse_proposal : Object → Parsed Proposal
  unfolding strict_keys order_of ttl_of optional text_of room_of
  parse_proposal value = do
    let required = "character" ∷ []
    _ ←
        strict_keys
          ("character" ∷ "command" ∷ "commands" ∷ "expected_room_id" ∷ "expected_generation"
            ∷ "ttl_seconds" ∷ [])
          required value
    order ← order_of value
    ttl ← ttl_of (lookup "ttl_seconds" value)
    character ← text_of character_name (lookup "character" value)
    room ← optional room_of (lookup "expected_room_id" value)
    generation ← optional (text_of generation_name) (lookup "expected_generation" value)
    parsed (record {
      character = character;
      command = order.0;
      commands = order.1;
      expected_room_id = room;
      expected_generation = generation;
      ttl_seconds = ttl;
      deadline = none;
      controller_deadline = none;
    })
