-- ===== src/Actions/Fields.antt =====
-- The field checks of src/lich_agent_bridge/actions.py, the stop test of an action and its public
-- mapping.
use lich_agent_bridge.Base.{
  ℕ, ◌+◌, String, Bool, true, false, ◌&&◌, ◌||◌, Option, none, some, List, [], ◌∷◌, leb, ltb, ◌==◌,
  if◌then◌else◌, is_some, length,
}
use lich_agent_bridge.Base.Text.{codes, len, is_blank, strip, drop_nul, is_digit}
use lich_agent_bridge.Actions.Types.{
  Action, blank_text, long_text, bad_action_id, Instruction, PublicAction, Result, ok, err,
}

-- `_text` of a string
unfoldable pub text : ℕ → String → Result String
unfolding strip drop_nul
text maximum value =
    let normalized = strip (drop_nul value) in
    if is_blank normalized
    then err blank_text
    else if ltb maximum (len normalized)
    then err long_text
    else ok normalized

is_hex_digit : ℕ → Bool
unfolding is_digit
is_hex_digit c = is_digit c || (leb b'a' c && leb c b'f')

abbrev all_codes : (ℕ → Bool) → List ℕ → Bool
all_codes p [] = true
all_codes p (c ∷ cs) = p c && all_codes p cs

-- `_action_id`: `re.fullmatch(r"[0-9a-f]{16}", action_id)`
unfoldable pub action_id : String → Result String
unfolding text is_hex_digit
action_id value = elim (text 64 value) [
  | ok i ↦ if len i == 16 && all_codes is_hex_digit (codes i) then ok i else err bad_action_id
  | err e ↦ err e
]

-- `_character`, `_generation`
abbrev pub character_name : String → Result String
character_name = text 40

abbrev pub generation_name : String → Result String
generation_name = text 128

-- One literal letter under `re.IGNORECASE`: its two cases, and the letters outside ASCII that
-- Python folds to `i` and `s`.
folds_to : ℕ → ℕ → Bool
folds_to c l =
    c == l
    || (leb b'a' l && leb l b'z' && c + 32 == l)
    || (l == b'i' && (c == 0x130 || c == 0x131))
    || (l == b's' && c == 0x17f)

-- What follows a prefix that matches the given literal, if it does.
after_literal : List ℕ → List ℕ → Option (List ℕ)
unfolding folds_to
after_literal [] cs = some cs
after_literal (l ∷ ls) [] = none
after_literal (l ∷ ls) (c ∷ cs) =
    let rest = after_literal ls cs in if folds_to c l then rest else none

-- `[1-9][0-9]{0,9}`
is_room_number : List ℕ → Bool
unfolding is_digit
is_room_number [] = false
is_room_number (c ∷ cs) = leb b'1' c && leb c b'9' && leb (length cs) 9 && all_codes is_digit cs

is_supervised_travel : String → Bool
unfolding after_literal is_room_number
is_supervised_travel command = elim (after_literal (codes "go2 supervised ") (codes command)) [
  | none ↦ false
  | some rest ↦ is_room_number rest
]

-- `_Action.travel_run`
unfoldable pub travel_run : List String → Bool
unfolding is_supervised_travel
travel_run (command ∷ []) = is_supervised_travel command
travel_run _ = false

-- `action.test_run or action.controller_control or action.controller_deadline is not None or
-- action.travel_run`: the actions whose running script watches `stop_requested`.
unfoldable pub is_stoppable : Action → Bool
is_stoppable a =
    a.test_run || a.controller_control || is_some a.controller_deadline || travel_run a.commands

-- `_Action.public`
unfoldable pub public : Action → Instruction → PublicAction
public a instruction = record {
  action_id = a.action_id;
  character = a.character;
  generation = a.generation;
  kind = a.kind;
  instruction = instruction;
  expected_room_id = a.expected_room_id;
  expires_at = a.expires_at;
  commands = a.commands;
  completion = a.completion;
  detail = a.detail;
  controller_deadline = a.controller_deadline;
  return_requested = if is_some a.controller_deadline then some a.return_requested else none;
  stop_requested = if is_stoppable a then some a.stop_requested else none;
}
