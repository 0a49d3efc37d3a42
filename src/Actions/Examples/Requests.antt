-- ===== src/Actions/Examples/Requests.antt =====
-- A proposal as a JSON object.
use lich_agent_bridge.Base.{◌≤◌, none, some, [], ◌∷◌, ◌≡◌, refl}
use lich_agent_bridge.Base.Dict.{lookup, member}
use lich_agent_bridge.Base.Text.{drop_nul, strip}
use lich_agent_bridge.Actions.Types.{Proposal}
use lich_agent_bridge.Actions.Requests.{parse_proposal-IsOrder}
use lich_agent_bridge.Actions.Fields.{text}
use lich_agent_bridge.Actions.Parsing.{
  ◌>>=◌, Object, array, string, null, parse_proposal, parsed, sequence_of,
}

abbrev wanted : Object
wanted =
    ("character", string " Aria ")
    ∷ ("commands", array (some "look" ∷ some "inventory" ∷ []))
    ∷ ("expected_room_id", null)
    ∷ []

abbrev accepted : Proposal
accepted = record {
  character = "Aria";
  command = none;
  commands = "look" ∷ "inventory" ∷ [];
  expected_room_id = none;
  expected_generation = none;
  ttl_seconds = 45;
  deadline = none;
  controller_deadline = none;
}

wanted-accepted : parse_proposal (λ s. s) (λ v. "0") wanted ≡ parsed accepted
unfolding parse_proposal sequence_of text drop_nul strip lookup member ◌>>=◌
wanted-accepted = refl

parse_proposal-IsOrder_example :
    ((2 ≤ 2) × (2 ≤ 12))
    × (1 ≤ 45)
    × (45 ≤ 120)
    × (accepted.deadline ≡ none)
    × (accepted.controller_deadline ≡ none)
parse_proposal-IsOrder_example =
    parse_proposal-IsOrder (λ s. s) (λ v. "0") wanted accepted wanted-accepted
