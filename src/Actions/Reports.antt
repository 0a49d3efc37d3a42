-- ===== src/Actions/Reports.antt =====
-- `ActionResult.from_mapping` and `ActionStatusRequest.from_mapping` of
-- src/lich_agent_bridge/actions.py.

use lich_agent_bridge.Base.{ℕ, zero, suc, String, Option, none, some, List, [], ◌∷◌}
use lich_agent_bridge.Base.Dict.{lookup}
use lich_agent_bridge.Base.Text.{drop_nul, strip}
use lich_agent_bridge.Actions.Types.{Outcome, Report}
use lich_agent_bridge.Actions.Fields.{text, action_id, character_name, generation_name}
use lich_agent_bridge.Actions.Parsing.{
  Json, string, bad_outcome, not_a_string, Object, Parsed, parsed, refused, ◌>>=◌, strict_keys,
  text_of,
}

-- `value[:n]`
unfoldable pub cut : ℕ → String → String
cut zero s = String.[]
cut (suc n) String.[] = String.[]
cut (suc n) (String.◌∷◌ c s) = String.◌∷◌ c (cut n s)

-- The four outcomes by name.
abbrev pub outcomes : List (String × Outcome)
outcomes =
    ("completed", Outcome.completed)
    ∷ ("failed", Outcome.failed)
    ∷ ("sent_unverified", Outcome.sent_unverified)
    ∷ ("succeeded", Outcome.succeeded)
    ∷ []

unfoldable pub outcome_of : Option Outcome → Parsed Outcome
outcome_of none = refused bad_outcome
outcome_of (some o) = parsed o

unfoldable pub detail_of : Option Json → Parsed String
unfolding drop_nul strip cut
detail_of (some (string s)) = parsed (cut 500 (strip (drop_nul s)))
detail_of _ = refused not_a_string

-- `ActionResult.from_mapping`
unfoldable pub parse_report : (String → String) → Object → Parsed Report
unfolding strict_keys text_of outcome_of detail_of lookup
parse_report casefold value = do
  let names = "action_id" ∷ "character" ∷ "generation" ∷ "outcome" ∷ "detail" ∷ []
  _ ← strict_keys names names value
  written ← text_of (text 16) (lookup "outcome" value)
  outcome ← outcome_of (lookup (casefold written) outcomes)
  detail ← detail_of (lookup "detail" value)
  i ← text_of action_id (lookup "action_id" value)
  character ← text_of character_name (lookup "character" value)
  generation ← text_of generation_name (lookup "generation" value)
  parsed (record {
    action_id = i;
    character = character;
    outcome = outcome;
    detail = detail;
    generation = generation;
  })

-- `ActionStatusRequest.from_mapping`
unfoldable pub parse_status_request : Object → Parsed String
unfolding strict_keys text_of
parse_status_request value = do
  _ ← strict_keys ("action_id" ∷ []) ("action_id" ∷ []) value
  text_of action_id (lookup "action_id" value)
