-- ===== src/Actions/Submit.antt =====
-- `ActionBroker.submit` and `_evaluate_proposal` of src/lich_agent_bridge/actions.py.
use lich_agent_bridge.Base.{
  ℕ, ◌+◌, ◌*◌, min, String, Bool, true, false, ◌&&◌, ◌||◌, not, Option, none, some, List, [], ◌∷◌,
  leb, ltb, if◌then◌else◌, str_eq, is_some, length,
}
use lich_agent_bridge.Base.Dict.{lookup, member}
use lich_agent_bridge.Base.Text.{len}
use lich_agent_bridge.Actions.Types.{
  Action, Status, queued, Deadline, not_a_number, not_finite, at, Proposal, Env, action_proposed,
  Instruction, PublicAction, Result, ok, err, no_active_generation, proposal_generation,
  actions_disabled, bad_controlled_launch, unexpected_controller_deadline, operation_deadline,
  not_exactly_one_command, bad_command_count, commands_too_long, control_batched, kind_batched,
}
use lich_agent_bridge.Actions.Exec.{Exec, ◌>>=◌, ◌>>◌, pure, raise, lift, check, log, get_broker}
use lich_agent_bridge.Actions.Fields.{text, public}
use lich_agent_bridge.Actions.Owned.{save}

-- What `_evaluate_proposal` returns.
pub record Evaluation : Type 0 where
  pub commands : List String
  pub kind : String
  pub confirmation_required : Bool

-- `decision.kind in {"inspection", "inventory", "crafting"}`
abbrev pub is_batch_kind : String → Bool
is_batch_kind kind = str_eq kind "inspection" || str_eq kind "inventory" || str_eq kind "crafting"

module _ (env : Env) where
  open env use {
    casefold, second, evaluate, is_test_launch, is_controller_control, is_controlled_launch,
  }

  -- One round of the loop over the commands of a sequence.
  unfoldable pub evaluate_step : String → Result String
  evaluate_step command = elim (text 160 command) [
    | err e ↦ err e
    | ok checked ↦ elim (evaluate checked) [
      | err e ↦ err e
      | ok decision ↦
          if is_controller_control decision.command
          then err control_batched
          else if not (is_batch_kind decision.kind)
          then err kind_batched
          else ok decision.command
    ]
  ]

  abbrev pub cons_result : Result String → Result (List String) → Result (List String)
  cons_result (err e) rest = err e
  cons_result (ok c) (err e) = err e
  cons_result (ok c) (ok cs) = ok (c ∷ cs)

  unfoldable pub evaluate_steps : List String → Result (List String)
  evaluate_steps [] = ok []
  evaluate_steps (c ∷ cs) = cons_result (evaluate_step c) (evaluate_steps cs)

  abbrev pub total_length : List String → ℕ
  total_length [] = 0
  total_length (c ∷ cs) = len c + total_length cs

  abbrev pub whole_sequence : Result (List String) → Result Evaluation
  whole_sequence (err e) = err e
  whole_sequence (ok commands) =
      if ltb 1200 (total_length commands)
      then err commands_too_long
      else ok (record { commands = commands; kind = "sequence"; confirmation_required = true })

  unfoldable pub single_command : String → Result Evaluation
  single_command command = elim (text 160 command) [
    | err e ↦ err e
    | ok checked ↦ elim (evaluate checked) [
      | err e ↦ err e
      | ok decision ↦ ok (record {
        commands = decision.command ∷ [];
        kind = decision.kind;
        confirmation_required = decision.confirmation_required;
      })
    ]
  ]

  -- `_evaluate_proposal` on `proposal.command` and `proposal.commands`
  unfoldable pub evaluate_proposal : Option String → List String → Result Evaluation
  unfolding single_command
  evaluate_proposal none [] = err not_exactly_one_command
  evaluate_proposal (some command) (c ∷ cs) = err not_exactly_one_command
  evaluate_proposal (some command) [] = single_command command
  evaluate_proposal none (c ∷ cs) =
      if leb 2 (length (c ∷ cs)) && leb (length (c ∷ cs)) 12
      then whole_sequence (evaluate_steps (c ∷ cs))
      else err bad_command_count

  -- `len(normalized_commands) == 1 and test(normalized_commands[0])`
  abbrev pub is_single : (String → Bool) → List String → Bool
  is_single test (command ∷ []) = test command
  is_single test _ = false

  abbrev pub is_other_generation : Option String → String → Bool
  is_other_generation none active = false
  is_other_generation (some expected) active = not (str_eq expected active)

  -- A number that is finite and after `now`.
  abbrev pub is_future : ℕ → Deadline → Bool
  is_future now (at t) = ltb now t
  is_future now _ = false

  abbrev pub is_future_option : ℕ → Option Deadline → Bool
  is_future_option now none = false
  is_future_option now (some d) = is_future now d

  abbrev pub time_of : Option Deadline → Option ℕ
  time_of (some (at t)) = some t
  time_of _ = none

  -- The tests of `proposal.controller_deadline`.
  unfoldable pub check_controller_deadline : ℕ → Bool → Proposal → Exec (Unit {0})
  check_controller_deadline now true proposal =
      check
        (is_future_option now proposal.controller_deadline && is_some proposal.expected_generation)
        bad_controlled_launch
  check_controller_deadline now false proposal =
      check (not (is_some proposal.controller_deadline)) unexpected_controller_deadline

  -- `expires_at`, cut off at the deadline of the owning operation.
  unfoldable pub expiry : ℕ → ℕ → Option Deadline → Result ℕ
  expiry now expires_at none = ok expires_at
  expiry now expires_at (some (at t)) =
      if ltb now t then ok (min expires_at t) else err operation_deadline
  expiry now expires_at (some not_a_number) = err operation_deadline
  expiry now expires_at (some not_finite) = err operation_deadline

  abbrev pub require_active : Option String → Exec String
  require_active none = raise no_active_generation
  require_active (some generation) = pure generation

  -- The action that `submit` creates; `token` is `secrets.token_hex(8)`.
  unfoldable pub new_action : String → ℕ → ℕ → String → Evaluation → Proposal → Action
  new_action token now expires_at generation e proposal = record {
    action_id = token;
    character = proposal.character;
    generation = generation;
    commands = e.commands;
    kind = e.kind;
    status = if e.confirmation_required then Status.confirmation_required else queued;
    expected_room_id = proposal.expected_room_id;
    created_at = now;
    expires_at = expires_at;
    confirmation_required = e.confirmation_required;
    notified = false;
    completion = none;
    detail = none;
    test_run = is_single is_test_launch e.commands;
    controller_control = is_single is_controller_control e.commands;
    controller_deadline =
        if is_single is_controlled_launch e.commands
        then time_of proposal.controller_deadline
        else none;
    stop_requested = false;
    return_requested = false;
  }

  unfoldable pub submit : String → ℕ → Proposal → Exec PublicAction
  unfolding check_controller_deadline expiry new_action
  submit token now proposal = do
    e ← lift (evaluate_proposal proposal.command proposal.commands)
    b ← get_broker
    let key = casefold proposal.character
    generation ← require_active (lookup key b.active_generations)
    check (not (is_other_generation proposal.expected_generation generation)) proposal_generation
    check (member key b.enabled) actions_disabled
    check_controller_deadline now (is_single is_controlled_launch e.commands) proposal
    expires_at ← lift (expiry now (now + proposal.ttl_seconds * second) proposal.deadline)
    let action = new_action token now expires_at generation e proposal
    log (action_proposed action ∷ [])
    save action
    pure (public action (Instruction.status action.status))
