-- ===== src/Actions/Owned.antt =====
-- `ActionBroker` of src/lich_agent_bridge/actions.py: the methods that a request names an action to.
-- Where the source goes on with the action that it found before `_expire_locked` ran, the same
-- object is read from the dict again.
use lich_agent_bridge.Base.{
  ℕ, String, Bool, true, false, ◌&&◌, ◌||◌, not, Option, none, some, List, [], ◌∷◌, ltb,
  if◌then◌else◌, str_eq, is_some,
}
use lich_agent_bridge.Base.Dict.{member}
use lich_agent_bridge.Actions.Types.{
  Action, Status, queued, cancelled, denied_stale_room, is_pending, is_launched, is_awaiting,
  is_dispatched, is_completed, Completion, Outcome, Approval, Report, Env, action_approved,
  action_denied, action_result, action_cancelled, travel_stop_requested, test_stop_requested,
  controller_control_revoked, controller_return_requested, controller_run_revoked,
  stale_room_at_approval, Instruction, PublicAction, ok, other_character, other_generation,
  not_awaiting_confirmation, room_changed, not_dispatched, other_test_owner, not_test_launch,
  other_control_owner, not_refuge_launch, not_authorized, other_run_owner,
}
use lich_agent_bridge.Actions.Exec.{Exec, ◌>>=◌, ◌>>◌, pure, raise, lift, check, log, get_broker}
use lich_agent_bridge.Actions.Fields.{
  action_id, character_name, generation_name, travel_run, public,
}
use lich_agent_bridge.Actions.Loop.{store}
use lich_agent_bridge.Actions.Broker.{
  is_stale_room, same_name, expire_locked, find_locked, require_active_generation_locked,
}

-- Write the changed action back.
abbrev pub save : Action → Exec (Unit {0})
save a b = (ok tt, record b { actions = store a b.actions })

-- `public(instruction=action.status)`
abbrev pub show_status : Action → PublicAction
show_status a = public a (Instruction.status a.status)

-- `if action.status in {"confirmation_required", "queued"}: action.status = "cancelled"`
abbrev pub cancel_if_pending : Action → Action
cancel_if_pending a = record a { status = if is_pending a.status then cancelled else a.status }

module _ (env : Env) where
  open env use {casefold, is_refuge_launch}

  -- The last part of `approve`, for an action that awaits confirmation.
  unfoldable pub confirm : Approval → Action → Bool → Exec PublicAction
  confirm approval a true = do
    let denied = record a { status = denied_stale_room }
    save denied
    log (action_denied stale_room_at_approval denied none ∷ [])
    raise room_changed
  confirm approval a false = do
    let approved = record a { expected_room_id = some approval.room_id; status = queued }
    save approved
    log (action_approved approved approval.room_id approval.approval_mode ∷ [])
    pure (public approved (Instruction.status queued))

  unfoldable pub approve : ℕ → Approval → Exec PublicAction
  unfolding confirm
  approve now approval = do
    expire_locked env now
    a ← find_locked env approval.action_id
    check (same_name env a.character approval.character) other_character
    require_active_generation_locked env approval.character approval.generation
    check (str_eq a.generation approval.generation) other_generation
    check (is_awaiting a.status) not_awaiting_confirmation
    confirm approval a (is_stale_room a.expected_room_id approval.room_id)

  -- The status and the completion that `record_result` writes for an outcome.
  abbrev pub settle : Outcome → Action → Action
  settle Outcome.failed a = record a {
    status = Status.failed;
    completion = some Completion.has_failed;
  }
  settle Outcome.succeeded a = record a {
    status = Status.completed;
    completion = some Completion.has_succeeded;
  }
  settle _ a = record a { status = Status.completed; completion = some Completion.sent_unverified }

  -- The last part of `record_result`, for an action that was dispatched.
  unfoldable pub settle_checked : Report → Action → Exec Action
  settle_checked report a = do
    let settled = settle report.outcome (record a { detail = some report.detail })
    save settled
    log (action_result settled report.outcome ∷ [])
    pure settled

  unfoldable pub record_result : Report → Exec Action
  unfolding settle_checked
  record_result report = do
    a ← find_locked env report.action_id
    check (same_name env a.character report.character) other_character
    require_active_generation_locked env report.character report.generation
    check (str_eq a.generation report.generation) other_generation
    check (is_dispatched a.status) not_dispatched
    settle_checked report a

  -- `get`: it advances no action but by expiry.
  unfoldable pub get : ℕ → String → Exec PublicAction
  get now value = do
    expire_locked env now
    i ← lift (action_id value)
    a ← find_locked env i
    pure (show_status a)

  unfoldable pub cancel : ℕ → String → String → String → Exec (PublicAction × Bool)
  cancel now value character generation = do
    i ← lift (action_id value)
    found ← find_locked env i
    name ← lift (character_name character)
    check (same_name env found.character name) other_character
    wanted ← lift (generation_name generation)
    check (str_eq found.generation wanted) other_generation
    expire_locked env now
    a ← find_locked env i
    let stopping = travel_run a.commands && is_dispatched a.status
    let stopped = record a { stop_requested = if stopping then true else a.stop_requested }
    log (if stopping then travel_stop_requested stopped ∷ [] else [])
    let ended = cancel_if_pending stopped
    save ended
    log (if is_pending a.status then action_cancelled ended ∷ [] else [])
    pure (show_status ended, is_pending a.status)

  unfoldable pub request_test_stop : ℕ → String → String → String → Exec PublicAction
  request_test_stop now value character generation = do
    i ← lift (action_id value)
    found ← find_locked env i
    name ← lift (character_name character)
    check (same_name env found.character name) other_test_owner
    wanted ← lift (generation_name generation)
    check (str_eq found.generation wanted) other_test_owner
    check found.test_run not_test_launch
    expire_locked env now
    a ← find_locked env i
    let marked = record a {
      stop_requested = if is_launched a.status then true else a.stop_requested;
    }
    let ended = cancel_if_pending marked
    save ended
    log (test_stop_requested ended ∷ [])
    pure (show_status ended)

  unfoldable pub revoke_controller_control : ℕ → String → String → String → Exec PublicAction
  revoke_controller_control now value character generation = do
    i ← lift (action_id value)
    found ← find_locked env i
    name ← lift (character_name character)
    check (same_name env found.character name) other_control_owner
    wanted ← lift (generation_name generation)
    check (str_eq found.generation wanted && found.controller_control) other_control_owner
    expire_locked env now
    a ← find_locked env i
    let ended = record (cancel_if_pending a) { stop_requested = true }
    save ended
    log (controller_control_revoked ended ∷ [])
    pure (show_status ended)

  unfoldable pub revoke_controller_run : ℕ → String → String → String → Exec PublicAction
  revoke_controller_run now value character generation = do
    i ← lift (action_id value)
    found ← find_locked env i
    name ← lift (character_name character)
    check (same_name env found.character name) other_run_owner
    wanted ← lift (generation_name generation)
    check (str_eq found.generation wanted && is_some found.controller_deadline) other_run_owner
    expire_locked env now
    a ← find_locked env i
    let ended = record (cancel_if_pending a) { stop_requested = true }
    save ended
    log (controller_run_revoked ended ∷ [])
    pure (show_status ended)

  -- `len(action.commands) == 1 and self._policy.is_refuge_launch(action.commands[0])`
  abbrev pub is_refuge_action : List String → Bool
  is_refuge_action (command ∷ []) = is_refuge_launch command
  is_refuge_action _ = false

  -- `self._clock() < action.controller_deadline`
  abbrev pub is_before : ℕ → Option ℕ → Bool
  is_before now none = false
  is_before now (some deadline) = ltb now deadline

  -- The clock is read twice: for the expiry, and for the deadline of the run.
  unfoldable pub request_controller_return : ℕ → ℕ → String → String → String → Exec PublicAction
  request_controller_return now later value character generation = do
    i ← lift (action_id value)
    found ← find_locked env i
    name ← lift (character_name character)
    check (same_name env found.character name) not_refuge_launch
    wanted ← lift (generation_name generation)
    check
        (str_eq found.generation wanted
          && is_some found.controller_deadline
          && is_refuge_action found.commands)
        not_refuge_launch
    expire_locked env now
    a ← find_locked env i
    require_active_generation_locked env a.character a.generation
    b ← get_broker
    check
        (not a.stop_requested
          && (is_dispatched a.status || is_completed a.status)
          && member (casefold a.character) b.enabled
          && is_before later a.controller_deadline)
        not_authorized
    let returning = record a { return_requested = true }
    save returning
    log (controller_return_requested returning ∷ [])
    pure (show_status returning)
