-- ===== src/Operations/Steps.antt =====
-- The steps of src/lich_agent_bridge/operations.py that the capability handlers share: events, the
-- deadline, fresh sessions, and one action through the broker.
use Prim.Native.Nat.{◌/◌, max}
use lich_agent_bridge.Base.{
  ℕ, zero, suc, ◌+◌, ◌-◌, min, String, Bool, true, false, ◌&&◌, not, Option, none, some, [], ◌∷◌,
  ◌++◌, leb, ltb, if◌then◌else◌, str_eq,
}
use lich_agent_bridge.Base.Text.{concat, is_blank}
use lich_agent_bridge.Actions.Types.{Proposal}
use lich_agent_bridge.Actions
use lich_agent_bridge.Operations.Types.{
  Operation, Session, Status, timed_out, interrupted, admitted, running, may_follow,
}
use lich_agent_bridge.Operations.Registry.{emit}
use lich_agent_bridge.Operations.Host.{Host, Texts, validation_error, fault}
use lich_agent_bridge.Operations.Monad.{
  give_out, break_off, M, Outcome, abort, done, unfinished, failure, call, catch, demand, fail,
  get_operation, log_submitted, pure, read, require, update, ◌>>=◌, ◌>>◌,
}

-- What `_run_broker_step` does on the action's status.
pub data Phase : Type 0 where
  finished failed_for_good open_yet : Phase

abbrev pub phase : Actions.Types.Status → Phase
phase Actions.Types.Status.completed = finished
phase Actions.Types.Status.failed = failed_for_good
phase Actions.Types.Status.expired = failed_for_good
phase Actions.Types.Status.cancelled = failed_for_good
phase Actions.Types.Status.denied_stale_room = failed_for_good
phase _ = open_yet

abbrev pub status_text : Actions.Types.Status → String
status_text Actions.Types.Status.confirmation_required = "confirmation_required"
status_text Actions.Types.Status.queued = "queued"
status_text Actions.Types.Status.dispatched = "dispatched"
status_text Actions.Types.Status.completed = "completed"
status_text Actions.Types.Status.failed = "failed"
status_text Actions.Types.Status.cancelled = "cancelled"
status_text Actions.Types.Status.expired = "expired"
status_text Actions.Types.Status.denied_stale_room = "denied_stale_room"

abbrev pub completion_text : Option Actions.Types.Completion → String
completion_text none = "sent_unverified"
completion_text (some Actions.Types.Completion.has_failed) = "failed"
completion_text (some Actions.Types.Completion.has_succeeded) = "succeeded"
completion_text (some Actions.Types.Completion.sent_unverified) = "sent_unverified"

module _ {W R : Type 0} (texts : Texts) (host : Host W R) where
  -- `_emit_locked`, on the operation
  unfoldable pub record_event : Status → String → M W (Unit {0})
  record_event status detail s =
      let (cursor, w) = host.next_cursor s.world in
      (
        done tt,
        record s { operation = emit cursor (host.now w) status detail s.operation; world = w },
      )

  -- `_progress`
  unfoldable pub progress : String → M W (Unit {0})
  progress detail = do o ← get_operation; record_event o.status detail

  -- `_transition`
  unfoldable pub transition : Status → String → M W (Unit {0})
  transition status detail = do
    o ← get_operation
    if may_follow o.status status
        then update (λ p. record p { status = status }) >> record_event status detail
        else break_off (fault "invalid operation transition")

  -- `_raise_alert`
  unfoldable pub raise_alert : String → M W (Unit {0})
  raise_alert detail = do
    update (λ o. record o { alerts = o.alerts ++ detail ∷ [] })
    read (λ w. (tt, host.alert detail w))
    progress (concat ("alert: " ∷ detail ∷ []))

  unfoldable pub clock : M W ℕ
  clock s = (done (host.now s.world), s)

  abbrev pub require_time : ℕ → String → M W (Unit {0})
  require_time deadline detail = do
    now ← clock
    if leb deadline now then give_out timed_out detail else pure tt

  unfoldable pub stop_if : Bool → M W (Unit {0})
  stop_if true = give_out interrupted "operation interrupted before next step"
  stop_if false = pure tt

  -- `_check_deadline_and_interruption`
  unfoldable pub check_deadline_and_interruption : Bool → M W (Unit {0})
  check_deadline_and_interruption allow_interrupt = do
    o ← get_operation
    require_time o.deadline "operation timed out"
    stopped ← read (host.is_interrupted o.operation_id)
    stop_if (allow_interrupt && stopped)

  abbrev pub unless_cleanup : Bool → M W (Unit {0})
  unless_cleanup true = pure tt
  unless_cleanup false = check_deadline_and_interruption true

  -- `_admit_and_start`
  unfoldable pub admit_and_start : String → String → M W (Unit {0})
  admit_and_start admitted_detail running_detail = do
    now ← clock
    update (λ o. record o { admitted_at = some now })
    transition admitted admitted_detail
    check_deadline_and_interruption true
    later ← clock
    update (λ o. record o { started_at = some later })
    transition running running_detail

  -- `self._state.snapshot(operation.character)`
  unfoldable pub snapshot : M W Session
  snapshot = do o ← get_operation; call (host.snapshot o.character)

  abbrev pub or_none : {A : Type 0} → Outcome (Option A) → M W (Option A)
  or_none unfinished s = (unfinished, s)
  or_none _ s = (done none, s)

  -- `_safe_snapshot`
  unfoldable pub safe_snapshot : M W (Option Session)
  safe_snapshot = catch (snapshot >>= λ s. pure (some s)) or_none

  -- Whether the optional text, if there is one, is the session's generation.
  abbrev pub is_expected : Option String → String → Bool
  is_expected none generation = true
  is_expected (some g) generation = str_eq generation g

  abbrev pub is_at_least : Option ℕ → ℕ → Bool
  is_at_least none n = true
  is_at_least (some m) n = leb m n

  abbrev pub is_after : Option ℕ → ℕ → Bool
  is_after none n = true
  is_after (some m) n = ltb m n

  -- The last tests of `_require_fresh_session`.
  unfoldable pub require_fresh : Option String → Option ℕ → Option ℕ → Session → M W (Session × ℕ)
  require_fresh expected_generation minimum_sequence after_sequence s = do
    require (is_expected expected_generation s.generation) "stale session generation"
    require s.fresh "fresh structured session state is required"
    n ← demand s.sequence "snapshot sequence is unknown"
    require (is_at_least minimum_sequence n) "snapshot sequence regressed"
    require (is_after after_sequence n) "verified post-state did not advance"
    pure (s, n)

  -- `_require_fresh_session`: the snapshot and its sequence
  unfoldable pub require_fresh_session : Option String → Option ℕ → Option ℕ → M W (Session × ℕ)
  require_fresh_session expected_generation minimum_sequence after_sequence = do
    o ← get_operation
    s ← snapshot
    require (str_eq (texts.casefold s.character) (texts.casefold o.character))
        "state belongs to another character"
    require (not (is_blank s.generation)) "active session generation is unavailable"
    require (is_expected o.expected_generation s.generation) "stale session generation"
    require_fresh expected_generation minimum_sequence after_sequence s

  -- `max(1, min(120, math.ceil(remaining)))`, of a time in ticks
  unfoldable pub ttl_of : ℕ → ℕ
  ttl_of remaining = max 1 (min 120 ((remaining + (host.second - 1)) / host.second))

  -- The proposal of `_run_broker_step`, for the capabilities that set no deadline of their own.
  abbrev pub proposal_for : Operation → Session → String → ℕ → Proposal
  proposal_for o s command ttl = record {
    character = o.character;
    command = some command;
    commands = [];
    expected_room_id = some s.room_id;
    expected_generation = some s.generation;
    ttl_seconds = ttl;
    deadline = none;
    controller_deadline = none;
  }

  abbrev pub denied : {A : Type 0} → String → Outcome A → M W A
  denied detail (failure (validation_error e)) s =
      (abort Status.failed (concat ("broker denied " ∷ detail ∷ ": " ∷ e ∷ [])), s)
  denied detail x s = (x, s)

  -- `self._actions.submit`, with the `ValidationError` turned into an abort
  unfoldable pub submit_step : Session → String → String → M W String
  submit_step s command detail = do
    o ← get_operation
    now ← clock
    if leb o.deadline now
        then give_out timed_out "operation timed out before next action"
        else (let p = proposal_for o s command (ttl_of (o.deadline - now)) in
            log_submitted p >> catch (call (host.submit p)) (denied detail))

  abbrev pub on_phase : {A : Type 0} → Phase → M W A → M W A → M W A → M W A
  on_phase finished a b c = a
  on_phase failed_for_good a b c = b
  on_phase open_yet a b c = c

  -- The loop of `_run_broker_step`, with fuel for its rounds.
  unfoldable pub wait_for_action : ℕ → String → String → Bool → M W (Unit {0})
  wait_for_action zero i detail cleanup = λ s. (unfinished, s)
  wait_for_action (suc fuel) i detail cleanup = do
    v ← call (host.view i)
    on_phase (phase v.0) (progress (concat (detail ∷ ": " ∷ completion_text v.1 ∷ [])))
        (fail (concat ("broker action " ∷ status_text v.0 ∷ ": " ∷ detail ∷ [])))
        (do
          check_deadline_and_interruption (not cleanup)
          read (λ w. (tt, host.sleep w))
          wait_for_action fuel i detail cleanup)

  -- `_run_broker_step`, for a capability other than recon, travel, a test and a controller: the id
  -- of the action, which has completed
  unfoldable pub run_broker_step : ℕ → Session → String → String → Bool → M W String
  run_broker_step fuel s command detail cleanup = do
    unless_cleanup cleanup
    i ← submit_step s command detail
    progress (concat ("broker admitted action " ∷ i ∷ ": " ∷ detail ∷ []))
    call (host.hook i s)
    wait_for_action fuel i detail cleanup
    pure i
