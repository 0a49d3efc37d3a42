-- ===== src/Operations/Execution.antt =====
-- How an operation of src/lich_agent_bridge/operations.py is run to its end: the handler, and after
-- a failure the clean-up of its item.
use lich_agent_bridge.Base.{
  ℕ, ◌-◌, ◌*◌, String, Bool, true, false, not, Option, none, some, List, [], ◌∷◌, leb,
  if◌then◌else◌,
}
use lich_agent_bridge.Base.Text.{concat, is_blank}
use lich_agent_bridge.Operations.Types.{
  Binding, Item, Location, Session, Status, failed, succeeded, timed_out,
}
use lich_agent_bridge.Operations.Host.{
  Fault, Host, Texts, fault, validation_error, value_or_key_error,
}
use lich_agent_bridge.Operations.Monad.{
  M, Outcome, abort, call, catch, catch_abort, demand, done, failure, get_operation, pure, require,
  unfinished, update, ◌>>=◌, ◌>>◌,
}
use lich_agent_bridge.Operations.Steps.{clock, raise_alert, safe_snapshot, transition}
use lich_agent_bridge.Operations.Objects.{at_place, safest}
use lich_agent_bridge.Operations.Items.{
  exact_item, fresh_bound_item, is_owned_location, run_action_step, verify_binding,
}

-- `f"{error}"` of what `_execute_operation` caught, and the status that the operation ends with
abbrev pub fault_text : Fault → String
fault_text (validation_error e) = e
fault_text (value_or_key_error e) = e
fault_text (fault e) = concat ("operation adapter failed: " ∷ e ∷ [])

abbrev pub is_timed_out : Status → Bool
is_timed_out timed_out = true
is_timed_out _ = false

module _ {W R : Type 0} (py : Texts) (host : Host W R) where
  unfoldable pub owned_of : String → List Location → List Location
  owned_of character [] = []
  owned_of character (l ∷ rest) =
      let others = owned_of character rest in
      if is_owned_location py host character l then l ∷ others else others

  unfoldable pub cleanup_failed : Status → String → M W (Unit {0})
  cleanup_failed t d = raise_alert py host (concat ("safe cleanup failed: " ∷ d ∷ []))

  unfoldable pub secure : ℕ → Binding → Location → String → M W (Unit {0})
  secure fuel b target command = do
    run_action_step py host fuel b command
        (concat ("placing exact item in safest owned location " ∷ target.location_id ∷ [])) true
    x ← fresh_bound_item py host b
    require (at_place x target) "safe-location verification failed"
    raise_alert py host (
        concat
          ("operation failed; exact item secured in owned location " ∷ target.location_id ∷ []))

  unfoldable pub restorable : Option String → Option String
  restorable none = none
  restorable (some c) = if is_blank c then none else some c

  unfoldable pub place : ℕ → Binding → Location → Option String → M W (Unit {0})
  place fuel b target none = raise_alert py host (
      concat (
        "cleanup blocked: safest owned location " ∷ target.location_id ∷ " has no restore command"
        ∷ []))
  place fuel b target (some c) = catch_abort (secure fuel b target c) cleanup_failed

  unfoldable pub move_to : ℕ → Bool → Binding → Item → Location → M W (Unit {0})
  move_to fuel allow_commands b x target =
      if at_place x target
      then raise_alert py host (
          concat (
            "operation failed; exact item retained in safest owned location " ∷ target.location_id
            ∷ []))
      else if not allow_commands
      then raise_alert py host "operation timed out; no cleanup command issued after the deadline"
      else place fuel b target (restorable target.restore_command)

  unfoldable pub choose : ℕ → Bool → Binding → Item → List Location → M W (Unit {0})
  choose fuel allow_commands b x [] =
      raise_alert py host "cleanup blocked: no positively identified owned location"
  choose fuel allow_commands b x (l ∷ rest) = move_to fuel allow_commands b x (safest l rest)

  unfoldable pub settle : ℕ → Bool → Binding → Item → M W (Unit {0})
  settle fuel allow_commands b x =
      if at_place x b.original_location
      then raise_alert py host (
          concat (
            "operation failed; exact item retained in original owned location "
            ∷ x.location.location_id ∷ []))
      else (do
        o ← get_operation
        more ← call (host.safest_owned_locations o.character b.object_id)
        choose fuel allow_commands b x (owned_of o.character (b.original_location ∷ more)))

  unfoldable pub cleanup_blocked : Status → String → M W (Option Item)
  cleanup_blocked t d = raise_alert py host (concat ("cleanup blocked: " ∷ d ∷ [])) >> pure none

  unfoldable pub bound_item : Session → Binding → M W (Option Item)
  bound_item s b = do verify_binding py host s b; x ← exact_item py host s b; pure (some x)

  unfoldable pub settle_if : ℕ → Bool → Binding → Option Item → M W (Unit {0})
  settle_if fuel allow_commands b none = pure tt
  settle_if fuel allow_commands b (some x) = settle fuel allow_commands b x

  unfoldable pub clean_up : ℕ → Bool → Binding → Option Session → M W (Unit {0})
  clean_up fuel allow_commands b none =
      raise_alert py host "cleanup blocked: live state is unavailable"
  clean_up fuel allow_commands b (some s) = do
    x ← catch_abort (bound_item s b) cleanup_blocked
    settle_if fuel allow_commands b x

  unfoldable pub clean_up_bound : ℕ → Bool → Option Binding → M W (Unit {0})
  clean_up_bound fuel allow_commands none = pure tt
  clean_up_bound fuel allow_commands (some b) = do
    s ← safe_snapshot py host
    clean_up fuel allow_commands b s

  -- `_safe_cleanup`
  unfoldable pub safe_cleanup : ℕ → Bool → M W (Unit {0})
  safe_cleanup fuel allow_commands = do
    o ← get_operation
    clean_up_bound fuel allow_commands o.binding

  -- `_finish`, for an operation that owns no controller, refuge or travel
  unfoldable pub finish : Status → String → M W (Unit {0})
  finish status detail = do
    now ← clock py host
    update (λ o. record o { ended_at = some now })
    transition py host status detail

  -- The `try` of `_execute_operation`.
  unfoldable pub attempt : Option (M W String) → M W (Unit {0})
  attempt handler = do
    h ← demand handler "unsupported capability"
    o ← get_operation
    require (leb (o.deadline - o.requested_at) (30 * host.second))
        "only refuge outings and direct travel can extend the existing 30-second operation envelope"
    explanation ← h
    update (λ o. record o { explanation = explanation })
    finish succeeded explanation

  unfoldable pub cleanup_raised : Outcome (Unit {0}) → M W (Unit {0})
  cleanup_raised unfinished s = (unfinished, s)
  cleanup_raised (abort t d) s =
      raise_alert py host (concat ("cleanup adapter failed: " ∷ d ∷ [])) s
  cleanup_raised (failure x) s = raise_alert py host "cleanup adapter failed" s
  cleanup_raised (done a) s = (done a, s)

  -- What `_execute_operation` does after its `except` clauses.
  unfoldable pub give_up : ℕ → Status → String → M W (Unit {0})
  give_up fuel status detail = do
    catch (safe_cleanup fuel (not (is_timed_out status))) cleanup_raised
    end ← safe_snapshot py host
    update (λ o. record o { end_state = end; explanation = detail })
    finish status detail

  unfoldable pub after_failure : ℕ → Outcome (Unit {0}) → M W (Unit {0})
  after_failure fuel unfinished s = (unfinished, s)
  after_failure fuel (abort t d) s = give_up fuel t d s
  after_failure fuel (failure x) s = give_up fuel failed (fault_text x) s
  after_failure fuel (done a) s = (done a, s)

  -- `_execute_operation`, of an operation whose capability has this handler
  unfoldable pub execute_operation : ℕ → Option (M W String) → M W (Unit {0})
  execute_operation fuel handler = catch (attempt handler) (after_failure fuel)
