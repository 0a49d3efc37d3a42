-- ===== src/Operations/Handlers.antt =====
-- The handlers of `hunt.prepare`, `room.loot` and `session.command` of
-- src/lich_agent_bridge/operations.py, and the choice of a handler.
use lich_agent_bridge.Base.{
  ℕ, String, Bool, false, ◌&&◌, not, Option, none, some, List, [], ◌∷◌, if◌then◌else◌, str_eq,
}
use lich_agent_bridge.Base.Dict.{lookup}
use lich_agent_bridge.Base.Text.{concat}
use lich_agent_bridge.Watchers.Types.{Profile}
use lich_agent_bridge.Operations.Types.{Argument, Session, text}
use lich_agent_bridge.Operations.Host.{Host, Texts}
use lich_agent_bridge.Operations.Monad.{
  M, demand, fail, get_operation, pure, require, update, ◌>>=◌, ◌>>◌,
}
use lich_agent_bridge.Operations.Steps.{admit_and_start, require_fresh_session, run_broker_step}
use lich_agent_bridge.Operations.Objects.{only}
use lich_agent_bridge.Operations.Items.{execute_item_audit}
use lich_agent_bridge.Operations.Direct.{Direct, accepted, refused, normalize_full_access_command}
use lich_agent_bridge.Operations.Scripts.{adapter_command, bigshot, eloot, is_nil}
use lich_agent_bridge.Operations.Readiness.{
  require_no_owner_conflicts, validate_hunt_readiness, validate_room_loot_start,
  verify_room_loot_end, verify_script_owns_lanes,
}

module _ {W R : Type 0} (py : Texts) (host : Host W R) where
  abbrev pub set_start : Session → M W (Unit {0})
  set_start s = update (λ o. record o { start_state = some s })

  abbrev pub set_end : Session → M W (Unit {0})
  set_end s = update (λ o. record o { end_state = some s })

  -- `_require_empty_arguments`
  unfoldable pub require_empty_arguments : M W (Unit {0})
  require_empty_arguments = do
    o ← get_operation
    require (is_nil o.arguments) (concat (o.capability ∷ " does not accept arguments" ∷ []))

  -- The end of `_execute_hunt_prepare`.
  unfoldable pub after_start : Session → ℕ → Profile → M W String
  after_start start second p = do
    (end, third) ← require_fresh_session py host (some start.generation) none (some second)
    validate_hunt_readiness py end p bigshot
    verify_script_owns_lanes py end bigshot
    set_end end
    pure "Bigshot is verified running with movement and combat ownership"

  -- `_execute_hunt_prepare`, of a character with this profile
  unfoldable pub execute_hunt_prepare : ℕ → Option Profile → M W String
  execute_hunt_prepare fuel profile = do
    require_empty_arguments
    p ← demand profile "hunt.prepare has no profile"
    (start, first) ← require_fresh_session py host none none none
    set_start start
    validate_hunt_readiness py start p bigshot
    admit_and_start py host "hunt readiness and Bigshot handoff admitted" "hunt preparation running"
    (current, second) ← require_fresh_session py host (some start.generation) (some first) none
    validate_hunt_readiness py current p bigshot
    command ←
        demand (adapter_command "start" bigshot.entrypoints) "unsupported bigshot entrypoint: start"
    run_broker_step py host fuel current command "starting registered Bigshot adapter" false
    after_start start second p

  -- The end of `_execute_room_loot`.
  unfoldable pub after_sweep : Session → ℕ → List String → String → M W String
  after_sweep start second corpses i = do
    (end, third) ← require_fresh_session py host (some start.generation) none (some second)
    verify_room_loot_end py end corpses i
    set_end end
    pure "ELoot completion and removal of every starting exact corpse ID verified"

  -- `_execute_room_loot`
  unfoldable pub execute_room_loot : ℕ → M W String
  execute_room_loot fuel = do
    require_empty_arguments
    (start, first) ← require_fresh_session py host none none none
    set_start start
    corpses ← validate_room_loot_start py start none
    require_no_owner_conflicts py start eloot
    admit_and_start py host "safe current-room loot sweep admitted"
        "current-room loot sweep running"
    (current, second) ← require_fresh_session py host (some start.generation) (some first) none
    validate_room_loot_start py current (some corpses)
    require_no_owner_conflicts py current eloot
    command ←
        demand (adapter_command "loot_current_room" eloot.entrypoints)
          "unsupported eloot entrypoint: loot_current_room"
    i ←
        run_broker_step py host fuel current command "running registered ELoot current-room sweep"
          false
    after_sweep start second corpses i

  abbrev pub accept : Direct → M W String
  accept (refused e) = fail e
  accept (accepted s) = pure s

  abbrev pub command_given : Option Argument → M W String
  command_given (some (text c)) = accept (normalize_full_access_command py.casefold c)
  command_given _ = fail "command must be a string"

  abbrev pub has_status : String → String → Option (List (String × String)) → Bool
  has_status name value none = false
  has_status name value (some l) = elim (lookup name l) [ none ↦ false | some v ↦ str_eq v value ]

  -- The end of `_execute_session_command`.
  unfoldable pub after_delivery : Session → ℕ → String → M W String
  after_delivery start first i = do
    (end, later) ← require_fresh_session py host (some start.generation) none (some first)
    require (has_status "lab-direct" (concat ("completed:" ∷ i ∷ [])) end.script_status)
        "native session-command delivery receipt was not observed"
    set_end end
    pure "native session verified command delivery; requested effect remains unverified"

  -- `_execute_session_command`
  unfoldable pub execute_session_command : ℕ → M W String
  execute_session_command fuel = do
    o ← get_operation
    require (not (is_nil o.arguments) && only ("command" ∷ []) o.arguments)
        "session.command accepts only command"
    command ← command_given (lookup "command" o.arguments)
    (start, first) ← require_fresh_session py host none none none
    set_start start
    require (has_status "lab-access" "full" start.script_status)
        "local LAB full access is not enabled for this session"
    admit_and_start py host "local full-access grant and current session admitted"
        "single session-command delivery running"
    i ←
        run_broker_step py host fuel start (concat ("lab direct " ∷ command ∷ []))
          "sending locally authorized session command" false
    after_delivery start first i

  -- `handler_name`, of the four capabilities modelled here
  unfoldable pub handler_of : ℕ → Option Profile → String → Option (M W String)
  handler_of fuel profile capability =
      if str_eq capability "item.audit"
      then some (execute_item_audit py host fuel)
      else if str_eq capability "hunt.prepare"
      then some (execute_hunt_prepare fuel profile)
      else if str_eq capability "room.loot"
      then some (execute_room_loot fuel)
      else if str_eq capability "session.command"
      then some (execute_session_command fuel)
      else none
