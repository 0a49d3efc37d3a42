-- ===== src/Operations/Examples/Command.antt =====
-- Tests and examples of `session.command`.
use lich_agent_bridge.Base.{ℕ, String, [], ◌∷◌, ◌≡◌, refl}
use lich_agent_bridge.Operations.Types.{text}
use lich_agent_bridge.Operations.Monad.{Machine, Outcome, done}
use lich_agent_bridge.Operations.Monad.{
  catch, call, read, update, pure, require, demand, get_operation, log_submitted, ◌>>=◌,
}
use lich_agent_bridge.Operations.Steps.{
  record_event, progress, transition, clock, check_deadline_and_interruption, stop_if,
  admit_and_start, snapshot, ttl_of, submit_step, wait_for_action, run_broker_step, require_fresh,
  require_fresh_session,
}
use lich_agent_bridge.Operations.Objects.{only}
use lich_agent_bridge.Operations.Registry.{emit}
use lich_agent_bridge.Base.Dict.{lookup, member}
use lich_agent_bridge.Base.Text.{is_space, strip, lstrip, rstrip}
use lich_agent_bridge.Operations.Handlers.{execute_session_command, after_delivery}
use lich_agent_bridge.Operations.Direct.{
  by_first, first_word, has_code, has_forbidden, lich_command, normalize_full_access_command,
}
use lich_agent_bridge.Operations.Examples.{an_operation, clockwork, plain, start}
use lich_agent_bridge.Operations.Returned.Command.{IsDelivered, execute_session_command-IsDelivered}

abbrev command : Machine ℕ
command = start (an_operation "session.command" (("command", text " look ") ∷ []))

abbrev delivered : Outcome String × Machine ℕ
delivered = execute_session_command plain clockwork 31 command

delivered-returns : delivered ≡ (
  done "native session verified command delivery; requested effect remains unverified",
  delivered.1,
)
unfolding call read update pure require demand get_operation log_submitted ◌>>=◌ record_event
    progress transition clock check_deadline_and_interruption stop_if admit_and_start snapshot
    ttl_of submit_step wait_for_action run_broker_step require_fresh require_fresh_session emit
    lookup member only execute_session_command after_delivery normalize_full_access_command strip
    lstrip rstrip is_space has_forbidden has_code by_first lich_command first_word catch
delivered-returns = refl

execute_session_command-IsDelivered_example : IsDelivered plain clockwork command delivered.1
execute_session_command-IsDelivered_example =
    execute_session_command-IsDelivered plain clockwork 31 command delivered.1
      "native session verified command delivery; requested effect remains unverified"
      delivered-returns
