-- ===== src/Operations/Host.antt =====
-- What the capability handlers of src/lich_agent_bridge/operations.py see outside their operation:
-- the clock, the state and evidence adapters, the broker, and what other threads do to the runner.
use lich_agent_bridge.Base.{ℕ, String, Bool, Option, List}
use lich_agent_bridge.Actions.Types.{Proposal}
use lich_agent_bridge.Actions.Types
use lich_agent_bridge.Operations.Types.{Binding, Evidence, Location, Method, Session}

-- What is used of Python's `str`: `casefold`, `isdigit`, and `str(n)`.
pub record Texts : Type 0 where
  pub casefold : String → String
  pub is_digits : String → Bool
  pub decimal : ℕ → String

-- An exception other than `_OperationAbort`, with its text. A `RuntimeError` is a `fault`.
pub data Fault : Type 0 where
  validation_error value_or_key_error fault : String → Fault

pub data Reply (A : Type 0) : Type 0 where
  returned : A → Reply A
  raised : Fault → Reply A

-- `W` is all that is outside, `R` a registration of the evidence adapter. Each call leaves the
-- world as it is when it returns, whatever other threads did meanwhile.
pub record Host (W R : Type 0) : Type 0 where
  -- ticks in a second
  pub second : ℕ
  pub now : W → ℕ
  pub sleep : W → W
  -- `self._cursor += 1`, on the cursor that all operations share
  pub next_cursor : W → ℕ × W
  -- `operation.operation_id in self._interruptions`
  pub is_interrupted : String → W → Bool × W
  -- `StateAdapter`
  pub snapshot : String → W → Reply Session × W
  pub safest_owned_locations : String → String → W → Reply (List Location) × W
  -- `EvidenceAdapter`
  pub register : String → Method → Binding → W → Reply R × W
  pub verify : R → String → W → Reply (Option Evidence) × W
  -- `ActionBroker.submit`: the id of the new action
  pub submit : Proposal → W → Reply String × W
  -- `ActionBroker.get`
  pub view : String → W → Reply (Types.Status × Option Types.Completion) × W
  -- `_step_hook`, if there is one
  pub hook : String → Session → W → Reply (Unit {0}) × W
  -- `_alert`, whose exceptions are swallowed
  pub alert : String → W → W
