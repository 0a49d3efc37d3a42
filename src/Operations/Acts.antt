-- ===== src/Operations/Acts.antt =====
-- Any sequence of the runner's locked sections, by any threads.
use lich_agent_bridge.Base.{ℕ, String, Option, none, some, ◌++◌, [], ◌∷◌, ◌≡◌}
use lich_agent_bridge.Operations.Types.{Binding, Evidence, Operation, Session, Status}
use lich_agent_bridge.Operations.Registry.{
  Call, Runner, create, fail_unexpected, find, init, interrupt, progress, store, transition,
}

-- What the thread that executes an operation writes to its record.
pub data Write : Type 0 where
  admitted_at started_at ended_at : ℕ → Write
  start_state end_state : Session → Write
  binding : Binding → Write
  evidence : Evidence → Write
  alert explanation : String → Write

unfoldable pub written : Write → Operation → Operation
written (admitted_at n) o = record o { admitted_at = some n }
written (started_at n) o = record o { started_at = some n }
written (ended_at n) o = record o { ended_at = some n }
written (start_state s) o = record o { start_state = some s }
written (end_state s) o = record o { end_state = some s }
written (binding b) o = record o { binding = some b }
written (evidence e) o = record o { evidence = o.evidence ++ e ∷ [] }
written (alert d) o = record o { alerts = o.alerts ++ d ∷ [] }
written (explanation d) o = record o { explanation = d }

pub data Act : Type 0 where
  begin : String → ℕ → ℕ → Call → Act
  report : String → ℕ → String → Act
  move : String → ℕ → Status → String → Act
  give_up : String → ℕ → String → Act
  ask_to_stop : String → Act
  write : String → Write → Act

abbrev pub write_to : Option Operation → Write → Runner → Runner
write_to none w r = r
write_to (some o) w r = record r { operations = store (written w o) r.operations }

module _ (casefold : String → String) (history_limit : ℕ) where
  unfoldable pub act : Act → Runner → Runner
  act (begin token now later c) r = (create casefold history_limit token now later c r).1
  act (report i now detail) r = progress casefold history_limit i now detail r
  act (move i now status detail) r = transition casefold history_limit i now status detail r
  act (give_up i now detail) r = fail_unexpected casefold history_limit i now detail r
  act (ask_to_stop i) r = (interrupt casefold history_limit i r).1
  act (write i w) r = write_to (find i r.operations) w r

  -- The id of a new operation is drawn at random.
  abbrev pub IsFresh : Act → Runner → Type 0
  IsFresh (begin token now later c) r = find token r.operations ≡ none
  IsFresh _ r = Unit

  pub data Reach : Runner → Type 0 where
    start : Reach init
    after : {r : Runner} (a : Act) → Reach r → IsFresh a r → Reach (act a r)
