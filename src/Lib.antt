-- ===== src/Lib.antt =====
-- A model of the local service that lets an agent act in a text game through the Lich client.
--
-- The Lich client runs one session of each character; a session is named by its generation. Its
-- bridge publishes snapshots and events to the service, asks it for actions to run, and reports their
-- results. A human enables a character, approves what needs a confirmation, and shuts it off.
--
-- - Base: Python's dicts, sets and texts, tests into Bool, and the library names that all parts use.
-- - Actions: `ActionBroker` of src/lich_agent_bridge/actions.py. Actions/Types has its records and its
--   state; Actions/Exec the monad of its methods, which carries the state and stops at a raised
--   error, keeping what was changed until then, as in Python; Actions/Fields the checks of texts;
--   Actions/Loop the dict of actions; Actions/Broker sessions, `control`, expiry and `poll`;
--   Actions/Owned the methods that a request names an action to; Actions/Submit proposals. The
--   proofs: Actions/Diagram (statuses), Actions/Ledger, Actions/Rules and Actions/Evolution (what every
--   method keeps), Actions/Reach (any sequence of calls), Actions/Session, Actions/Delivery,
--   Actions/Switch, Actions/Replacement, Actions/Verdicts, Actions/Proposals and Actions/Sequences
--   (single methods);
--   Actions/Waiting has `poll_wait` and its proof, Actions/Parsing and
--   Actions/Reports the parsers of requests, Actions/Requests their proof.
-- - World: `WorldState` of src/lich_agent_bridge/world_state.py. World/Types has its records,
--   World/Fields the comparison of snapshots, World/State the publishing methods, World/Watch the
--   reading one. The proofs: World/Queue (cursors), World/Waiting (`watch`), World/Timeline and World/Admission (one
--   publication), World/History (any sequence of publications).
-- - Watchers: `WatcherReducer` of src/lich_agent_bridge/watchers.py. Watchers/Types has its
--   records, Watchers/Names the texts it compares, Watchers/Profiles the constructor and the reading
--   methods, Watchers/Conditions `_set_condition`, Watchers/Rules and Watchers/Reducer the alert
--   rules and `reduce`. The proofs: Watchers/Transitions (the alerts of a pass), Watchers/Rulings
--   and Watchers/Passes (every rule), Watchers/Alerts, Watchers/Bounds and Watchers/Unknown (any
--   snapshots).
-- - Operations: `CapabilityRunner` of src/lich_agent_bridge/operations.py, which runs compound
--   operations over the broker. Operations/Types has its records, Operations/Registry the
--   sections that run under its lock, Operations/Acts any sequence of them by any threads.
--   Operations/Host is all that a handler sees outside its operation (the clock, the adapters,
--   the broker, the other threads), Operations/Monad the steps of a handler, with the exceptions
--   of Python and fuel. Operations/Steps has the shared steps with `_run_broker_step`,
--   Operations/Objects and Operations/Items `item.audit`, Operations/Scripts (script_adapters.py
--   too), Operations/Readiness and Operations/Handlers `hunt.prepare`, `room.loot` and
--   `session.command`, Operations/Direct the check of a direct command (its proof in
--   Operations/Direct/Accepted), Operations/Execution `_execute_operation` and `_safe_cleanup`.
--   The proofs: Operations/Weights, Operations/Logs, Operations/Ownership, Operations/Reached and
--   Operations/Fates (the registry), Operations/Sound (the steps end), Operations/Submissions
--   (what the broker is given), Operations/Returned (what a handler that returned has seen).
--
-- Numbers are natural numbers; a time is a number of ticks of the clock that the service is given.
-- The loops go over lists, but for the one that waits for an action of an operation: it has fuel
-- for its rounds, and fuel past the operation's deadline is enough, since it sleeps in each round
-- and stops at the deadline. `watch` and `poll_wait` wait for other threads: they take the list of
-- their wake-ups, each with what the others have done until then and what the clock reads; a proof of
-- each says that it has returned by the first wake-up behind its deadline.
--
-- The lock of each object makes a method one step, so an interleaving of threads is a list of calls.
--
-- The environment of a model is a parameter: case folding, the clock, the random token of an
-- action, and, for the broker, the command policy with the registered controllers. The theorems on
-- runs ask of the token that it is new. The watchers are given what `isdigit` and `int` make of a
-- text (`int` may raise where `isdigit` holds, and then `reduce` raises half-way), and the order in which Python walks a set. The handlers of operations are given a
-- host, of which the theorem that they end asks that its clock never goes back and moves on in
-- each sleep; the broker is a part of the host there.
--
-- Not modelled: the parsing of JSON itself and of the blocking request, the audit and token files,
-- the patterns of the command policy, the operations that travel, test scripts, run controllers or
-- inspect a character, and the other modules of the service (decisions, knowledge, settings, the
-- session hub, the evidence loop), its HTTP server and command lines, and the scripts that run in
-- the game.
pub mod Base
pub mod Actions
pub mod World
pub mod Watchers
pub mod Operations
