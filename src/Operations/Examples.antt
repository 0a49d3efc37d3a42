-- ===== src/Operations/Examples.antt =====
-- Tests and examples of the capability handlers.
mod Command
mod Direct
mod Registry
use lich_agent_bridge.Base.{
  ℕ, suc, String, true, false, none, some, List, [], ◌∷◌, ◌≡◌, refl, arith, leb, if◌then◌else◌,
}
use lich_agent_bridge.Actions.Types
use lich_agent_bridge.Operations.Types.{
  timed_out, Argument, Binding, Item, Location, Method, Operation, Session, is_terminal, requested,
  running, text,
}
use lich_agent_bridge.Operations.Registry.{
  Call, admit, enroll, is_owned, room_for, err, Runner, create, find, init,
}
use lich_agent_bridge.Operations.Acts.{act, begin, start as begun, after}
use lich_agent_bridge.Operations.Ownership.{IsRunner}
use lich_agent_bridge.Operations.Reached.{Reach-IsRunner}
use lich_agent_bridge.Operations.Host.{Host, Texts, returned}
use lich_agent_bridge.Operations.Monad.{give_out, abort, Machine, Outcome, done}
use lich_agent_bridge.Operations.Handlers.{handler_of}
use lich_agent_bridge.Watchers.Types.{Profile}
use lich_agent_bridge.Operations.Handlers.{execute_hunt_prepare, execute_room_loot}
use lich_agent_bridge.Operations.Items.{execute_item_audit}
use lich_agent_bridge.Operations.Execution.{attempt, execute_operation, safe_cleanup}
use lich_agent_bridge.Operations.Sound.{Advances}
use lich_agent_bridge.Operations.Sound.Execution.{execute_operation-ends}
use lich_agent_bridge.Operations.Monad.{
  give_out, abort, catch, catch_abort, call, read, update, pure, require, demand, get_operation,
  log_submitted, ◌>>=◌,
}
use lich_agent_bridge.Operations.Steps.{
  record_event, progress, transition, clock, check_deadline_and_interruption, stop_if,
  admit_and_start, snapshot, ttl_of, submit_step, wait_for_action, run_broker_step, require_fresh,
  require_fresh_session,
}
use lich_agent_bridge.Operations.Objects.{only, keep, with_id, refers_to}
use lich_agent_bridge.Operations.Items.{
  exact_item, verify_binding, fresh_bound_item, bind_item, require_owned_location, run_action_step,
  run_diagnostic, run_diagnostics, run_spells, restore_original, run_item_audit,
  parse_item_audit_arguments, conclude,
}
use lich_agent_bridge.Operations.Registry.{emit}
use lich_agent_bridge.Base.Dict.{lookup, insert, member}
use lich_agent_bridge.Base.Text.{is_space, strip, lstrip, rstrip, is_digit}
use lich_agent_bridge.Operations.Handlers.{require_empty_arguments, after_start, after_sweep}
use lich_agent_bridge.Operations.Scripts.{
  adapter_command, intersects, any_unknown, any_severe, held, is_running, normal, lanes_free,
  lanes_owned, all_in, no_duplicate, is_clean, is_completed,
}
use lich_agent_bridge.Operations.Readiness.{
  validate_hunt_readiness, require_no_owner_conflicts, verify_script_owns_lanes,
  validate_room_loot_start, verify_room_loot_end,
}
use lich_agent_bridge.Watchers.Names.{drop_article, squeeze}
use lich_agent_bridge.Operations.Scripts.{bigshot}
use lich_agent_bridge.Operations.Returned.Items.{IsAudited, execute_item_audit-IsAudited}
use lich_agent_bridge.Operations.Returned.Sent.{IsStarted}
use lich_agent_bridge.Operations.Returned.Hunt.{IsOwnedBy, execute_hunt_prepare-IsStarted}
use lich_agent_bridge.Operations.Returned.Loot.{IsSwept, execute_room_loot-IsStarted}
use lich_agent_bridge.Operations.Submissions.Items.{AllBound}
use lich_agent_bridge.Operations.Submissions.Cleanup.{audit-AllBound, execute_operation-late}

abbrev same : String → String
same s = s

abbrev plain : Texts
plain = record { casefold = same; is_digits = λ s. true; decimal = λ n. "0" }

abbrev pouch : Location
pouch = record {
  location_id = "pouch";
  kind = "container";
  owner = "Ann";
  verified_owned = true;
  safety_rank = 1;
  restore_command = some "put #7 in #8";
}

abbrev ring : Item
ring = record { object_id = "7"; dossier_id = "d7"; fingerprint = "f7"; location = pouch }

abbrev session_at : ℕ → Session
session_at n = record {
  character = "Ann";
  generation = "g1";
  room_id = "r1";
  items = ring ∷ [];
  fresh = true;
  sequence = some n;
  dead = some false;
  stunned = some false;
  wounds = some [];
  encumbrance = some 0;
  hands = some (some "a sword" ∷ none ∷ []);
  scripts = some ("bigshot" ∷ []);
  owners =
      some (("combat", some "bigshot") ∷ ("movement", some "bigshot") ∷ ("inventory", none) ∷ []);
  nearby_creatures = some [];
  nearby_corpses = some (if leb 5 n then [] else "c1" ∷ []);
  script_status =
      some
        (("lab-access", "full") ∷ ("lab-direct", "completed:a1") ∷ ("eloot", "completed:a1") ∷ []);
}

-- A world that is a clock: an action is complete from 5 on, and a method is its own registration.
abbrev clockwork : Host ℕ Method
clockwork = record {
  second = 1;
  now = λ w. w;
  sleep = λ w. suc w;
  next_cursor = λ w. (w, w);
  is_interrupted = λ i w. (false, w);
  snapshot = λ c w. (returned (session_at w), suc w);
  safest_owned_locations = λ c i w. (returned [], w);
  register = λ i m b w. (returned m, w);
  verify = λ m i w. (
    returned (some (record { method = m; generation = "g1"; object_id = "7"; detail = "seen" })),
    w,
  );
  submit = λ p w. (returned "a1", w);
  view = λ i w.
      (returned (if leb 5 w then Types.Status.completed else Types.Status.dispatched, none), w);
  hook = λ i s w. (returned tt, w);
  alert = λ d w. w;
}

clockwork-Advances : Advances clockwork
clockwork-Advances = record {
  sleeping = λ w. omega arith;
  cursors = λ w. omega arith;
  interruptions = λ i w. omega arith;
  snapshots = λ c w. omega arith;
  locations = λ c i w. omega arith;
  registrations = λ i m b w. omega arith;
  verifications = λ r i w. omega arith;
  submissions = λ p w. omega arith;
  views = λ i w. omega arith;
  hooks = λ i s w. omega arith;
  alerts = λ d w. omega arith;
}

abbrev an_operation : String → List (String × Argument) → Operation
an_operation capability arguments = record {
  operation_id = "op-1";
  capability = capability;
  character = "Ann";
  arguments = arguments;
  status = requested;
  requested_at = 0;
  deadline = 30;
  admitted_at = none;
  started_at = none;
  ended_at = none;
  start_state = none;
  end_state = none;
  binding = none;
  evidence = [];
  alerts = [];
  events = [];
  explanation = "";
  expected_generation = none;
}

abbrev start : Operation → Machine ℕ
start o = record { operation = o; world = 0; submitted = [] }

abbrev audit : Machine ℕ
audit = start (an_operation "item.audit" (("item_id", text "7") ∷ []))

abbrev hunter : Profile
hunter = record {
  character = "Ann";
  expected_hand_item_names = "sword" ∷ [];
  expected_hand_item_label = "weapon";
  encumbrance_warning = none;
  encumbrance_emergency = some 3;
  required_defensive_spell_ids = [];
  severe_wound_level = 2;
}

abbrev hunt : Machine ℕ
hunt = start (an_operation "hunt.prepare" [])

abbrev sweep : Machine ℕ
sweep = start (an_operation "room.loot" [])

execute_operation-ends_example :
    (let r =
        execute_operation plain clockwork 31
          (handler_of plain clockwork 31 none "item.audit")
          audit in
      (r.0 ≡ done tt) × (is_terminal r.1.operation.status ≡ true))
execute_operation-ends_example =
    execute_operation-ends plain clockwork 31 none audit clockwork-Advances refl (omega arith)

abbrev audited : Outcome String × Machine ℕ
audited = execute_item_audit plain clockwork 31 audit

audited-returns : audited ≡ (
  done
      "registered diagnostic evidence collected and the exact same item was restored to its original owned location",
  audited.1,
)
unfolding catch catch_abort call read update pure require demand get_operation log_submitted ◌>>=◌
    record_event progress transition clock check_deadline_and_interruption stop_if admit_and_start
    snapshot ttl_of submit_step wait_for_action run_broker_step only keep with_id refers_to
    exact_item verify_binding fresh_bound_item bind_item require_owned_location run_action_step
    run_diagnostic run_diagnostics run_spells restore_original run_item_audit
    parse_item_audit_arguments conclude execute_item_audit emit lookup insert member strip lstrip
    rstrip is_digit
audited-returns = refl

execute_item_audit-IsAudited_example : IsAudited plain clockwork audit audited.1
execute_item_audit-IsAudited_example =
    execute_item_audit-IsAudited plain clockwork 31 audit audited.1
      "registered diagnostic evidence collected and the exact same item was restored to its original owned location"
      audited-returns

abbrev hunted : Outcome String × Machine ℕ
hunted = execute_hunt_prepare plain clockwork 31 (some hunter) hunt

hunted-returns :
    hunted ≡ (done "Bigshot is verified running with movement and combat ownership", hunted.1)
unfolding catch call read update pure require demand get_operation log_submitted ◌>>=◌ record_event
    progress transition clock check_deadline_and_interruption stop_if admit_and_start snapshot
    ttl_of submit_step wait_for_action run_broker_step require_fresh require_fresh_session
    require_empty_arguments adapter_command emit lookup member execute_hunt_prepare after_start
    validate_hunt_readiness require_no_owner_conflicts verify_script_owns_lanes intersects
    any_unknown any_severe held is_running normal lanes_free lanes_owned drop_article squeeze strip
    lstrip rstrip
hunted-returns = refl

execute_hunt_prepare-IsStarted_example :
    IsStarted plain clockwork "bigshot start" (λ i x y. IsOwnedBy plain y bigshot) hunt hunted.1
execute_hunt_prepare-IsStarted_example =
    execute_hunt_prepare-IsStarted plain clockwork 31 (some hunter) hunt hunted.1
      "Bigshot is verified running with movement and combat ownership" hunted-returns

abbrev looted : Outcome String × Machine ℕ
looted = execute_room_loot plain clockwork 31 sweep

looted-returns :
    looted
    ≡ (done "ELoot completion and removal of every starting exact corpse ID verified", looted.1)
unfolding catch call read update pure require demand get_operation log_submitted ◌>>=◌ record_event
    progress transition clock check_deadline_and_interruption stop_if admit_and_start snapshot
    ttl_of submit_step wait_for_action run_broker_step require_fresh require_fresh_session
    require_empty_arguments adapter_command emit lookup member execute_room_loot after_sweep
    validate_room_loot_start verify_room_loot_end require_no_owner_conflicts intersects all_in
    no_duplicate is_running lanes_free is_clean is_completed
looted-returns = refl

execute_room_loot-IsStarted_example :
    IsStarted plain clockwork "eloot loot" (IsSwept plain) sweep looted.1
execute_room_loot-IsStarted_example =
    execute_room_loot-IsStarted plain clockwork 31 sweep looted.1
      "ELoot completion and removal of every starting exact corpse ID verified" looted-returns

-- The same audit, of an operation whose deadline is over.
abbrev late_audit : Machine ℕ
late_audit = record audit { operation = record (audit.operation) { deadline = 0 } }

abbrev timed : Outcome (Unit {0}) × Machine ℕ
timed = attempt plain clockwork (some (execute_item_audit plain clockwork 31)) late_audit

timed-aborts : timed ≡ (abort timed_out "operation timed out", timed.1)
unfolding attempt catch catch_abort call read update pure require demand get_operation log_submitted
    ◌>>=◌ give_out record_event progress transition clock check_deadline_and_interruption stop_if
    admit_and_start snapshot ttl_of submit_step wait_for_action run_broker_step only keep with_id
    refers_to exact_item verify_binding fresh_bound_item bind_item require_owned_location
    run_action_step run_diagnostic run_diagnostics run_spells restore_original run_item_audit
    parse_item_audit_arguments conclude execute_item_audit emit lookup insert member strip lstrip
    rstrip is_digit
timed-aborts = refl

execute_operation-late_example :
    (execute_operation plain clockwork 31
      (some (execute_item_audit plain clockwork 31))
      late_audit).1.submitted
    ≡ timed.1.submitted
execute_operation-late_example =
    execute_operation-late plain clockwork 31 (some (execute_item_audit plain clockwork 31))
      "operation timed out" late_audit timed.1 timed-aborts

abbrev bound_ring : Binding
bound_ring = record {
  character = "Ann";
  generation = "g1";
  object_id = "7";
  dossier_id = "d7";
  fingerprint = "f7";
  original_location = pouch;
}

abbrev bound_audit : Machine ℕ
bound_audit =
    start (record (an_operation "item.audit" []) { status = running; binding = some bound_ring })

abbrev diagnosed : Machine ℕ
diagnosed = (run_item_audit plain clockwork 31 bound_ring (Method.look ∷ []) bound_audit).1

diagnosed-binding : diagnosed.operation.binding ≡ some bound_ring
unfolding catch catch_abort call read update pure require demand get_operation log_submitted ◌>>=◌
    record_event progress transition clock check_deadline_and_interruption stop_if admit_and_start
    snapshot ttl_of submit_step wait_for_action run_broker_step only keep with_id refers_to
    exact_item verify_binding fresh_bound_item bind_item require_owned_location run_action_step
    run_diagnostic run_diagnostics run_spells restore_original run_item_audit
    parse_item_audit_arguments conclude execute_item_audit emit lookup insert member strip lstrip
    rstrip is_digit
diagnosed-binding = refl

audit-AllBound_example :
    AllBound bound_ring (safe_cleanup plain clockwork 31 true diagnosed).1.submitted
audit-AllBound_example =
    audit-AllBound plain clockwork 31 bound_ring (Method.look ∷ []) true bound_audit diagnosed tt
      refl diagnosed-binding
