-- ===== src/Actions/Examples.antt =====
-- The broker's theorems at concrete inputs, and runs of its methods.
mod Waiting
mod Requests
use lich_agent_bridge.Base.{
  ℕ, ◌≤◌, ◌<◌, not, String, true, false, ◌≡◌, ◌≢◌, refl, none, some, [], ◌∷◌, arith, str_eq, inl,
  All, length,
}
use lich_agent_bridge.Base.Dict.{lookup, insert, member, add, discard}
use lich_agent_bridge.Base.Text.{strip, drop_nul}
use lich_agent_bridge.Actions.Types.{
  Action, Admission, Approval, Broker, Completion, Context, Control, Env, Outcome, Proposal,
  PublicAction, Report, Status, ok, dispatched, queued, Instruction,
}
use lich_agent_bridge.Actions.Exec.{◌>>=◌}
use lich_agent_bridge.Actions.Fields.{text, travel_run, is_stoppable, public}
use lich_agent_bridge.Actions.Loop.{find, store, walk}
use lich_agent_bridge.Actions.Broker.{
  init, expire_locked, find_locked, require_active_generation_locked, admit_generation, control,
  is_stale_room, poll, retired_ids,
}
use lich_agent_bridge.Actions.Owned.{approve, record_result}
use lich_agent_bridge.Actions.Submit.{
  Evaluation, total_length, submit, evaluate_proposal, evaluate_step, evaluate_steps,
}
use lich_agent_bridge.Actions.Reach.{
  Reach, Request, here, after, handle, admit, switch, propose, fetch, confirm, action_moves_on,
  dispatched_at_most_once, log_tells_dispatch, confirmed_by_approval,
}
use lich_agent_bridge.Actions.Diagram.{◌⟶*◌, Later}
use lich_agent_bridge.Actions.Ledger.{dispatches, approvals}
use lich_agent_bridge.Actions.Session.{IsActive}
use lich_agent_bridge.Actions.Delivery.{Any, IsServed, HandsOut, MayRun, poll_safe, poll_progress}
use lich_agent_bridge.Actions.Switch.{IsShut, kill_switch_stops}
use lich_agent_bridge.Actions.Replacement.{IsAdmitted, admit_generation-IsAdmitted}
use lich_agent_bridge.Actions.Verdicts.{
  IsRecorded, MayDecide, approve_decides, approve_requires, decided, result-IsRecorded_once,
  verdict,
}
use lich_agent_bridge.Actions.Proposals.{IsAccepted, submit-IsAccepted}
use lich_agent_bridge.Actions.Sequences.{AreBatched, sequence_confirmed}

-- A policy that lets `look` pass and asks for a confirmation of everything else.
abbrev desk : Env
desk = record {
  casefold = λ s. s;
  second = 1;
  evaluate = λ s.
      ok (record {
        command = s;
        kind = "inspection";
        confirmation_required = not (str_eq s "look");
      });
  is_test_launch = λ s. false;
  is_controller_control = λ s. false;
  is_controlled_launch = λ s. false;
  is_refuge_launch = λ s. false;
}

abbrev order : Proposal
order = record {
  character = "Aria";
  command = some "north";
  commands = [];
  expected_room_id = some "228";
  expected_generation = some "g1";
  ttl_seconds = 45;
  deadline = none;
  controller_deadline = none;
}

abbrev bridge : Context
bridge = record { character = "Aria"; room_id = "228"; generation = "g1" }

abbrev permit : Approval
permit = record {
  action_id = "00000000000000aa";
  character = "Aria";
  room_id = "228";
  approval_mode = "manual";
  generation = "g1";
}

abbrev token : String
token = "00000000000000aa"

-- Running the methods at these inputs.
run : Request → Broker → Broker
unfolding handle admit_generation control submit approve record_result poll expire_locked
    find_locked require_active_generation_locked evaluate_proposal ◌>>=◌ text strip drop_nul lookup
    insert add discard member find store walk travel_run is_stoppable public
run r b = handle desk r b

abbrev switch_on : Control
switch_on = record { character = "Aria"; enabled = true; generation = "g1" }

abbrev switch_off : Control
switch_off = record { character = "Aria"; enabled = false; generation = "g1" }

abbrev opened : Broker
opened = handle desk (switch switch_on) (handle desk (admit "Aria" "g1") init)

abbrev ordered : Broker
ordered = handle desk (propose token 0 order) opened

abbrev approved : Broker
approved = handle desk (confirm 1 permit) ordered

abbrev sent : Broker
sent = handle desk (fetch 2 bridge) approved

fresh : find token opened.actions ≡ none
unfolding run
fresh = refl

sent_reached : Reach desk init sent
sent_reached =
    after (fetch 2 bridge)
      (after (confirm 1 permit)
        (after (propose token 0 order)
          (after (switch switch_on) (after (admit "Aria" "g1") here tt) tt) fresh)
        tt)
      tt

abbrev proposed : Action
proposed = record {
  action_id = token;
  character = "Aria";
  generation = "g1";
  commands = "north" ∷ [];
  kind = "inspection";
  status = Status.confirmation_required;
  expected_room_id = some "228";
  created_at = 0;
  expires_at = 45;
  confirmation_required = true;
  notified = false;
  completion = none;
  detail = none;
  test_run = false;
  controller_control = false;
  controller_deadline = none;
  stop_requested = false;
  return_requested = false;
}

abbrev dispatched_action : Action
dispatched_action = record proposed { status = dispatched }

found_sent : find token sent.actions ≡ some dispatched_action
unfolding run
found_sent = refl

found_ordered : find token ordered.actions ≡ some proposed
unfolding run
found_ordered = refl

fetched : (poll desk 2 bridge approved).0 ≡ ok (some (public dispatched_action Instruction.execute))
unfolding run
fetched = refl

poll_safe_example :
    IsServed desk bridge approved
    × HandsOut desk 2 bridge
        (public dispatched_action Instruction.execute)
        approved.actions
        (poll desk 2 bridge approved).1.actions
poll_safe_example =
    poll_safe desk 2 bridge approved (public dispatched_action Instruction.execute) fetched

approved-IsServed : IsServed desk bridge approved
unfolding run
approved-IsServed = record { enabled = refl; active = refl }

may_run : Any (MayRun desk 2 bridge) approved.actions
unfolding run
may_run =
    inl
      (record { status = refl; unexpired = omega arith; owner = refl; session = refl; room = refl })

poll_progress_example : (p : PublicAction) × ((poll desk 2 bridge approved).0 ≡ ok (some p))
poll_progress_example = poll_progress desk 2 bridge approved approved-IsServed may_run

dispatched_at_most_once_example : dispatches token sent.audit ≤ 1
dispatched_at_most_once_example = dispatched_at_most_once desk token sent_reached

log_tells_dispatch_example : dispatches token sent.audit ≡ 1
log_tells_dispatch_example = log_tells_dispatch desk token dispatched_action sent_reached found_sent

confirmed_by_approval_example : 0 < approvals token sent.audit
confirmed_by_approval_example =
    confirmed_by_approval desk token dispatched_action sent_reached found_sent refl refl

sent_later : Reach desk ordered sent
sent_later = after (fetch 2 bridge) (after (confirm 1 permit) here tt) tt

action_moves_on_example :
    (a : Action) × (find token sent.actions ≡ some a)
    × (Status.confirmation_required ⟶* a.status)
    × Later proposed a
action_moves_on_example = action_moves_on desk token proposed sent_later found_ordered

sent-IsActive : IsActive desk "Aria" "g1" sent
unfolding run
sent-IsActive = refl

kill_switch_stops_example :
    All (IsShut desk "Aria") (control desk switch_off sent).1.actions
    × ((i : String) (x : Action)
        → find i sent.actions ≡ some x
        → str_eq x.character "Aria" ≡ false
        → find i (control desk switch_off sent).1.actions ≡ some x)
    × ((now : ℕ) (context : Context) (p : PublicAction)
        → context.character ≡ "Aria"
        → (poll desk now context (control desk switch_off sent).1).0 ≢ ok (some p))
kill_switch_stops_example = kill_switch_stops desk switch_off sent refl sent-IsActive

abbrev replaced : Admission
replaced = record {
  character = "Aria";
  generation = "g2";
  replaced_generation = some "g1";
  cancelled_action_ids = token ∷ [];
}

readmitted : (admit_generation desk "Aria" "g2" ordered).0 ≡ ok replaced
unfolding run retired_ids
readmitted = refl

admit_generation-IsAdmitted_example :
    IsAdmitted desk ordered replaced (admit_generation desk "Aria" "g2" ordered).1
admit_generation-IsAdmitted_example =
    admit_generation-IsAdmitted desk "Aria" "g2" ordered replaced readmitted

ordered_pending : find token (expire_locked desk 1 ordered).1.actions ≡ some proposed
unfolding run
ordered_pending = refl

may_decide : MayDecide desk permit (expire_locked desk 1 ordered).1 proposed
unfolding run
may_decide = record { owner = refl; active = refl; session = refl; awaiting = refl }

approve_decides_example :
    ((approve desk 1 permit ordered).0 ≡ verdict desk false permit proposed)
    × (find token (approve desk 1 permit ordered).1.actions
        ≡ some (decided desk false permit proposed))
approve_decides_example = approve_decides desk 1 permit ordered proposed ordered_pending may_decide

abbrev granted : PublicAction
granted = public (record proposed { status = queued }) (Instruction.status queued)

approved_once : (approve desk 1 permit ordered).0 ≡ ok granted
unfolding run
approved_once = refl

approve_requires_example :
    (a : Action) × (find token (expire_locked desk 1 ordered).1.actions ≡ some a)
    × MayDecide desk permit (expire_locked desk 1 ordered).1 a
    × (is_stale_room a.expected_room_id "228" ≡ false)
approve_requires_example = approve_requires desk 1 permit ordered granted approved_once

abbrev news : Report
news = record {
  action_id = token;
  character = "Aria";
  outcome = Outcome.succeeded;
  detail = "arrived";
  generation = "g1";
}

abbrev arrived : Action
arrived = record dispatched_action {
  status = Status.completed;
  completion = some Completion.has_succeeded;
  detail = some "arrived";
}

recorded : (record_result desk news sent).0 ≡ ok arrived
unfolding run
recorded = refl

result-IsRecorded_once_example :
    ((x : Action) × (find token sent.actions ≡ some x)
      × (x.status ≡ Status.dispatched)
      × (find token (record_result desk news sent).1.actions ≡ some arrived)
      × IsRecorded desk news x arrived)
    × ((again : Report) (d : Broker) (s : Action)
        → Reach desk (record_result desk news sent).1 d
        → again.action_id ≡ news.action_id
        → (record_result desk again d).0 ≢ ok s)
result-IsRecorded_once_example = result-IsRecorded_once desk news sent arrived recorded

abbrev receipt : PublicAction
receipt = public proposed (Instruction.status Status.confirmation_required)

submitted : (submit desk token 0 order opened).0 ≡ ok receipt
unfolding run
submitted = refl

submit-IsAccepted_example : IsAccepted desk token 0 order opened (submit desk token 0 order opened)
submit-IsAccepted_example = submit-IsAccepted desk token 0 order opened receipt submitted

abbrev batch : Evaluation
batch = record {
  commands = "look" ∷ "read sign" ∷ [];
  kind = "sequence";
  confirmation_required = true;
}

batched : evaluate_proposal desk none ("look" ∷ "read sign" ∷ []) ≡ ok batch
unfolding run evaluate_step evaluate_steps
batched = refl

sequence_confirmed_example :
    (batch.confirmation_required ≡ true)
    × (2 ≤ length batch.commands)
    × (length batch.commands ≤ 12)
    × (total_length desk batch.commands ≤ 1200)
    × (length batch.commands ≡ 2)
    × AreBatched desk ("look" ∷ "read sign" ∷ []) batch.commands
sequence_confirmed_example = sequence_confirmed desk ("look" ∷ "read sign" ∷ []) batch batched
