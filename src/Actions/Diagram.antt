-- ===== src/Actions/Diagram.antt =====
-- The life of an action: the status diagram, and what no method of the broker changes.
use lich_agent_bridge.Base.{Bool, true, false, ◌≡◌, refl, ◌∙◌, arith}
use lich_agent_bridge.Actions.Types.{
  Action, Status, confirmation_required, queued, dispatched, completed, failed, cancelled, expired,
  denied_stale_room,
}

infix 40 ◌⟶◌ ◌⟶*◌
pub data ◌⟶◌ : Status → Status → Type 0 where
  approve : confirmation_required ⟶ queued
  dispatch : queued ⟶ dispatched
  complete : dispatched ⟶ completed
  fail : dispatched ⟶ failed
  cancel : queued ⟶ cancelled
  cancel_unconfirmed : confirmation_required ⟶ cancelled
  expire : queued ⟶ expired
  expire_unconfirmed : confirmation_required ⟶ expired
  deny : queued ⟶ denied_stale_room
  deny_unconfirmed : confirmation_required ⟶ denied_stale_room

pub data ◌⟶*◌ : Status → Status → Type 0 where
  here : {s : Status} → s ⟶* s
  next : {s t u : Status} → s ⟶ t → t ⟶* u → s ⟶* u

pub ruleset edges = (
  approve, dispatch, complete, fail, cancel, cancel_unconfirmed, expire, expire_unconfirmed, deny,
  deny_unconfirmed,
)

-- The closure of the diagram, as a test.
abbrev pub reaches : Status → Status → Bool
reaches confirmation_required _ = true
reaches queued confirmation_required = false
reaches queued _ = true
reaches dispatched dispatched = true
reaches dispatched completed = true
reaches dispatched failed = true
reaches completed completed = true
reaches failed failed = true
reaches cancelled cancelled = true
reaches expired expired = true
reaches denied_stale_room denied_stale_room = true
reaches _ _ = false

pub reaches-⟶* : (s t : Status) → reaches s t ≡ true → s ⟶* t
reaches-⟶* confirmation_required t h = from_start t
  where
    from_start : (t : Status) → confirmation_required ⟶* t
    from_start confirmation_required = here
    from_start _ = search (here, next, edges)
reaches-⟶* queued confirmation_required h = cc
reaches-⟶* queued queued h = here
reaches-⟶* queued _ h = search (here, next, edges)
reaches-⟶* dispatched dispatched h = here
reaches-⟶* dispatched completed h = search (here, next, edges)
reaches-⟶* dispatched failed h = search (here, next, edges)
reaches-⟶* completed completed h = here
reaches-⟶* failed failed h = here
reaches-⟶* cancelled cancelled h = here
reaches-⟶* expired expired h = here
reaches-⟶* denied_stale_room denied_stale_room h = here
reaches-⟶* _ _ h = cc

pub reaches_refl : (s : Status) → reaches s s ≡ true
reaches_refl confirmation_required = refl
reaches_refl _ = refl

pub reaches_trans : (s t u : Status) → reaches s t ≡ true → reaches t u ≡ true → reaches s u ≡ true
reaches_trans confirmation_required t u h k = refl
reaches_trans queued t u h k = ground arith
reaches_trans dispatched t u h k = ground arith
reaches_trans _ t u h k = ground arith

-- `a` is `x` later in its life: the status has moved along the diagram, a stop or a return that was
-- requested stays requested, and what was proposed is as it was.
pub record Later (x a : Action) : Type 0 where
  pub status : reaches x.status a.status ≡ true
  pub stop_requested : x.stop_requested ≡ true → a.stop_requested ≡ true
  pub return_requested : x.return_requested ≡ true → a.return_requested ≡ true
  pub action_id : a.action_id ≡ x.action_id
  pub character : a.character ≡ x.character
  pub generation : a.generation ≡ x.generation
  pub commands : a.commands ≡ x.commands
  pub kind : a.kind ≡ x.kind
  pub created_at : a.created_at ≡ x.created_at
  pub expires_at : a.expires_at ≡ x.expires_at
  pub confirmation_required : a.confirmation_required ≡ x.confirmation_required
  pub test_run : a.test_run ≡ x.test_run
  pub controller_control : a.controller_control ≡ x.controller_control
  pub controller_deadline : a.controller_deadline ≡ x.controller_deadline

pub Later-refl : (a : Action) → Later a a
Later-refl a = record {
  status = reaches_refl a.status;
  stop_requested = λ h. h;
  return_requested = λ h. h;
  action_id = refl;
  character = refl;
  generation = refl;
  commands = refl;
  kind = refl;
  created_at = refl;
  expires_at = refl;
  confirmation_required = refl;
  test_run = refl;
  controller_control = refl;
  controller_deadline = refl;
}

pub Later-trans : {a b c : Action} → Later a b → Later b c → Later a c
Later-trans {a} {b} {c} p q = record {
  status = reaches_trans a.status b.status c.status p.status q.status;
  stop_requested = λ h. q.stop_requested (p.stop_requested h);
  return_requested = λ h. q.return_requested (p.return_requested h);
  action_id = q.action_id ∙ p.action_id;
  character = q.character ∙ p.character;
  generation = q.generation ∙ p.generation;
  commands = q.commands ∙ p.commands;
  kind = q.kind ∙ p.kind;
  created_at = q.created_at ∙ p.created_at;
  expires_at = q.expires_at ∙ p.expires_at;
  confirmation_required = q.confirmation_required ∙ p.confirmation_required;
  test_run = q.test_run ∙ p.test_run;
  controller_control = q.controller_control ∙ p.controller_control;
  controller_deadline = q.controller_deadline ∙ p.controller_deadline;
}
