-- ===== src/Actions/Reach.antt =====
-- The broker under any sequence of requests: a step relation, and what holds in every state that it
-- reaches.
use lich_agent_bridge.Base.{
  ℕ, ◌≤◌, ◌<◌, ◌||◌, String, true, ◌≡◌, refl, Option, none, some, List, [], ◌∷◌, arith,
  if◌then◌else◌,
}
use lich_agent_bridge.Actions.Types.{
  Action, Approval, Broker, Context, Control, Env, Proposal, Report, is_launched, is_queued,
}
use lich_agent_bridge.Actions.Loop.{find}
use lich_agent_bridge.Actions.Broker.{init, admit_generation, control, poll}
use lich_agent_bridge.Actions.Owned.{
  approve, record_result, get, cancel, request_test_stop, revoke_controller_control,
  revoke_controller_run, request_controller_return,
}
use lich_agent_bridge.Actions.Submit.{submit}
use lich_agent_bridge.Actions.Diagram.{Later, ◌⟶*◌, reaches-⟶*}
use lich_agent_bridge.Actions.Ledger.{
  Evolves, Evolves-refl, Evolves-trans, Follows, dispatches, approvals, total, spent, confirmed,
  one,
}
use lich_agent_bridge.Actions.Evolution.{admit_generation-Evolves, control-Evolves, poll-Evolves}
use lich_agent_bridge.Actions.Evolution.Owned.{
  approve-Evolves, record_result-Evolves, get-Evolves, cancel-Evolves, request_test_stop-Evolves,
  revoke_controller_control-Evolves, revoke_controller_run-Evolves,
  request_controller_return-Evolves,
}
use lich_agent_bridge.Actions.Evolution.Submitted.{submit-Evolves}

-- A call of one method of the broker, at any time and with any arguments. The lock makes each call
-- one step; the token of a proposal is one that was not drawn before.
pub data Request : Type 0 where
  admit : String → String → Request
  switch : Control → Request
  propose : String → ℕ → Proposal → Request
  fetch : ℕ → Context → Request
  confirm : ℕ → Approval → Request
  report : Report → Request
  read : ℕ → String → Request
  withdraw stop_test revoke_control revoke_run : ℕ → String → String → String → Request
  send_home : ℕ → ℕ → String → String → String → Request

module _ (env : Env) where
  -- The broker after a call, whether it returned or raised.
  unfoldable pub handle : Request → Broker → Broker
  handle (admit character generation) b = (admit_generation env character generation b).1
  handle (switch request) b = (control env request b).1
  handle (propose token now proposal) b = (submit env token now proposal b).1
  handle (fetch now context) b = (poll env now context b).1
  handle (confirm now approval) b = (approve env now approval b).1
  handle (report result) b = (record_result env result b).1
  handle (read now value) b = (get env now value b).1
  handle (withdraw now i name g) b = (cancel env now i name g b).1
  handle (stop_test now i name g) b = (request_test_stop env now i name g b).1
  handle (revoke_control now i name g) b = (revoke_controller_control env now i name g b).1
  handle (revoke_run now i name g) b = (revoke_controller_run env now i name g b).1
  handle (send_home now later i name g) b = (request_controller_return env now later i name g b).1

  -- The token is new.
  abbrev pub IsFresh : Request → Broker → Type 0
  IsFresh (propose token now proposal) b = find token b.actions ≡ none
  IsFresh _ b = Unit

  pub data Reach (b : Broker) : Broker → Type 0 where
    here : Reach b b
    after : {c : Broker} (r : Request) → Reach b c → IsFresh r c → Reach b (handle r c)

  pub handle-Evolves :
      (i : String) (r : Request) (b : Broker) → IsFresh r b → Evolves i b (handle r b)
  unfolding handle
  handle-Evolves i (admit character generation) b h =
      admit_generation-Evolves env i character generation b
  handle-Evolves i (switch request) b h = control-Evolves env i request b
  handle-Evolves i (propose token now proposal) b h = submit-Evolves env i token now proposal b h
  handle-Evolves i (fetch now context) b h = poll-Evolves env i now context b
  handle-Evolves i (confirm now approval) b h = approve-Evolves env i now approval b
  handle-Evolves i (report result) b h = record_result-Evolves env i result b
  handle-Evolves i (read now value) b h = get-Evolves env i now value b
  handle-Evolves i (withdraw now j name g) b h = cancel-Evolves env i now j name g b
  handle-Evolves i (stop_test now j name g) b h = request_test_stop-Evolves env i now j name g b
  handle-Evolves i (revoke_control now j name g) b h =
      revoke_controller_control-Evolves env i now j name g b
  handle-Evolves i (revoke_run now j name g) b h =
      revoke_controller_run-Evolves env i now j name g b
  handle-Evolves i (send_home now later j name g) b h =
      request_controller_return-Evolves env i now later j name g b

  Reach-Evolves : (i : String) {b c : Broker} → Reach b c → Evolves i b c
  Reach-Evolves i {b} here = Evolves-refl i b
  Reach-Evolves i (after {c = c} r past fresh) =
      Evolves-trans (Reach-Evolves i past) (handle-Evolves i r c fresh)

  -- From any state of the broker and through any calls, an action is never lost: its status moves
  -- along the diagram only, its stop and return marks stay once they are set, and its owner,
  -- session, commands and expiry never change.
  pub action_moves_on :
      {b c : Broker} (i : String) (x : Action)
      → Reach b c
      → find i b.actions ≡ some x
      → (a : Action) × (find i c.actions ≡ some a) × (x.status ⟶* a.status) × Later x a
  action_moves_on {b} {c} i x past found =
      read (find i c.actions) refl (rw found at ((Reach-Evolves i past).follows))
    where
      read :
          (o : Option Action)
          → find i c.actions ≡ o
          → Follows (some x) (find i c.actions)
          → (a : Action) × (find i c.actions ≡ some a) × (x.status ⟶* a.status) × Later x a
      read none e h = absurd (rw e at h)
      read (some a) e h =
          let l : Later x a = rw e at h in (a, e, reaches-⟶* x.status a.status l.status, l)

  spent-le-one : (i : String) (l : List Action) → total spent i l ≤ total one i l
  unfolding total
  spent-le-one i [] = omega arith
  spent-le-one i (a ∷ l) = ground (arith, spent-le-one i l)

  -- Through any calls from the empty broker, the audit log dispatches no action twice.
  pub dispatched_at_most_once : {c : Broker} (i : String) → Reach init c → dispatches i c.audit ≤ 1
  unfolding total
  dispatched_at_most_once {c} i past =
      let e : Evolves i init c = Reach-Evolves i past in
      omega (arith, e.sent, e.unique (omega arith), spent-le-one i c.actions)

  weigh-le-total :
      (w : Action → ℕ) (i : String) (a : Action) (l : List Action)
      → find i l ≡ some a
      → w a ≤ total w i l
  unfolding total find
  weigh-le-total w i a [] h = cc
  weigh-le-total w i a (x ∷ l) h = ground (arith, weigh-le-total w i a l)

  -- Through any calls from the empty broker, an action that needs a confirmation and is queued or
  -- was sent has an approval of its own in the audit log.
  pub confirmed_by_approval :
      {c : Broker} (i : String) (a : Action)
      → Reach init c
      → find i c.actions ≡ some a
      → a.confirmation_required ≡ true
      → (is_queued a.status || is_launched a.status) ≡ true
      → 0 < approvals i c.audit
  unfolding total
  confirmed_by_approval {c} i a past found needed ready =
      let e : Evolves i init c = Reach-Evolves i past in
      ground (arith, e.confirmed, weigh-le-total confirmed i a c.actions found)

  total-spent :
      (i : String) (a : Action) (l : List Action)
      → find i l ≡ some a
      → total one i l ≤ 1
      → total spent i l ≡ spent a
  unfolding total find
  total-spent i a [] h k = cc
  total-spent i a (x ∷ l) h k = ground (arith, total-spent i a l, spent-le-one i l)

  -- Through any calls from the empty broker, an action that was sent has exactly one dispatch in the
  -- audit log, and any other action has none.
  pub log_tells_dispatch :
      {c : Broker} (i : String) (a : Action)
      → Reach init c
      → find i c.actions ≡ some a
      → dispatches i c.audit ≡ (if is_launched a.status then 1 else 0)
  unfolding total
  log_tells_dispatch {c} i a past found =
      let e : Evolves i init c = Reach-Evolves i past in
      omega (arith, e.sent, total-spent i a c.actions found (e.unique (omega arith)))
