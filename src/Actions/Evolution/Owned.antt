-- ===== src/Actions/Evolution/Owned.antt =====
-- The methods that a request names an action to, and `submit`, make the actions evolve.
use lich_agent_bridge.Base.{
  ℕ, String, Bool, true, false, ◌≡◌, refl, Option, some, List, [], ◌∷◌, arith, if◌then◌else◌,
}
use lich_agent_bridge.Actions.Types.{
  Action, Approval, Broker, Env, Event, Outcome, Report, is_awaiting, is_dispatched, action_result,
  controller_return_requested,
}
use lich_agent_bridge.Actions.Loop.{find}
use lich_agent_bridge.Actions.Owned.{
  confirm, settle, cancel_if_pending, approve, record_result, get, cancel, request_test_stop,
  revoke_controller_control, revoke_controller_run, request_controller_return,
}
use lich_agent_bridge.Actions.Ledger.{Turn, Evolves, Evolves-refl, dispatches}
use lich_agent_bridge.Actions.Rules.{
  bind-get, bind-log, bind-save-log, bind-lift, bind-check, bind-expire, bind-find, bind-require,
}

module _ (env : Env) (i : String) where
  confirm-Evolves :
      (approval : Approval) (x : Action) (t : Bool) (b : Broker)
      → find x.action_id b.actions ≡ some x
      → is_awaiting x.status ≡ true
      → Evolves i b (confirm env approval x t b).1
  unfolding confirm
  confirm-Evolves approval x true b found awaiting =
      bind-save-log env i _ _ x _ b found (ground arith) λ c. Evolves-refl i c
  confirm-Evolves approval x false b found awaiting =
      bind-save-log env i _ _ x _ b found (ground arith) λ c. Evolves-refl i c

  pub approve-Evolves :
      (now : ℕ) (approval : Approval) (b : Broker) → Evolves i b (approve env now approval b).1
  unfolding approve
  approve-Evolves now approval b = bind-expire env i now _ b λ c. bind-find env i _ _ c λ x found.
      bind-check env i _ _ _ c λ _. bind-require env i _ _ _ c (
        bind-check env i _ _ _ c
          λ _. bind-check env i _ _ _ c λ awaiting. confirm-Evolves approval x _ c found awaiting)

  settle-Turn :
      (outcome : Outcome) (x : Action) (detail : Option String)
      → is_dispatched x.status ≡ true
      → Turn i x
          (action_result (settle env outcome (record x { detail = detail })) outcome ∷ [])
          (settle env outcome (record x { detail = detail }))
  settle-Turn outcome x detail h = ground arith

  pub record_result-Evolves :
      (report : Report) (b : Broker) → Evolves i b (record_result env report b).1
  unfolding record_result
  record_result-Evolves report b = bind-find env i _ _ b λ x found. bind-check env i _ _ _ b λ _.
      bind-require env i _ _ _ b (
        bind-check env i _ _ _ b λ _. bind-check env i _ _ _ b λ sent.
          bind-save-log env i _ _ x _ b found (settle-Turn report.outcome x _ sent)
            λ c. Evolves-refl i c)

  pub get-Evolves : (now : ℕ) (value : String) (b : Broker) → Evolves i b (get env now value b).1
  unfolding get
  get-Evolves now value b =
      bind-expire env i now _ b
        λ c. bind-lift env i _ _ c λ j _. bind-find env i _ _ c λ x found. Evolves-refl i c

  quiet_if :
      (t : Bool) (e : Event)
      → dispatches i (e ∷ []) ≡ 0
      → dispatches i (if t then e ∷ [] else []) ≡ 0
  quiet_if true e h = h
  quiet_if false e h = refl

  -- An action that is cancelled if it is pending, and whose stop mark may be set.
  stop-Turn :
      (x : Action) (es : List Event) (stop : Bool)
      → dispatches i es ≡ 0
      → Turn i x es (
          cancel_if_pending (record x { stop_requested = if stop then true else x.stop_requested }))
  stop-Turn x es stop h = ground arith

  pub cancel-Evolves :
      (now : ℕ) (value character generation : String) (b : Broker)
      → Evolves i b (cancel env now value character generation b).1
  unfolding cancel
  cancel-Evolves now value character generation b = bind-lift env i _ _ b λ j _.
      bind-find env i _ _ b λ _ _. bind-lift env i _ _ b λ _ _. bind-check env i _ _ _ b λ _.
        bind-lift env i _ _ b λ _ _. bind-check env i _ _ _ b λ _. bind-expire env i now _ b λ c.
          bind-find env i _ _ c λ x found. bind-log env i _ _ c (quiet_if _ _ refl) (
            bind-save-log env i _ _ x _ _ found (stop-Turn x _ _ (quiet_if _ _ refl))
              λ d. Evolves-refl i d)

  pub request_test_stop-Evolves :
      (now : ℕ) (value character generation : String) (b : Broker)
      → Evolves i b (request_test_stop env now value character generation b).1
  unfolding request_test_stop
  request_test_stop-Evolves now value character generation b = bind-lift env i _ _ b λ j _.
      bind-find env i _ _ b λ _ _. bind-lift env i _ _ b λ _ _. bind-check env i _ _ _ b λ _.
        bind-lift env i _ _ b λ _ _. bind-check env i _ _ _ b λ _. bind-check env i _ _ _ b λ _.
          bind-expire env i now _ b λ c. bind-find env i _ _ c λ x found.
            bind-save-log env i _ _ x _ c found (stop-Turn x _ _ refl) λ d. Evolves-refl i d

  pub revoke_controller_control-Evolves :
      (now : ℕ) (value character generation : String) (b : Broker)
      → Evolves i b (revoke_controller_control env now value character generation b).1
  unfolding revoke_controller_control
  revoke_controller_control-Evolves now value character generation b = bind-lift env i _ _ b λ j _.
      bind-find env i _ _ b λ _ _. bind-lift env i _ _ b λ _ _. bind-check env i _ _ _ b λ _.
        bind-lift env i _ _ b λ _ _. bind-check env i _ _ _ b λ _. bind-expire env i now _ b λ c.
          bind-find env i _ _ c λ x found.
            bind-save-log env i _ _ x _ c found (stop-Turn x _ true refl) λ d. Evolves-refl i d

  pub revoke_controller_run-Evolves :
      (now : ℕ) (value character generation : String) (b : Broker)
      → Evolves i b (revoke_controller_run env now value character generation b).1
  unfolding revoke_controller_run
  revoke_controller_run-Evolves now value character generation b = bind-lift env i _ _ b λ j _.
      bind-find env i _ _ b λ _ _. bind-lift env i _ _ b λ _ _. bind-check env i _ _ _ b λ _.
        bind-lift env i _ _ b λ _ _. bind-check env i _ _ _ b λ _. bind-expire env i now _ b λ c.
          bind-find env i _ _ c λ x found.
            bind-save-log env i _ _ x _ c found (stop-Turn x _ true refl) λ d. Evolves-refl i d

  return-Turn :
      (x : Action)
      → Turn i x
          (controller_return_requested (record x { return_requested = true }) ∷ [])
          (record x { return_requested = true })
  return-Turn x = ground arith

  pub request_controller_return-Evolves :
      (now later : ℕ) (value character generation : String) (b : Broker)
      → Evolves i b (request_controller_return env now later value character generation b).1
  unfolding request_controller_return
  request_controller_return-Evolves now later value character generation b =
      bind-lift env i _ _ b λ j _. bind-find env i _ _ b λ _ _. bind-lift env i _ _ b λ _ _.
        bind-check env i _ _ _ b λ _. bind-lift env i _ _ b λ _ _. bind-check env i _ _ _ b λ _.
          bind-expire env i now _ b λ c. bind-find env i _ _ c λ x found.
            bind-require env i _ _ _ c (
              bind-get env i _ c (
                bind-check env i _ _ _ c
                  λ _. bind-save-log env i _ _ x _ c found (return-Turn x) λ d. Evolves-refl i d))
