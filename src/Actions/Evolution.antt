-- ===== src/Actions/Evolution.antt =====
-- Every method of the broker makes the actions evolve: one lemma for each.
pub mod Owned
pub mod Submitted
use lich_agent_bridge.Base.{
  ℕ, ◌+◌, ◌&&◌, ◌||◌, not, String, Bool, true, false, ◌≡◌, refl, Option, none, some, List, [], ◌∷◌,
  ◌++◌, arith, if◌then◌else◌, str_eq, eq_iff,
}
use lich_agent_bridge.Base.Dict.{member, discard}
use lich_agent_bridge.Actions.Types.{
  Action, Approval, Broker, Context, Control, Env, Event, Outcome, PublicAction, Report, Status,
}
use lich_agent_bridge.Actions.Exec.{Exec, continue, ◌>>=◌, ◌>>◌, check, lift, log}
use lich_agent_bridge.Actions.Loop.{find, store, walk}
use lich_agent_bridge.Actions.Broker.{
  for_actions, retire, shut_off, deliver, replace_generation, set_enabled, deliver_first,
  admit_generation, control, poll, is_stale_room,
}
use lich_agent_bridge.Actions.Owned.{
  confirm, settle, cancel_if_pending, approve, record_result, get, cancel, request_test_stop,
  revoke_controller_control, revoke_controller_run, request_controller_return,
}
use lich_agent_bridge.Actions.Ledger.{Turn, Evolves, Evolves-refl, Evolves-trans, dispatches}
use lich_agent_bridge.Actions.Rules.{
  Evolves-for_actions, Evolves-log, Evolves-save, Evolves-continue, Evolves-expire, bind-lift, bind,
  bind-get, bind-log, bind-save-log, Evolves-other, bind-check, bind-expire, bind-find,
  bind-require,
}

module _ (env : Env) (i : String) where
  retire-Turn :
      (key g : String) (x : Action) → Turn i x (retire env key g x).1 (retire env key g x).0
  retire-Turn key g x = ground arith

  shut_off-Turn :
      (key : String) (x : Action) → Turn i x (shut_off env key x).1 (shut_off env key x).0
  shut_off-Turn key x = ground arith

  deliver-Turn :
      (context : Context) (x : Action)
      → Turn i x (deliver env context x).1 (deliver env context x).0
  deliver-Turn context x = ground arith

  replace_generation-Evolves :
      (name g : String) (o : Option String) (b : Broker)
      → Evolves i b (replace_generation env name g o b).1
  unfolding replace_generation
  replace_generation-Evolves name g none b = Evolves-refl i b
  replace_generation-Evolves name g (some previous) b = bind-get env i _ b (
      bind env i _ _ b
        (Evolves-for_actions env i (retire env (env.casefold name) g) (retire-Turn _ g) b)
        (λ _ c. bind-log env i _ _ c refl (Evolves-refl i _)))

  pub admit_generation-Evolves :
      (character generation : String) (b : Broker)
      → Evolves i b (admit_generation env character generation b).1
  unfolding admit_generation
  admit_generation-Evolves character generation b = bind-lift env i _ _ b λ name _.
      bind-lift env i _ _ b λ g _. bind-get env i _ b (
        bind env i _ _ b (Evolves-other env i _ _ b)
          λ _ c. bind env i _ _ c (replace_generation-Evolves name g _ c) λ ids d. Evolves-refl i d)

  set_enabled-Evolves :
      (t : Bool) (key : String) (b : Broker) → Evolves i b (set_enabled env t key b).1
  unfolding set_enabled
  set_enabled-Evolves true key b = Evolves-other env i _ _ b
  set_enabled-Evolves false key b =
      Evolves-trans (Evolves-other env i (discard key b.enabled) b.active_generations b) (
        bind env i _ _ _ (Evolves-for_actions env i (shut_off env key) (shut_off-Turn key) _)
          (λ _ c. Evolves-refl i c))

  control_events :
      (t : Bool) (e f : Event)
      → dispatches i (e ∷ []) ≡ 0
      → dispatches i (f ∷ []) ≡ 0
      → dispatches i (if t then e ∷ [] else f ∷ []) ≡ 0
  control_events true e f h k = h
  control_events false e f h k = k

  pub control-Evolves : (request : Control) (b : Broker) → Evolves i b (control env request b).1
  unfolding control
  control-Evolves request b = bind-require env i _ _ _ b (
      bind-log env i _ _ b (control_events request.enabled _ _ refl refl)
        (bind env i _ _ _ (set_enabled-Evolves request.enabled _ _) λ _ c. Evolves-refl i c))

  deliver_first-Evolves :
      (t : Bool) (context : Context) (b : Broker) → Evolves i b (deliver_first env t context b).1
  unfolding deliver_first
  deliver_first-Evolves false context b = Evolves-refl i b
  deliver_first-Evolves true context b =
      Evolves-for_actions env i (deliver env context) (deliver-Turn context) b

  pub poll-Evolves :
      (now : ℕ) (context : Context) (b : Broker) → Evolves i b (poll env now context b).1
  unfolding poll
  poll-Evolves now context b =
      bind-expire env i now _ b
        λ c. bind-require env i _ _ _ c (bind-get env i _ c (deliver_first-Evolves _ context c))
