-- ===== src/Actions/Switch.antt =====
-- The kill switch and the replacement of a session: what is left of the actions.
use lich_agent_bridge.Base.{
  ℕ, ◌&&◌, String, Bool, true, false, ◌≡◌, ◌≢◌, refl, some, List, [], ◌∷◌, map, ◌++◌, arith,
  if◌then◌else◌, str_eq, eq_iff, ap, All, ◌∙◌,
}
use lich_agent_bridge.Base.Dict.{member, discard, member-discard}
use lich_agent_bridge.Actions.Types.{
  Action, Broker, Context, Control, Env, Event, PublicAction, ok, execution_enabled, kill_switch,
  is_pending, is_launched,
}
use lich_agent_bridge.Actions.Exec.{Exec, ◌>>=◌, ◌>>◌, pure, log}
use lich_agent_bridge.Actions.Fields.{is_stoppable}
use lich_agent_bridge.Actions.Loop.{find}
use lich_agent_bridge.Actions.Broker.{
  control, poll, require_active_generation_locked, set_enabled, shut_off,
}
use lich_agent_bridge.Actions.Session.{IsActive, require_active-run}
use lich_agent_bridge.Actions.Delivery.{poll_safe, walk-map}

pub All-map {ℓ} :
    (P : Action → Type ℓ) (g : Action → Action) (l : List Action)
    → ((x : Action) → P (g x))
    → All P (map g l)
All-map P g [] h = tt
All-map P g (x ∷ l) h = (h x, All-map P g l h)

pub find-map :
    (i : String) (g : Action → Action) (x : Action) (l : List Action)
    → ((a : Action) → (g a).action_id ≡ a.action_id)
    → find i l ≡ some x
    → find i (map g l) ≡ some (g x)
unfolding find
find-map i g x [] keep h = cc
find-map i g x (y ∷ l) keep h = ground (arith, keep y, find-map i g x l keep)

module _ (env : Env) where
  -- What the kill switch leaves of an action.
  abbrev pub stopped : String → Action → Action
  stopped key x = (shut_off env key x).0

  set_disabled_parts :
      (t : Bool) (key : String) (b : Broker)
      → t ≡ false
      → ((set_enabled env t key b).1.actions ≡ map (stopped key) b.actions)
        × ((set_enabled env t key b).1.enabled ≡ discard key b.enabled)
  unfolding set_enabled ◌>>=◌
  set_disabled_parts true key b e = cc
  set_disabled_parts false key b e =
      (walk-map (shut_off env key) b.actions (λ x. ground arith), refl)

  set_enabled_ok : (t : Bool) (key : String) (b : Broker) → (set_enabled env t key b).0 ≡ ok tt
  unfolding set_enabled ◌>>=◌
  set_enabled_ok true key b = refl
  set_enabled_ok false key b = refl

  -- What `control` does behind the session check.
  abbrev pub switch_events : Control → List Event
  switch_events request =
      if request.enabled
      then execution_enabled request.character request.generation ∷ []
      else kill_switch request.character request.generation ∷ []

  abbrev control_rest : Control → Exec Control
  control_rest request =
      log (switch_events request)
      >> (set_enabled env request.enabled (env.casefold request.character) >> pure request)

  control_parts :
      (request : Control) (b : Broker)
      → control env request b
        ≡ (require_active_generation_locked env request.character request.generation
              >> control_rest request)
            b
  unfolding control
  control_parts request b = refl

  rest_state :
      (request : Control) (b : Broker)
      → (control_rest request b).1
        ≡ (set_enabled env request.enabled
            (env.casefold request.character)
            (record b { audit = b.audit ++ switch_events request })).1
  unfolding set_enabled ◌>>=◌
  rest_state request b = ground arith

  control_state :
      (request : Control) (b : Broker)
      → IsActive env request.character request.generation b
      → (control env request b).1
        ≡ (set_enabled env request.enabled
            (env.casefold request.character)
            (record b { audit = b.audit ++ switch_events request })).1
  control_state request b active = rw control_parts (
      rw
        (require_active-run env request.character request.generation (control_rest request) b
          active)
        (rest_state request b))

  -- An action of the switched-off character that is over or told to stop.
  abbrev pub IsShut : String → Action → Type 0
  IsShut key a =
      str_eq (env.casefold a.character) key ≡ true
      → (is_pending a.status ≡ false)
        × ((is_stoppable a && is_launched a.status) ≡ true → a.stop_requested ≡ true)

  stopped-IsShut : (key : String) (x : Action) → IsShut key (stopped key x)
  stopped-IsShut key x own = (ground arith, λ h. ground arith)

  stopped_other :
      (key : String) (x : Action)
      → str_eq (env.casefold x.character) key ≡ false
      → stopped key x ≡ x
  stopped_other key x other = ground arith

  not-member-discard : (key : String) (s : List String) → member key (discard key s) ≡ false
  not-member-discard key s = rw member-discard (rw ((eq_iff key key).1 refl))

  -- After the kill switch of a character's active session no action of the character is pending,
  -- every stoppable run of it is told to stop, the actions of other characters are as before, and
  -- no `poll` for the character, at any time and for any session, hands anything out.
  pub kill_switch_stops :
      (request : Control) (b : Broker)
      → request.enabled ≡ false
      → IsActive env request.character request.generation b
      → All (IsShut (env.casefold request.character)) (control env request b).1.actions
        × ((i : String) (x : Action)
            → find i b.actions ≡ some x
            → str_eq (env.casefold x.character) (env.casefold request.character) ≡ false
            → find i (control env request b).1.actions ≡ some x)
        × ((now : ℕ) (context : Context) (p : PublicAction)
            → env.casefold context.character ≡ env.casefold request.character
            → (poll env now context (control env request b).1).0 ≢ ok (some p))
  kill_switch_stops request b off active =
      let key = env.casefold request.character in
      let (actions, enabled) =
        set_disabled_parts request.enabled key
          (record b { audit = b.audit ++ switch_events request }) off in
      rw (control_state request b active) (
        rw actions (All-map (IsShut key) (stopped key) b.actions (stopped-IsShut key)),
        λ i x found other. rw actions (
            find-map i (stopped key) x b.actions (λ a. ground arith) found
            ∙ ap some (stopped_other key x other)),
        λ now context p same h.
            let on = ((poll_safe env now context _ p h).0).enabled in
            cc (on, not-member-discard key b.enabled, enabled, same),
      )
