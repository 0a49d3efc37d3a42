-- ===== src/Actions/Rules.antt =====
-- `Evolves` for the parts that the methods of the broker are made of.
use lich_agent_bridge.Base.{
  ℕ, String, Bool, true, false, ◌≡◌, refl, ap, ◌∙◌, subst, Option, none, some, List, [], ◌∷◌, ◌++◌,
  arith, if◌then◌else◌, str_eq, eq_iff,
}
use lich_agent_bridge.Base.Dict.{lookup}
use lich_agent_bridge.Actions.Types.{Action, Broker, Env, Error, Event, Result, ok, err}
use lich_agent_bridge.Actions.Exec.{Exec, continue, ◌>>=◌, ◌>>◌, check, lift, log, get_broker}
use lich_agent_bridge.Actions.Loop.{find, store, walk}
use lich_agent_bridge.Actions.Broker.{
  for_actions, expire_action, expire_locked, found, active_is, find_locked,
  require_active_generation_locked,
}
use lich_agent_bridge.Actions.Owned.{save}
use lich_agent_bridge.Actions.Ledger.{
  Turn, Follows, Follows-refl, Evolves, Evolves-refl, Evolves-trans, spent, confirmed, one,
  dispatches, dispatches-append, approvals-append, total-store, find-store, total-walk-spent,
  total-walk-confirmed, total-walk-one, find-walk,
}

pub find_id : (j : String) (l : List Action) (x : Action) → find j l ≡ some x → x.action_id ≡ j
unfolding find
find_id j [] x h = cc
find_id j (y ∷ l) x h = ground (arith, eq_iff y.action_id j, find_id j l x)

module _ (env : Env) (i : String) where
  pub Evolves-for_actions :
      {R : Type 0} (f : Action → Action × List Event × Option R)
      → ((x : Action) → Turn i x (f x).1 (f x).0)
      → (b : Broker) → Evolves i b (for_actions env f b).1
  Evolves-for_actions f turn b = record {
    follows = find-walk i f turn b.actions;
    sent = omega (
      arith,
      total-walk-spent i f turn b.actions,
      dispatches-append i b.audit (walk f b.actions).1,
    );
    confirmed = omega (
      arith,
      total-walk-confirmed i f turn b.actions,
      approvals-append i b.audit (walk f b.actions).1,
    );
    unique = λ h. omega (arith, total-walk-one i f turn b.actions);
  }

  pub Evolves-log :
      (es : List Event) (b : Broker)
      → dispatches i es ≡ 0
      → Evolves i b (record b { audit = b.audit ++ es })
  Evolves-log es b h = record {
    follows = Follows-refl (find i b.actions);
    sent = omega (arith, dispatches-append i b.audit es);
    confirmed = omega (arith, approvals-append i b.audit es);
    unique = λ h. h;
  }

  pub Evolves-save :
      (es : List Event) (a x : Action) (b : Broker)
      → find x.action_id b.actions ≡ some x
      → Turn i x es a
      → Evolves i b (record b { actions = store a b.actions; audit = b.audit ++ es })
  Evolves-save es a x b found turn = record {
    follows = follows;
    sent = omega (
      arith,
      turn.sent,
      dispatches-append i b.audit es,
      total-store spent i a x b.actions turn.later.action_id found,
    );
    confirmed = omega (
      arith,
      turn.confirmed,
      approvals-append i b.audit es,
      total-store confirmed i a x b.actions turn.later.action_id found,
    );
    unique = λ h.
        ground
          (arith, turn.later.action_id, total-store one i a x b.actions turn.later.action_id found);
  }
    where
      same :
          (t : Bool)
          → str_eq x.action_id i ≡ t
          → Follows (find i b.actions) (if t then some a else find i b.actions)
      same true e =
          let here : find i b.actions ≡ some x = ground (arith, eq_iff x.action_id i, found) in
          rw here turn.later
      same false e = Follows-refl (find i b.actions)

      follows : Follows (find i b.actions) (find i (store a b.actions))
      follows =
          rw (find-store i a x b.actions turn.later.action_id found)
            (same (str_eq x.action_id i) refl)

  pub Evolves-continue :
      {A B : Type 0} (r : Result A × Broker) (f : A → Exec B) (b : Broker)
      → Evolves i b r.1
      → ((a : A) (c : Broker) → Evolves i c (f a c).1)
      → Evolves i b (continue r f).1
  Evolves-continue (ok a, c) f b h k = Evolves-trans h (k a c)
  Evolves-continue (err e, c) f b h k = h

  pub bind :
      {A B : Type 0} (m : Exec A) (f : A → Exec B) (b : Broker)
      → Evolves i b (m b).1
      → ((a : A) (c : Broker) → Evolves i c (f a c).1)
      → Evolves i b ((m >>= f) b).1
  unfolding ◌>>=◌
  bind m f b h k = Evolves-continue (m b) f b h k

  still :
      {A B : Type 0} (r : Result A × Broker) (f : A → Exec B) (b : Broker)
      → b ≡ r.1
      → ((a : A) → Evolves i b (f a b).1)
      → Evolves i b (continue r f).1
  still (ok a, c) f b h k = subst (λ (d : Broker). Evolves i b (f a d).1) h (k a)
  still (err e, c) f b h k = subst (λ (d : Broker). Evolves i b d) h (Evolves-refl i b)

  -- A part that reads the broker and does not change it.
  pub bind-still :
      {A B : Type 0} (m : Exec A) (f : A → Exec B) (b : Broker)
      → b ≡ (m b).1
      → ((a : A) → Evolves i b (f a b).1)
      → Evolves i b ((m >>= f) b).1
  unfolding ◌>>=◌
  bind-still m f b h k = still (m b) f b h k

  -- A change of the broker that touches neither the actions nor the log.
  pub Evolves-other :
      (enabled : List String) (generations : List (String × String)) (b : Broker)
      → Evolves i b (record b { enabled = enabled; active_generations = generations })
  Evolves-other enabled generations b = record {
    follows = Follows-refl (find i b.actions);
    sent = refl;
    confirmed = omega arith;
    unique = λ h. h;
  }

  pub bind-get :
      {B : Type 0} (f : Broker → Exec B) (b : Broker)
      → Evolves i b (f b b).1
      → Evolves i b ((get_broker >>= f) b).1
  unfolding ◌>>=◌
  bind-get f b h = h

  -- The end of a method: the changed action is stored, its events are logged.
  pub bind-save-log :
      {B : Type 0} (es : List Event) (a x : Action) (k : Exec B) (b : Broker)
      → find x.action_id b.actions ≡ some x
      → Turn i x es a
      → ((c : Broker) → Evolves i c (k c).1)
      → Evolves i b ((save a >> (log es >> k)) b).1
  unfolding ◌>>=◌
  bind-save-log es a x k b found turn h = Evolves-trans (Evolves-save es a x b found turn) (h _)

  pub bind-log :
      {B : Type 0} (es : List Event) (k : Exec B) (b : Broker)
      → dispatches i es ≡ 0
      → Evolves i (record b { audit = b.audit ++ es }) (k (record b { audit = b.audit ++ es })).1
      → Evolves i b ((log es >> k) b).1
  unfolding ◌>>=◌
  bind-log es k b h r = Evolves-trans (Evolves-log es b h) r

  pub bind-lift :
      {A B : Type 0} (r : Result A) (f : A → Exec B) (b : Broker)
      → ((a : A) → r ≡ ok a → Evolves i b (f a b).1)
      → Evolves i b ((lift r >>= f) b).1
  unfolding ◌>>=◌
  bind-lift (ok a) f b k = k a refl
  bind-lift (err e) f b k = Evolves-refl i b

  pub bind-check :
      {B : Type 0} (t : Bool) (e : Error) (k : Exec B) (b : Broker)
      → (t ≡ true → Evolves i b (k b).1)
      → Evolves i b ((check t e >> k) b).1
  unfolding ◌>>=◌
  bind-check true e k b h = h refl
  bind-check false e k b h = Evolves-refl i b

  expire-Turn :
      (now : ℕ) (x : Action) → Turn i x (expire_action env now x).1 (expire_action env now x).0
  expire-Turn now x = ground arith

  pub Evolves-expire : (now : ℕ) (b : Broker) → Evolves i b (expire_locked env now b).1
  unfolding expire_locked ◌>>=◌
  Evolves-expire now b = Evolves-for_actions (expire_action env now) (expire-Turn now) b

  pub bind-expire :
      {B : Type 0} (now : ℕ) (k : Exec B) (b : Broker)
      → ((c : Broker) → Evolves i c (k c).1)
      → Evolves i b ((expire_locked env now >> k) b).1
  unfolding ◌>>=◌
  bind-expire now k b h =
      Evolves-continue (expire_locked env now b) (λ _. k) b (Evolves-expire now b) (λ _ c. h c)

  found-Evolves :
      {B : Type 0} (o : Option Action) (f : Action → Exec B) (b : Broker)
      → ((x : Action) → o ≡ some x → Evolves i b (f x b).1)
      → Evolves i b (continue (found env o b) f).1
  found-Evolves none f b h = Evolves-refl i b
  found-Evolves (some x) f b h = h x refl

  pub bind-find :
      {B : Type 0} (j : String) (f : Action → Exec B) (b : Broker)
      → ((x : Action) → find x.action_id b.actions ≡ some x → Evolves i b (f x b).1)
      → Evolves i b ((find_locked env j >>= f) b).1
  unfolding find_locked ◌>>=◌
  bind-find j f b h =
      found-Evolves (find j b.actions) f b
        λ x e. h x (ap (λ (k : String). find k b.actions) (find_id j b.actions x e) ∙ e)

  active_is-Evolves :
      {B : Type 0} (g : String) (o : Option String) (k : Exec B) (b : Broker)
      → Evolves i b (k b).1
      → Evolves i b (continue (active_is env g o b) (λ _. k)).1
  unfolding ◌>>=◌
  active_is-Evolves g none k b h = Evolves-refl i b
  active_is-Evolves g (some active) k b h = bind-check (str_eq active g) _ k b (λ _. h)

  pub bind-require :
      {B : Type 0} (character generation : String) (k : Exec B) (b : Broker)
      → Evolves i b (k b).1
      → Evolves i b ((require_active_generation_locked env character generation >> k) b).1
  unfolding require_active_generation_locked ◌>>=◌
  bind-require character generation k b h =
      active_is-Evolves generation (lookup (env.casefold character) b.active_generations) k b h
