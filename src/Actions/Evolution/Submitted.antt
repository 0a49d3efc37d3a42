-- ===== src/Actions/Evolution/Submitted.antt =====
-- `submit` makes the actions evolve: its action is new.
use lich_agent_bridge.Base.{
  ℕ, ◌+◌, String, Bool, ◌≡◌, refl, Option, none, some, List, [], ◌∷◌, ◌++◌, arith, eq_iff,
}
use lich_agent_bridge.Actions.Types.{Action, Broker, Env, Event, Proposal}
use lich_agent_bridge.Actions.Exec.{Exec, ◌>>=◌, ◌>>◌, log}
use lich_agent_bridge.Actions.Loop.{find, store}
use lich_agent_bridge.Actions.Owned.{save}
use lich_agent_bridge.Actions.Submit.{submit, require_active, check_controller_deadline, new_action}
use lich_agent_bridge.Actions.Ledger.{
  Evolves, Evolves-refl, Evolves-trans, Follows, dispatches, dispatches-append, approvals-append,
  total, weigh, spent, confirmed, one,
}
use lich_agent_bridge.Actions.Diagram.{Later-refl}
use lich_agent_bridge.Actions.Rules.{bind-still, bind-get, bind-lift, bind-check}

-- Storing a new action appends it.
total-store_new :
    (w : Action → ℕ) (i : String) (a : Action) (l : List Action)
    → find a.action_id l ≡ none
    → total w i (store a l) ≡ total w i l + weigh w i a
unfolding total store find
total-store_new w i a [] h = omega arith
total-store_new w i a (x ∷ l) h = ground (arith, total-store_new w i a l)

total-absent : (w : Action → ℕ) (i : String) (l : List Action) → find i l ≡ none → total w i l ≡ 0
unfolding total find
total-absent w i [] h = refl
total-absent w i (x ∷ l) h = ground (arith, total-absent w i l)

Follows-keep : (o p : Option Action) → ((x : Action) → o ≡ some x → p ≡ some x) → Follows o p
Follows-keep none p h = tt
Follows-keep (some x) p h = rw (h x refl) (Later-refl x)

find-store_new :
    (i : String) (a x : Action) (l : List Action)
    → find a.action_id l ≡ none
    → find i l ≡ some x
    → find i (store a l) ≡ some x
unfolding store find
find-store_new i a x [] h k = cc
find-store_new i a x (y ∷ l) h k = ground (arith, find-store_new i a x l)

module _ (env : Env) (i : String) where
  Evolves-add :
      (a : Action) (es : List Event) (b : Broker)
      → find a.action_id b.actions ≡ none
      → spent a ≡ 0
      → confirmed a ≡ 0
      → dispatches i es ≡ 0
      → Evolves i b (record b { actions = store a b.actions; audit = b.audit ++ es })
  Evolves-add a es b fresh not_sent not_confirmed quiet = record {
    follows =
        Follows-keep (find i b.actions) _ (λ x found. find-store_new i a x b.actions fresh found);
    sent =
        ground (arith, total-store_new spent i a b.actions fresh, dispatches-append i b.audit es);
    confirmed =
        ground
          (arith, total-store_new confirmed i a b.actions fresh, approvals-append i b.audit es);
    unique = λ h. ground (
      arith,
      total-store_new one i a b.actions fresh,
      total-absent one i b.actions,
      eq_iff a.action_id i,
    );
  }

  bind-log_add :
      {B : Type 0} (a : Action) (es : List Event) (k : Exec B) (b : Broker)
      → find a.action_id b.actions ≡ none
      → spent a ≡ 0
      → confirmed a ≡ 0
      → dispatches i es ≡ 0
      → ((c : Broker) → Evolves i c (k c).1)
      → Evolves i b ((log es >> (save a >> k)) b).1
  unfolding ◌>>=◌
  bind-log_add a es k b fresh not_sent not_confirmed quiet h =
      Evolves-trans (Evolves-add a es b fresh not_sent not_confirmed quiet) (h _)

  controller_deadline-still :
      (now : ℕ) (t : Bool) (proposal : Proposal) (b : Broker)
      → b ≡ (check_controller_deadline env now t proposal b).1
  unfolding check_controller_deadline
  controller_deadline-still now t proposal b = ground arith

  require_active-still : (o : Option String) (b : Broker) → b ≡ (require_active env o b).1
  require_active-still none b = refl
  require_active-still (some g) b = refl

  -- A proposal with a token that no action has yet.
  pub submit-Evolves :
      (token : String) (now : ℕ) (proposal : Proposal) (b : Broker)
      → find token b.actions ≡ none
      → Evolves i b (submit env token now proposal b).1
  unfolding submit
  submit-Evolves token now proposal b fresh = bind-lift env i _ _ b λ e _. bind-get env i _ b (
      bind-still env i _ _ b (require_active-still _ b) λ generation. bind-check env i _ _ _ b λ _.
        bind-check env i _ _ _ b λ _.
          bind-still env i _ _ b (controller_deadline-still now _ proposal b) λ _.
            bind-lift env i _ _ b λ expires_at _.
              bind-log_add (new_action env token now expires_at generation e proposal) _ _ b fresh
                (ground arith) (ground arith) refl λ c. Evolves-refl i c)
