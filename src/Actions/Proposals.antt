-- ===== src/Actions/Proposals.antt =====
-- `submit`: what an accepted proposal is.
use lich_agent_bridge.Base.{
  ℕ, ◌+◌, ◌*◌, ◌≤◌, ◌<◌, not, String, Bool, true, false, ◌≡◌, refl, Option, none, some, List, [],
  ◌∷◌, arith, if◌then◌else◌, eq_iff, ap, ◌∙◌, sym,
}
use lich_agent_bridge.Base.Dict.{lookup, member}
use lich_agent_bridge.Actions.Types.{
  Action, Broker, Deadline, at, not_a_number, not_finite, Env, Proposal, PublicAction, Result,
  Status, action_proposed, Instruction, ok, err, queued,
}
use lich_agent_bridge.Actions.Exec.{Exec, continue, ◌>>=◌, ◌>>◌, log, pure}
use lich_agent_bridge.Actions.Fields.{public}
use lich_agent_bridge.Actions.Loop.{find, store}
use lich_agent_bridge.Actions.Owned.{save}
use lich_agent_bridge.Actions.Submit.{
  Evaluation, check_controller_deadline, evaluate_proposal, expiry, is_future_option,
  is_other_generation, is_single, time_of, new_action, require_active, submit,
}
use lich_agent_bridge.Actions.Session.{lifted, checked}

find-store_self : (a : Action) (l : List Action) → find a.action_id (store a l) ≡ some a
unfolding find store
find-store_self a [] = ground (arith, eq_iff a.action_id a.action_id)
find-store_self a (x ∷ l) = ground (arith, eq_iff a.action_id a.action_id, find-store_self a l)

module _ (env : Env) where
  open env use {casefold, second, is_controlled_launch}

  -- An action as a proposal may add it: bound to the active session, not yet approved if it needs
  -- that, and gone by its time to live and by the deadline of the operation that owns it.
  pub record IsProposed (now : ℕ) (proposal : Proposal) (b : Broker) (a : Action) : Type 0 where
    pub decision : Evaluation
    pub evaluated : evaluate_proposal env proposal.command proposal.commands ≡ ok decision
    pub commands : a.commands ≡ decision.commands
    pub kind : a.kind ≡ decision.kind
    pub confirmation : a.confirmation_required ≡ decision.confirmation_required
    pub character : a.character ≡ proposal.character
    pub room : a.expected_room_id ≡ proposal.expected_room_id
    pub created : a.created_at ≡ now
    pub fresh : (a.notified ≡ false) × (a.completion ≡ none)
    pub enabled : member (casefold proposal.character) b.enabled ≡ true
    pub active : lookup (casefold proposal.character) b.active_generations ≡ some a.generation
    pub expected : (g : String) → proposal.expected_generation ≡ some g → a.generation ≡ g
    pub status :
        a.status ≡ (if decision.confirmation_required then Status.confirmation_required else queued)
    pub lives : a.expires_at ≤ now + proposal.ttl_seconds * second
    pub in_time : (t : ℕ) → proposal.deadline ≡ some (at t) → (now < t) × (a.expires_at ≤ t)
    pub controlled :
        is_single env is_controlled_launch a.commands ≡ true
        → (t : ℕ) × (a.controller_deadline ≡ some t)
          × (proposal.controller_deadline ≡ some (at t))
          × (now < t)
    pub uncontrolled :
        is_single env is_controlled_launch a.commands ≡ false
        → (a.controller_deadline ≡ none) × (proposal.controller_deadline ≡ none)

  -- The end of `submit`.
  abbrev add_action : Action → Exec PublicAction
  add_action action = do
    log (action_proposed action ∷ [])
    save action
    pure (public action (Instruction.status action.status))

  time_of_future :
      (now : ℕ) (o : Option Deadline)
      → is_future_option env now o ≡ true
      → (t : ℕ) × (time_of env o ≡ some t) × (o ≡ some (at t)) × (now < t)
  time_of_future now none h = cc
  time_of_future now (some not_a_number) h = cc
  time_of_future now (some not_finite) h = cc
  time_of_future now (some (at t)) h = (t, refl, refl, ground arith)

  controlled_by :
      (now : ℕ) (launch : Bool) (proposal : Proposal) (b : Broker)
      → (check_controller_deadline env now launch proposal b).0 ≡ ok tt
      → launch ≡ true
      → (t : ℕ) × ((if launch then time_of env proposal.controller_deadline else none) ≡ some t)
        × (proposal.controller_deadline ≡ some (at t))
        × (now < t)
  unfolding check_controller_deadline
  controlled_by now true proposal b h e =
      time_of_future now proposal.controller_deadline (ground arith)
  controlled_by now false proposal b h e = cc

  new_action-IsProposed :
      (token : String) (now expires_at : ℕ) (g : String) (e : Evaluation) (proposal : Proposal)
      (b : Broker)
      → evaluate_proposal env proposal.command proposal.commands ≡ ok e
      → lookup (casefold proposal.character) b.active_generations ≡ some g
      → not (is_other_generation env proposal.expected_generation g) ≡ true
      → member (casefold proposal.character) b.enabled ≡ true
      → (check_controller_deadline env now
          (is_single env is_controlled_launch e.commands)
          proposal
          b).0
        ≡ ok tt
      → expiry env now (now + proposal.ttl_seconds * second) proposal.deadline ≡ ok expires_at
      → IsProposed now proposal b (new_action env token now expires_at g e proposal)
  unfolding check_controller_deadline expiry new_action
  new_action-IsProposed token now expires_at g e proposal b made active same enabled deadline
        lives =
      record {
        decision = e;
        evaluated = made;
        commands = refl;
        kind = refl;
        confirmation = refl;
        character = refl;
        room = refl;
        created = refl;
        fresh = (refl, refl);
        enabled = enabled;
        active = active;
        expected = λ g' h. ground (arith, eq_iff g' g);
        status = refl;
        lives = ground arith;
        in_time = λ t h. ground arith;
        controlled = controlled_by now _ proposal b deadline;
        uncontrolled = λ h. ground arith;
      }

  -- The outcome of a successful `submit`: the new action is in the dict, and it is what is returned.
  abbrev pub IsAccepted : String → ℕ → Proposal → Broker → Result PublicAction × Broker → Type 0
  IsAccepted token now proposal b out =
      (a : Action) × (find token out.1.actions ≡ some a)
      × (out.0 ≡ ok (public a (Instruction.status a.status)))
      × IsProposed now proposal b a

  added-IsAccepted :
      (now : ℕ) (proposal : Proposal) (b : Broker) (a : Action)
      → IsProposed now proposal b a
      → IsAccepted a.action_id now proposal b (add_action a b)
  unfolding ◌>>=◌
  added-IsAccepted now proposal b a h = (a, find-store_self a b.actions, refl, h)

  deadline-still :
      (now : ℕ) (t : Bool) (proposal : Proposal) (b : Broker)
      → (check_controller_deadline env now t proposal b).1 ≡ b
  unfolding check_controller_deadline
  deadline-still now t proposal b = ground arith

  after_deadline :
      {B : Type 0} (m : Result (Unit {0}) × Broker) (f : Exec B) (b : Broker) (x : B)
      (P : Result B × Broker → Type 0)
      → m.1 ≡ b
      → (m.0 ≡ ok tt → (f b).0 ≡ ok x → P (f b))
      → (continue m (λ _. f)).0 ≡ ok x
      → P (continue m (λ _. f))
  after_deadline (ok tt, c) f b x P e k h = rw e (k refl (ap (λ (d : Broker). (f d).0) (sym e) ∙ h))
  after_deadline (err y, c) f b x P e k h = cc

  sessioned :
      {B : Type 0} (o : Option String) (f : String → Exec B) (b : Broker) (x : B)
      (P : Result B × Broker → Type 0)
      → ((g : String) → o ≡ some g → (f g b).0 ≡ ok x → P (f g b))
      → (continue (require_active env o b) f).0 ≡ ok x
      → P (continue (require_active env o b) f)
  sessioned none f b x P k h = cc
  sessioned (some g) f b x P k h = k g refl h

  -- A proposal is accepted only if the policy allows it, for an enabled character with an active
  -- session, the one that it expects, if it expects one. The new action has the character and room
  -- of the proposal and the commands and kind of the policy's decision. It waits for a confirmation
  -- exactly if that decision requires one, and is queued otherwise. It
  -- lives no longer than its time to live and the deadline of the owning operation allow, and it
  -- has a controller deadline, which is in the future, exactly if it is a controlled launch.
  pub submit-IsAccepted :
      (token : String) (now : ℕ) (proposal : Proposal) (b : Broker) (p : PublicAction)
      → (submit env token now proposal b).0 ≡ ok p
      → IsAccepted token now proposal b (submit env token now proposal b)
  unfolding submit
  submit-IsAccepted token now proposal b p =
      let P = IsAccepted token now proposal b in
      lifted env (evaluate_proposal env proposal.command proposal.commands) _ b p P λ e made.
        unfold ◌>>=◌ in
        sessioned (lookup (casefold proposal.character) b.active_generations) _ b p P λ g active.
          checked env (not (is_other_generation env proposal.expected_generation g)) _ _ b p P
            λ same.
              checked env (member (casefold proposal.character) b.enabled) _ _ b p P λ enabled.
                after_deadline
                  (check_controller_deadline env now (is_single env is_controlled_launch e.commands)
                    proposal b)
                  _ b p P (deadline-still now _ proposal b)
                  λ deadline.
                    lifted env
                      (expiry env now (now + proposal.ttl_seconds * second) proposal.deadline) _ b p
                      P
                      λ expires_at lives _.
                        added-IsAccepted now proposal b
                          (new_action env token now expires_at g e proposal)
                          (new_action-IsProposed token now expires_at g e proposal b made active
                            same enabled deadline lives)
