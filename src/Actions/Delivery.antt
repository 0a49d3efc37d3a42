-- ===== src/Actions/Delivery.antt =====
-- What `poll` hands to the bridge: never an action that may not run, and always one that may.
use lich_agent_bridge.Base.{
  ℕ, ◌<◌, Bool, true, false, ◌≡◌, refl, Option, none, some, List, [], ◌∷◌, map, ◌⊎◌, arith, eq_iff,
  Option-cases, inl, inr, ap, ◌∙◌, sym,
}
use lich_agent_bridge.Base.Dict.{lookup, member}
use lich_agent_bridge.Actions.Types.{
  Action, Broker, Context, Env, Event, Instruction, PublicAction, Status, denied_stale_room,
  dispatched, ok, queued,
}
use lich_agent_bridge.Actions.Exec.{Exec, ◌>>=◌, ◌>>◌}
use lich_agent_bridge.Actions.Fields.{public}
use lich_agent_bridge.Actions.Loop.{walk}
use lich_agent_bridge.Actions.Session.{
  enabled-expire, require-IsActive-ok, require_active-run, sessions-expire,
}
use lich_agent_bridge.Actions.Broker.{
  deliver, deliver_first, expire_action, expire_locked, is_stale_room, poll,
  require_active_generation_locked, same_name,
}

-- One of the list has the property.
abbrev pub Any : (Action → Type 0) → List Action → Type 0
Any P [] = ⊥
Any P (x ∷ l) = P x ⊎ Any P l

Any-map :
    (P Q : Action → Type 0) → ((x : Action) → P x → Q x) → (l : List Action) → Any P l → Any Q l
Any-map P Q f [] h = h
Any-map P Q f (x ∷ l) (inl h) = inl (f x h)
Any-map P Q f (x ∷ l) (inr h) = inr (Any-map P Q f l h)

module _ {R : Type 0} (f : Action → Action × List Event × Option R) where
  -- Past an action for which the body does not return, the loop goes on with the rest.
  walk-past :
      (x : Action) (l : List Action)
      → (f x).2 ≡ none
      → ((walk f (x ∷ l)).0 ≡ (f x).0 ∷ (walk f l).0) × ((walk f (x ∷ l)).2 ≡ (walk f l).2)
  unfolding walk
  walk-past x l h = ground arith

  -- Where the body returns, the loop stops, and the rest stays.
  walk-stop :
      (x : Action) (l : List Action) (r : R)
      → (f x).2 ≡ some r
      → ((walk f (x ∷ l)).0 ≡ (f x).0 ∷ l) × ((walk f (x ∷ l)).2 ≡ some r)
  unfolding walk
  walk-stop x l r h = ground arith

  -- If the body returns for one of the actions, the loop returns.
  walk-some :
      (l : List Action)
      → Any (λ x. (r : R) × ((f x).2 ≡ some r)) l
      → (r : R) × ((walk f l).2 ≡ some r)
  unfolding walk
  walk-some [] h = absurd h
  walk-some (x ∷ l) (inl (r, e)) = (r, ground arith)
  walk-some (x ∷ l) (inr h) = elim (Option-cases (f x).2) [
    | inl e ↦ let (r, p) = walk-some l h in (r, ground arith)
    | inr (s, e) ↦ (s, ground arith)
  ]

  -- A loop that never returns early changes every action.
  pub walk-map :
      (l : List Action) → ((x : Action) → (f x).2 ≡ none) → (walk f l).0 ≡ map (λ x. (f x).0) l
  unfolding walk
  walk-map [] quiet = refl
  walk-map (x ∷ l) quiet = ground (arith, quiet x, walk-map l quiet)

Any-to_map :
    (P : Action → Type 0) (g : Action → Action) (l : List Action)
    → Any (λ x. P (g x)) l
    → Any P (map g l)
Any-to_map P g [] h = h
Any-to_map P g (x ∷ l) (inl h) = inl h
Any-to_map P g (x ∷ l) (inr h) = inr (Any-to_map P g l h)

module _ (env : Env) where
  -- The action after the expiry at `now`.
  abbrev pub aged : ℕ → Action → Action
  aged now x = (expire_action env now x).0

  pub actions-expire :
      (now : ℕ) (b : Broker) → (expire_locked env now b).1.actions ≡ map (aged now) b.actions
  unfolding expire_locked ◌>>=◌
  actions-expire now b = walk-map (expire_action env now) b.actions (λ x. ground arith)

  -- Queued, not expired at `now`, of this character and session, and not bound to another room.
  pub record MayRun (now : ℕ) (context : Context) (a : Action) : Type 0 where
    pub status : a.status ≡ queued
    pub unexpired : now < a.expires_at
    pub owner : same_name env a.character context.character ≡ true
    pub session : a.generation ≡ context.generation
    pub room : is_stale_room a.expected_room_id context.room_id ≡ false

  -- Not expired at `now`, of this character and session, and its owner was not asked yet.
  pub record MayAsk (now : ℕ) (context : Context) (a : Action) : Type 0 where
    pub status : a.status ≡ Status.confirmation_required
    pub unexpired : now < a.expires_at
    pub owner : same_name env a.character context.character ≡ true
    pub session : a.generation ≡ context.generation
    pub first : a.notified ≡ false

  -- `p` is what the bridge gets for the action `a`, which becomes `a'`.
  abbrev pub Offers : ℕ → Context → PublicAction → Action → Action → Type 0
  Offers now context p a a' =
      (MayRun now context a
        × (a' ≡ record a { status = dispatched })
        × (p ≡ public a' Instruction.execute))
      ⊎ (MayAsk now context a
          × (a' ≡ record a { notified = true })
          × (p ≡ public a' (Instruction.status Status.confirmation_required)))

  -- What a poll leaves of an action that it passes over: it ages, and is denied if it is queued for
  -- another room.
  abbrev pub IsPassed : ℕ → Context → Action → Action → Type 0
  IsPassed now context a a' =
      (a' ≡ aged now a)
      ⊎ ((a.status ≡ queued)
          × (is_stale_room a.expected_room_id context.room_id ≡ true)
          × (a' ≡ record a { status = denied_stale_room }))

  -- The dict before and after a poll that returns `p`: the first action that can be handed out is,
  -- those before it are passed over, and those after it only age.
  abbrev pub HandsOut : ℕ → Context → PublicAction → List Action → List Action → Type 0
  HandsOut now context p (a ∷ l) (a' ∷ m) =
      (Offers now context p a a' × (m ≡ map (aged now) l))
      ⊎ (IsPassed now context a a' × HandsOut now context p l m)
  HandsOut now context p _ _ = ⊥

  deliver-Offers :
      (now : ℕ) (context : Context) (p : PublicAction) (x : Action)
      → (deliver env context (aged now x)).2 ≡ some p
      → Offers now context p x (deliver env context (aged now x)).0
  deliver-Offers now context p x h = ground (arith, eq_iff x.generation context.generation)

  deliver-IsPassed :
      (now : ℕ) (context : Context) (x : Action)
      → (deliver env context (aged now x)).2 ≡ none
      → IsPassed now context x (deliver env context (aged now x)).0
  deliver-IsPassed now context x h = ground arith

  walk-HandsOut :
      (now : ℕ) (context : Context) (p : PublicAction) (l : List Action)
      → (walk (deliver env context) (map (aged now) l)).2 ≡ some p
      → HandsOut now context p l (walk (deliver env context) (map (aged now) l)).0
  unfolding walk
  walk-HandsOut now context p [] h = cc
  walk-HandsOut now context p (x ∷ l) h = elim (Option-cases (deliver env context (aged now x)).2) [
    | inl e ↦
        let (after, goes) = walk-past (deliver env context) (aged now x) (map (aged now) l) e in
        let rest = walk-HandsOut now context p l (sym goes ∙ h) in
        rw after (inr (deliver-IsPassed now context x e, rest))
    | inr (q, e) ↦
        let (after, stops) = walk-stop (deliver env context) (aged now x) (map (aged now) l) q e in
        rw after (inl (deliver-Offers now context p x (e ∙ sym stops ∙ h), refl))
  ]

  deliver_runnable :
      (now : ℕ) (context : Context) (x : Action)
      → MayRun now context x
      → (p : PublicAction) × ((deliver env context (aged now x)).2 ≡ some p)
  deliver_runnable now context x h = (
    public (record x { status = dispatched }) Instruction.execute,
    ground (arith, eq_iff x.generation context.generation),
  )

  -- The bridge of this character and session, with the actions of the character enabled.
  pub record IsServed (context : Context) (b : Broker) : Type 0 where
    pub enabled : member (env.casefold context.character) b.enabled ≡ true
    pub active :
        lookup (env.casefold context.character) b.active_generations ≡ some context.generation

  delivered :
      (t : Bool) (context : Context) (b : Broker) (p : PublicAction)
      → (deliver_first env t context b).0 ≡ ok (some p)
      → (t ≡ true)
        × ((walk (deliver env context) b.actions).2 ≡ some p)
        × ((deliver_first env t context b).1.actions ≡ (walk (deliver env context) b.actions).0)
  unfolding deliver_first
  delivered false context b p h = cc
  delivered true context b p h = (refl, cc, refl)

  -- What `poll` does behind the session check.
  abbrev hand_out : Context → Exec (Option PublicAction)
  hand_out context b =
      deliver_first env (member (env.casefold context.character) b.enabled) context b

  poll_parts :
      (now : ℕ) (context : Context) (b : Broker)
      → poll env now context b
        ≡ (require_active_generation_locked env context.character context.generation
              >> hand_out context)
            (expire_locked env now b).1
  unfolding poll expire_locked ◌>>=◌
  poll_parts now context b = refl

  pub poll_safe :
      (now : ℕ) (context : Context) (b : Broker) (p : PublicAction)
      → (poll env now context b).0 ≡ ok (some p)
      → IsServed context b × HandsOut now context p b.actions (poll env now context b).1.actions
  poll_safe now context b p h =
      let c : Broker = (expire_locked env now b).1 in
      let (active, rest) =
        require-IsActive-ok env context.character context.generation (hand_out context) c (some p)
          (rw poll_parts at h) in
      let (enabled, found, after) =
        delivered (member (env.casefold context.character) c.enabled) context c p rest in
      let run : poll env now context b ≡ hand_out context c =
        poll_parts now context b
        ∙ require_active-run env context.character context.generation (hand_out context) c active in
      (
        record {
          enabled = rw (enabled-expire env now b) at enabled;
          active = rw (sessions-expire env now b) at active;
        },
        rw run (
            rw after (
              rw (actions-expire now b)
                (walk-HandsOut now context p b.actions (rw (actions-expire now b) at found)))),
      )

  delivers :
      (t : Bool) (context : Context) (b : Broker)
      → t ≡ true
      → (r : PublicAction) × ((walk (deliver env context) b.actions).2 ≡ some r)
      → (p : PublicAction) × ((deliver_first env t context b).0 ≡ ok (some p))
  unfolding deliver_first
  delivers true context b e (r, h) = (r, ap ok h)
  delivers false context b e h = cc

  -- While one action may run, `poll` of its enabled, active session returns an instruction or a
  -- confirmation request: it does not come back empty, and does not raise.
  pub poll_progress :
      (now : ℕ) (context : Context) (b : Broker)
      → IsServed context b
      → Any (MayRun now context) b.actions
      → (p : PublicAction) × ((poll env now context b).0 ≡ ok (some p))
  poll_progress now context b served runnable =
      let c : Broker = (expire_locked env now b).1 in
      let offered : Any (λ x. (r : PublicAction) × ((deliver env context x).2 ≡ some r)) c.actions =
        rw (actions-expire now b) (
          Any-to_map _ (aged now) b.actions
            (Any-map _ _ (deliver_runnable now context) b.actions runnable)) in
      let (p, e) =
        delivers (member (env.casefold context.character) c.enabled) context c
          (rw (enabled-expire env now b) served.enabled)
          (walk-some (deliver env context) c.actions offered) in
      (
        p,
        rw poll_parts (
            rw
              (require_active-run env context.character context.generation (hand_out context) c
                (rw (sessions-expire env now b) served.active))
              e),
      )
