-- ===== src/Actions/Verdicts.antt =====
-- `approve` and `record_result`: when they succeed, and what they leave.
use lich_agent_bridge.Base.{
  ℕ, String, Bool, true, false, ◌≡◌, ◌≢◌, ◌⊎◌, refl, subst, Option, none, some, List, arith,
  if◌then◌else◌, str_eq, eq_iff, inl, inr, ap, ◌∙◌, sym,
}
use lich_agent_bridge.Actions.Types.{
  Action, Approval, Broker, Env, Error, Outcome, Completion, PublicAction, Report, Result, Status,
  Instruction, queued, ok, err, room_changed, is_awaiting, is_dispatched, denied_stale_room,
  other_character, other_generation, not_awaiting_confirmation, not_dispatched,
}
use lich_agent_bridge.Actions.Exec.{Exec, continue, ◌>>=◌, ◌>>◌, check}
use lich_agent_bridge.Actions.Fields.{public}
use lich_agent_bridge.Actions.Loop.{find, store}
use lich_agent_bridge.Actions.Broker.{
  expire_locked, find_locked, found, is_stale_room, require_active_generation_locked, same_name,
}
use lich_agent_bridge.Actions.Owned.{approve, confirm, record_result, settle, settle_checked}
use lich_agent_bridge.Actions.Ledger.{find-store}
use lich_agent_bridge.Actions.Rules.{find_id}
use lich_agent_bridge.Actions.Reach.{Reach, action_moves_on}
use lich_agent_bridge.Actions.Session.{IsActive, check-ok, require-IsActive-ok, require_active-run}

module _ (env : Env) where
  found-ok :
      {A : Type 0} (o : Option Action) (f : Action → Exec A) (b : Broker) (r : A)
      → (continue (found env o b) f).0 ≡ ok r
      → (x : Action) × (o ≡ some x) × ((f x b).0 ≡ ok r) × (continue (found env o b) f ≡ f x b)
  found-ok none f b r h = cc
  found-ok (some x) f b r h = (x, refl, h, refl)

  find_locked-ok :
      {A : Type 0} (i : String) (f : Action → Exec A) (b : Broker) (r : A)
      → ((find_locked env i >>= f) b).0 ≡ ok r
      → (x : Action) × (find i b.actions ≡ some x)
        × ((f x b).0 ≡ ok r)
        × ((find_locked env i >>= f) b ≡ f x b)
  unfolding find_locked ◌>>=◌
  find_locked-ok i f b r h = found-ok (find i b.actions) f b r h

  find_locked-run :
      {A : Type 0} (i : String) (f : Action → Exec A) (b : Broker) (x : Action)
      → find i b.actions ≡ some x
      → (find_locked env i >>= f) b ≡ f x b
  unfolding find_locked ◌>>=◌
  find_locked-run i f b x h = rw h

  check-run :
      {A : Type 0} (t : Bool) (e : Error) (k : Exec A) (b : Broker)
      → t ≡ true
      → (check t e >> k) b ≡ k b
  unfolding ◌>>=◌
  check-run true e k b h = refl
  check-run false e k b h = cc

  -- What `record_result` does with the action that it found.
  abbrev settle_found : Report → Action → Exec Action
  settle_found report a = do
    check (same_name env a.character report.character) other_character
    require_active_generation_locked env report.character report.generation
    check (str_eq a.generation report.generation) other_generation
    check (is_dispatched a.status) not_dispatched
    settle_checked env report a

  record_result-parts :
      (report : Report)
      → record_result env report ≡ (find_locked env report.action_id >>= settle_found report)
  unfolding record_result
  record_result-parts report = refl

  -- The verdict on an action stands: it is completed or failed.
  abbrev pub IsSettled : Action → Type 0
  IsSettled a = (a.status ≡ Status.completed) ⊎ (a.status ≡ Status.failed)

  -- What a report writes on the action: a failure fails it, and any other outcome completes it,
  -- with the completion that belongs to the outcome. Nothing else of the action changes.
  pub record IsRecorded (report : Report) (x r : Action) : Type 0 where
    pub failure :
        report.outcome ≡ Outcome.failed
        → r ≡ record x {
          status = Status.failed;
          completion = some Completion.has_failed;
          detail = some report.detail;
        }
    pub success :
        report.outcome ≡ Outcome.succeeded
        → r ≡ record x {
          status = Status.completed;
          completion = some Completion.has_succeeded;
          detail = some report.detail;
        }
    pub unverified :
        report.outcome ≢ Outcome.failed
        → report.outcome ≢ Outcome.succeeded
        → r ≡ record x {
          status = Status.completed;
          completion = some Completion.sent_unverified;
          detail = some report.detail;
        }

  settle-IsRecorded :
      (outcome : Outcome) (report : Report) (x : Action)
      → report.outcome ≡ outcome
      → IsRecorded report x (settle env outcome (record x { detail = some report.detail }))
  settle-IsRecorded Outcome.failed report x e = record {
    failure = λ h. refl;
    success = λ h. cc;
    unverified = λ h k. absurd (h e);
  }
  settle-IsRecorded Outcome.succeeded report x e = record {
    failure = λ h. cc;
    success = λ h. refl;
    unverified = λ h k. absurd (k e);
  }
  settle-IsRecorded Outcome.sent_unverified report x e = record {
    failure = λ h. cc;
    success = λ h. cc;
    unverified = λ h k. refl;
  }
  settle-IsRecorded Outcome.completed report x e = record {
    failure = λ h. cc;
    success = λ h. cc;
    unverified = λ h k. refl;
  }

  settle_kept : (outcome : Outcome) (x : Action) → (settle env outcome x).action_id ≡ x.action_id
  settle_kept outcome x = ground arith

  settle-IsSettled : (outcome : Outcome) (x : Action) → IsSettled (settle env outcome x)
  settle-IsSettled Outcome.failed x = inr refl
  settle-IsSettled Outcome.succeeded x = inl refl
  settle-IsSettled _ x = inl refl

  settle_checked_ok :
      (report : Report) (x r : Action) (b : Broker)
      → find x.action_id b.actions ≡ some x
      → (settle_checked env report x b).0 ≡ ok r
      → (find x.action_id (settle_checked env report x b).1.actions ≡ some r)
        × IsSettled r
        × IsRecorded report x r
  unfolding settle_checked ◌>>=◌
  settle_checked_ok report x r b h e =
      let settled = settle env report.outcome (record x { detail = some report.detail }) in
      let same : settled ≡ r = cc in
      (
        find-store x.action_id settled x b.actions
              (settle_kept report.outcome (record x { detail = some report.detail })) h
            ∙ rw ((eq_iff x.action_id x.action_id).1 refl) (ap some same),
        subst IsSettled same (settle-IsSettled report.outcome _),
        subst (IsRecorded report x) same (settle-IsRecorded report.outcome report x refl),
      )

  settle_found-ok :
      (report : Report) (x r : Action) (b : Broker)
      → find x.action_id b.actions ≡ some x
      → (settle_found report x b).0 ≡ ok r
      → (is_dispatched x.status ≡ true)
        × (find x.action_id (settle_found report x b).1.actions ≡ some r)
        × IsSettled r
        × IsRecorded report x r
  settle_found-ok report x r b found h =
      let (own, h1) = check-ok env (same_name env x.character report.character) _ _ b r h in
      let (active, h2) = require-IsActive-ok env report.character report.generation _ b r h1 in
      let (session, h3) = check-ok env (str_eq x.generation report.generation) _ _ b r h2 in
      let (sent, h4) = check-ok env (is_dispatched x.status) _ _ b r h3 in
      let (kept, settled, recorded) = settle_checked_ok report x r b found h4 in
      let run : settle_found report x b ≡ settle_checked env report x b =
        check-run (same_name env x.character report.character) _ _ b own
        ∙ require_active-run env report.character report.generation _ b active
        ∙ check-run (str_eq x.generation report.generation) _ _ b session
        ∙ check-run (is_dispatched x.status) _ _ b sent in
      (sent, rw run kept, settled, recorded)

  -- A recorded result was for a dispatched action, and settles it.
  record_result-settles :
      (report : Report) (b : Broker) (r : Action)
      → (record_result env report b).0 ≡ ok r
      → (x : Action) × (find report.action_id b.actions ≡ some x)
        × (is_dispatched x.status ≡ true)
        × (find report.action_id (record_result env report b).1.actions ≡ some r)
        × IsSettled r
        × IsRecorded report x r
  record_result-settles report b r h =
      let (x, found, e, run) =
        find_locked-ok report.action_id (settle_found report) b r (rw record_result-parts at h) in
      let named : x.action_id ≡ report.action_id = find_id report.action_id b.actions x found in
      let (sent, kept, settled, recorded) =
        settle_found-ok report x r b (ap (λ (i : String). find i b.actions) named ∙ found) e in
      (
        x,
        found,
        sent,
        rw record_result-parts (
            rw run (
              subst (λ (i : String). find i (settle_found report x b).1.actions ≡ some r) named
                kept)),
        settled,
        recorded,
      )

  -- A result is recorded for a dispatched action only, and once. When `record_result` has succeeded,
  -- the action had been dispatched, and what is stored and returned is that action with the detail
  -- of the report, failed for the outcome failed and completed for any other, with the completion of
  -- that outcome; and no later call for it succeeds, whatever was called in between.
  pub result-IsRecorded_once :
      (report : Report) (b : Broker) (r : Action)
      → (record_result env report b).0 ≡ ok r
      → ((x : Action) × (find report.action_id b.actions ≡ some x)
          × (x.status ≡ Status.dispatched)
          × (find report.action_id (record_result env report b).1.actions ≡ some r)
          × IsRecorded report x r)
        × ((again : Report) (d : Broker) (s : Action)
            → Reach env (record_result env report b).1 d
            → again.action_id ≡ report.action_id
            → (record_result env again d).0 ≢ ok s)
  result-IsRecorded_once report b r h =
      let (x, there, sent, kept, settled, recorded) = record_result-settles report b r h in
      (
        (x, there, ground (arith, sent), kept, recorded),
        λ again d s past same h'.
            let (y, found, _, later) = action_moves_on env report.action_id r past kept in
            let (z, found', sent', _, _, _) = record_result-settles again d s h' in
            let one : y ≡ z = cc (found, found', same) in
            ground (arith, later.status, settled, sent', ap (λ (a : Action). a.status) one),
      )

  -- What `approve` does with the action that it found.
  abbrev decide_found : Approval → Action → Exec PublicAction
  decide_found approval a = do
    check (same_name env a.character approval.character) other_character
    require_active_generation_locked env approval.character approval.generation
    check (str_eq a.generation approval.generation) other_generation
    check (is_awaiting a.status) not_awaiting_confirmation
    confirm env approval a (is_stale_room a.expected_room_id approval.room_id)

  approve-parts :
      (now : ℕ) (approval : Approval) (b : Broker)
      → approve env now approval b
        ≡ (find_locked env approval.action_id >>= decide_found approval) (expire_locked env now b).1
  unfolding approve expire_locked ◌>>=◌
  approve-parts now approval b = refl

  -- The approval is for this action: its owner, its active session, and it awaits confirmation.
  pub record MayDecide (approval : Approval) (b : Broker) (a : Action) : Type 0 where
    pub owner : same_name env a.character approval.character ≡ true
    pub active : IsActive env approval.character approval.generation b
    pub session : a.generation ≡ approval.generation
    pub awaiting : a.status ≡ Status.confirmation_required

  -- The action as an approval leaves it, by whether it comes from another room.
  abbrev pub decided : Bool → Approval → Action → Action
  decided stale approval a =
      if stale
      then record a { status = denied_stale_room }
      else record a { expected_room_id = some approval.room_id; status = queued }

  -- What `approve` answers for it.
  abbrev pub verdict : Bool → Approval → Action → Result PublicAction
  verdict stale approval a =
      if stale
      then err room_changed
      else ok (public (decided false approval a) (Instruction.status queued))

  store_found :
      (a x : Action) (l : List Action)
      → a.action_id ≡ x.action_id
      → find x.action_id l ≡ some x
      → find x.action_id (store a l) ≡ some a
  store_found a x l e found =
      find-store x.action_id a x l e found ∙ rw ((eq_iff x.action_id x.action_id).1 refl)

  confirm_leaves :
      (stale : Bool) (approval : Approval) (x : Action) (b : Broker)
      → find x.action_id b.actions ≡ some x
      → ((confirm env approval x stale b).0 ≡ verdict stale approval x)
        × (find x.action_id (confirm env approval x stale b).1.actions
            ≡ some (decided stale approval x))
  unfolding confirm ◌>>=◌
  confirm_leaves true approval x b found = (refl, store_found _ x b.actions refl found)
  confirm_leaves false approval x b found = (refl, store_found _ x b.actions refl found)

  decide_run :
      (approval : Approval) (x : Action) (b : Broker)
      → MayDecide approval b x
      → decide_found approval x b
        ≡ confirm env approval x (is_stale_room x.expected_room_id approval.room_id) b
  decide_run approval x b may =
      check-run (same_name env x.character approval.character) _ _ b may.owner
      ∙ require_active-run env approval.character approval.generation _ b may.active
      ∙ check-run (str_eq x.generation approval.generation) _ _ b
          ((eq_iff x.generation approval.generation).1 may.session)
      ∙ check-run (is_awaiting x.status) _ _ b (ap is_awaiting may.awaiting)

  -- An approval of the right owner and session decides an action that still awaits confirmation
  -- after the expiry: from the room that the action is bound to, or for an action bound to none, it
  -- queues the action for that room; from any other room it raises, and the action is denied.
  pub approve_decides :
      (now : ℕ) (approval : Approval) (b : Broker) (a : Action)
      → find approval.action_id (expire_locked env now b).1.actions ≡ some a
      → MayDecide approval (expire_locked env now b).1 a
      → ((approve env now approval b).0
          ≡ verdict (is_stale_room a.expected_room_id approval.room_id) approval a)
        × (find approval.action_id (approve env now approval b).1.actions
            ≡ some (decided (is_stale_room a.expected_room_id approval.room_id) approval a))
  approve_decides now approval b a found may =
      let c : Broker = (expire_locked env now b).1 in
      let named : a.action_id ≡ approval.action_id = find_id approval.action_id c.actions a found in
      let stale = is_stale_room a.expected_room_id approval.room_id in
      let run : approve env now approval b ≡ confirm env approval a stale c =
        approve-parts now approval b
        ∙ find_locked-run approval.action_id (decide_found approval) c a found
        ∙ decide_run approval a c may in
      let (answer, kept) =
        confirm_leaves stale approval a c (ap (λ (i : String). find i c.actions) named ∙ found) in
      rw run (
        answer,
        subst
            (λ (i : String).
              find i (confirm env approval a stale c).1.actions ≡ some (decided stale approval a))
            named kept,
      )

  -- A successful approval is one of those: after the expiry the action awaits confirmation, the
  -- approval names its owner and its active session, and comes from a room that it may run in.
  pub approve_requires :
      (now : ℕ) (approval : Approval) (b : Broker) (p : PublicAction)
      → (approve env now approval b).0 ≡ ok p
      → (a : Action) × (find approval.action_id (expire_locked env now b).1.actions ≡ some a)
        × MayDecide approval (expire_locked env now b).1 a
        × (is_stale_room a.expected_room_id approval.room_id ≡ false)
  approve_requires now approval b p h =
      let c : Broker = (expire_locked env now b).1 in
      let (a, found, e, _) =
        find_locked-ok approval.action_id (decide_found approval) c p (rw approve-parts at h) in
      let (own, h1) = check-ok env (same_name env a.character approval.character) _ _ c p e in
      let (active, h2) = require-IsActive-ok env approval.character approval.generation _ c p h1 in
      let (session, h3) = check-ok env (str_eq a.generation approval.generation) _ _ c p h2 in
      let (awaiting, h4) = check-ok env (is_awaiting a.status) _ _ c p h3 in
      let named : a.action_id ≡ approval.action_id = find_id approval.action_id c.actions a found in
      let (answer, _) =
        confirm_leaves (is_stale_room a.expected_room_id approval.room_id) approval a c
          (ap (λ (i : String). find i c.actions) named ∙ found) in
      (
        a,
        found,
        record {
          owner = own;
          active = active;
          session = (eq_iff a.generation approval.generation).0 session;
          awaiting = ground arith;
        },
        not_stale (is_stale_room a.expected_room_id approval.room_id) approval a p
            (sym answer ∙ h4),
      )
    where
      not_stale :
          (t : Bool) (approval : Approval) (a : Action) (p : PublicAction)
          → verdict t approval a ≡ ok p
          → t ≡ false
      not_stale true approval a p h = cc
      not_stale false approval a p h = refl
