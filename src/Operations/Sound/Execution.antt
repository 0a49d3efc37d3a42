-- ===== src/Operations/Sound/Execution.antt =====
-- Every operation ends: `_execute_operation`, with fuel that lasts to the deadline.
use lich_agent_bridge.Base.{
  Bool-cases, inl, inr, ◌≡◌, ◌<◌, refl, arith, ◌<◌, ℕ, String, Bool, true, false, Option, none,
  some,
}
use lich_agent_bridge.Operations.Types.{Status, is_terminal, failed, succeeded, timed_out}
use lich_agent_bridge.Operations.Host.{Host, Texts}
use lich_agent_bridge.Operations.Monad.{
  M, Machine, Outcome, abort, catch, demand, done, failure, get_operation, pure, unfinished, update,
  ◌>>=◌,
}
use lich_agent_bridge.Operations.Steps.{clock, raise_alert, safe_snapshot, transition}
use lich_agent_bridge.Operations.Execution.{
  attempt, after_failure, cleanup_raised, execute_operation, finish, give_up, safe_cleanup,
}
use lich_agent_bridge.Operations.Sound.{
  Advances, IsEnd, IsFine, IsOpen, Sound, Sound-bind, Sound-catch, Sound-pure, Sound-require,
  Sound-update, is_failure,
}
use lich_agent_bridge.Operations.Sound.Steps.{
  Sound-raise_alert, Sound-safe_snapshot, Sound-snapshot,
}
use lich_agent_bridge.Operations.Registry.{emit}
use lich_agent_bridge.Operations.Types.{requested, admitted, running, interrupted, may_follow}
use lich_agent_bridge.Operations.Monad.{break_off, chained, read, recovered}
use lich_agent_bridge.Operations.Steps.{or_none, progress, record_event}
use lich_agent_bridge.Watchers.Types.{Profile}
use lich_agent_bridge.Operations.Handlers.{handler_of}
use lich_agent_bridge.Operations.Sound.Handlers.{SoundHandler, Sound-handler_of}
use lich_agent_bridge.Operations.Sound.Cleanup.{Sound-safe_cleanup}

module _ {W R : Type 0} (py : Texts) (host : Host W R) (limit : ℕ) (adv : Advances host) (fuel : ℕ)
    (enough : limit < fuel) where
  may-fail :
      (u t : Status)
      → is_terminal u ≡ false
      → is_failure t ≡ true
      → (may_follow u t ≡ true) × (is_terminal t ≡ true)
  may-fail requested t h k = failing t k
    where
      failing :
          (t : Status)
          → is_failure t ≡ true
          → (may_follow requested t ≡ true) × (is_terminal t ≡ true)
      failing failed h = (refl, refl)
      failing timed_out h = (refl, refl)
      failing interrupted h = (refl, refl)
      failing _ h = cc
  may-fail admitted t h k = failing t k
    where
      failing :
          (t : Status)
          → is_failure t ≡ true
          → (may_follow admitted t ≡ true) × (is_terminal t ≡ true)
      failing failed h = (refl, refl)
      failing timed_out h = (refl, refl)
      failing interrupted h = (refl, refl)
      failing _ h = cc
  may-fail running t h k = failing t k
    where
      failing :
          (t : Status)
          → is_failure t ≡ true
          → (may_follow running t ≡ true) × (is_terminal t ≡ true)
      failing failed h = (refl, refl)
      failing timed_out h = (refl, refl)
      failing interrupted h = (refl, refl)
      failing _ h = cc
  may-fail _ t h k = cc

  -- The operation has ended.
  pub record IsOver (r : Outcome (Unit {0}) × Machine W) : Type 0 where
    pub returned : r.0 ≡ done tt
    pub ended : is_terminal r.1.operation.status ≡ true

  finish-IsOver :
      (t : Status) (d : String) (s : Machine W)
      → IsOpen host limit s
      → is_failure t ≡ true
      → IsOver (finish py host t d s)
  unfolding finish clock update transition get_operation record_event emit ◌>>=◌
  finish-IsOver t d s o h =
      let (may, ends) = may-fail s.operation.status t o.status h in
      rw may (record { returned = refl; ended = ends })

  -- A step that ends the operation, or leaves it open where it fails.
  abbrev Tried : Outcome (Unit {0}) × Machine W → Type 0
  Tried (done a, s) = is_terminal s.operation.status ≡ true
  Tried (x, s) = IsEnd x × IsOpen host limit s

  finish-Tried :
      (d : String) (s : Machine W) → IsOpen host limit s → Tried (finish py host succeeded d s)
  unfolding finish clock update transition get_operation record_event emit break_off ◌>>=◌
  finish-Tried d s o = elim (Bool-cases (may_follow s.operation.status succeeded)) [
    | inl e ↦ rw e refl
    | inr e ↦ rw e (tt, record { status = o.status; deadline = o.deadline })
  ]

  chained-Tried :
      {A : Type 0} (s : Machine W) (r : Outcome A × Machine W) (f : A → M W (Unit {0}))
      → IsFine host limit s r
      → ((a : A) (t : Machine W) → IsOpen host limit t → Tried (f a t))
      → Tried (chained r f)
  chained-Tried s (done a, t) f h g = g a t h.still
  chained-Tried s (abort u d, t) f h g = (h.ends, h.still)
  chained-Tried s (failure x, t) f h g = (tt, h.still)
  chained-Tried s (unfinished, t) f h g = absurd h.ends

  attempt-Tried :
      (handler : Option (M W String)) (s : Machine W)
      → SoundHandler py host limit adv fuel enough handler
      → IsOpen host limit s
      → Tried (attempt py host handler s)
  unfolding attempt demand get_operation ◌>>=◌
  attempt-Tried none s h o = (refl, o)
  attempt-Tried (some m) s h o =
      chained-Tried s _ _ ((Sound-require host limit _ _).from s o) (λ _ t p.
        chained-Tried t _ _ (h.from t p) (λ e u q.
          chained-Tried u _ _ ((Sound-update host limit _ (λ x y. y) (λ x. refl)).from u q)
            (λ _ v k. finish-Tried e v k)))

  Sound-cleanup_raised :
      (x : Outcome (Unit {0})) → IsEnd x → Sound host limit (cleanup_raised py host x)
  unfolding cleanup_raised pure
  Sound-cleanup_raised (done a) h = Sound-pure host limit tt
  Sound-cleanup_raised (abort t d) h = Sound-raise_alert py host limit adv _
  Sound-cleanup_raised (failure x) h = Sound-raise_alert py host limit adv _
  Sound-cleanup_raised unfinished h = absurd h

  abbrev IsDone : {A : Type 0} → Outcome A × Machine W → Type 0
  IsDone (done a, s) = Unit
  IsDone (x, s) = ⊥

  raise_alert-IsDone : (d : String) (s : Machine W) → IsDone (raise_alert py host d s)
  unfolding raise_alert progress record_event read update get_operation ◌>>=◌
  raise_alert-IsDone d s = tt

  cleaned-IsDone :
      (s : Machine W) (r : Outcome (Unit {0}) × Machine W)
      → IsFine host limit s r
      → IsDone (recovered r (cleanup_raised py host))
  unfolding cleanup_raised
  cleaned-IsDone s (done a, t) h = tt
  cleaned-IsDone s (abort u d, t) h = raise_alert-IsDone _ t
  cleaned-IsDone s (failure x, t) h = raise_alert-IsDone _ t
  cleaned-IsDone s (unfinished, t) h = absurd h.ends

  seen-IsDone :
      {A : Type 0} (s : Machine W) (r : Outcome (Option A) × Machine W)
      → IsFine host limit s r
      → IsDone (recovered r (or_none py host))
  seen-IsDone s (done a, t) h = tt
  seen-IsDone s (abort u d, t) h = tt
  seen-IsDone s (failure x, t) h = tt
  seen-IsDone s (unfinished, t) h = absurd h.ends

  chained-IsOver :
      {A : Type 0} (s : Machine W) (r : Outcome A × Machine W) (f : A → M W (Unit {0}))
      → IsFine host limit s r
      → IsDone r
      → ((a : A) (t : Machine W) → IsOpen host limit t → IsOver (f a t))
      → IsOver (chained r f)
  chained-IsOver s (done a, t) f h d g = g a t h.still
  chained-IsOver s (abort u e, t) f h d g = absurd d
  chained-IsOver s (failure x, t) f h d g = absurd d
  chained-IsOver s (unfinished, t) f h d g = absurd d

  Sound-cleanup :
      (a : Bool) → Sound host limit (catch (safe_cleanup py host fuel a) (cleanup_raised py host))
  Sound-cleanup a =
      Sound-catch _ _ _ _ (Sound-safe_cleanup py host limit adv fuel enough a) Sound-cleanup_raised

  give_up-IsOver :
      (t : Status) (d : String) (s : Machine W)
      → IsOpen host limit s
      → is_failure t ≡ true
      → IsOver (give_up py host fuel t d s)
  unfolding give_up catch safe_snapshot update ◌>>=◌
  give_up-IsOver t d s o h =
      chained-IsOver s _ _ ((Sound-cleanup _).from s o)
        (cleaned-IsDone s _ ((Sound-safe_cleanup py host limit adv fuel enough _).from s o))
        (λ _ u p.
          chained-IsOver u _ _ ((Sound-safe_snapshot py host limit adv).from u p)
            (seen-IsDone u _ (
              (Sound-bind _ _ _ _ (Sound-snapshot py host limit adv)
                  (λ x. Sound-pure _ _ (some x))).from
                u p))
            (λ e v q.
              chained-IsOver v _ _
                ((Sound-update host limit (λ x. record x { end_state = e; explanation = d })
                    (λ x y. y) (λ x. refl)).from
                  v q)
                tt (λ _ z k. finish-IsOver t d z k h)))

  after_failure-IsOver :
      (r : Outcome (Unit {0}) × Machine W)
      → Tried r
      → IsOver (recovered r (after_failure py host fuel))
  unfolding after_failure
  after_failure-IsOver (done a, s) h = record { returned = refl; ended = h }
  after_failure-IsOver (abort t d, s) h = give_up-IsOver t d s h.1 h.0
  after_failure-IsOver (failure x, s) h = give_up-IsOver failed _ s h.1 refl
  after_failure-IsOver (unfinished, s) h = absurd h.0

  execute_operation-IsOver :
      (profile : Option Profile) (s : Machine W)
      → IsOpen host limit s
      → IsOver (
          execute_operation py host fuel (handler_of py host fuel profile s.operation.capability) s)
  unfolding execute_operation catch
  execute_operation-IsOver profile s o = after_failure-IsOver _ (
      attempt-Tried _ s
        (Sound-handler_of py host limit adv fuel enough profile s.operation.capability) o)

-- Every operation of `item.audit`, `hunt.prepare`, `room.loot`, `session.command` or an unknown
-- capability ends: if the clock never goes back and each sleep moves it on, then with fuel past
-- the deadline an operation that has not ended is executed to a terminal status, whatever the
-- adapters return or raise.
pub execute_operation-ends :
    {W R : Type 0} (py : Texts) (host : Host W R) (fuel : ℕ) (profile : Option Profile)
    (s : Machine W)
    → Advances host
    → is_terminal s.operation.status ≡ false
    → s.operation.deadline < fuel
    → (let r =
          execute_operation py host fuel
            (handler_of py host fuel profile s.operation.capability)
            s in
        (r.0 ≡ done tt) × (is_terminal r.1.operation.status ≡ true))
execute_operation-ends py host fuel profile s adv h enough =
    let k =
      execute_operation-IsOver py host s.operation.deadline adv fuel enough profile s
        (record { status = h; deadline = omega arith }) in
    (k.returned, k.ended)
