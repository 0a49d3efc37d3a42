-- ===== src/Operations/Submissions.antt =====
-- What the steps of an operation give to the broker: one rule for each way to build a step.
pub mod Items
pub mod Cleanup
use lich_agent_bridge.Base.{
  ◌++◌, [], ◌∷◌, ℕ, zero, suc, ◌+◌, ◌-◌, ◌≤◌, ◌<◌, String, Bool, true, false, not, ◌&&◌, ◌≡◌, refl,
  Option, none, some, arith, if◌then◌else◌, leb, Bool-cases, inl, inr, List,
}
use lich_agent_bridge.Actions.Types.{Proposal}
use lich_agent_bridge.Operations.Types.{
  Binding, Operation, Session, Status, is_terminal, may_follow, admitted, running, requested,
  succeeded, timed_out, interrupted, failed,
}
use lich_agent_bridge.Operations.Registry.{emit}
use lich_agent_bridge.Operations.Host.{
  Fault, Host, Reply, Texts, validation_error, value_or_key_error, fault,
}
use lich_agent_bridge.Operations.Monad.{
  M, Machine, Outcome, abort, break_off, call, catch, catch_abort, chained, demand, done, failure,
  get_operation, give_out, log_submitted, pure, read, require, unfinished, update, ◌>>=◌, ◌>>◌,
}
use lich_agent_bridge.Operations.Steps.{
  admit_and_start, check_deadline_and_interruption, clock, denied, finished, failed_for_good,
  open_yet, on_phase, phase, or_none, progress, raise_alert, record_event, Phase, require_fresh,
  require_fresh_session, require_time, proposal_for, run_broker_step, safe_snapshot, snapshot,
  stop_if, submit_step, transition, unless_cleanup, wait_for_action,
}
use lich_agent_bridge.Operations.Monad.{outcome_of, recovered, recovered_abort}

module _ {W : Type 0} (P : List Proposal → Type 0) where
  -- The step keeps `P` of what was submitted, however it comes out.
  pub record Keeps {A : Type 0} (m : M W A) : Type 0 where
    pub kept : (s : Machine W) → P s.submitted → P (m s).1.submitted

  pub Keeps-pure : {A : Type 0} (a : A) → Keeps (pure a)
  unfolding pure
  Keeps-pure a = record { kept = λ s h. h }

  pub Keeps-give_out : {A : Type 0} (t : Status) (d : String) → Keeps (give_out {A = A} t d)
  unfolding give_out
  Keeps-give_out t d = record { kept = λ s h. h }

  pub Keeps-break_off : {A : Type 0} (x : Fault) → Keeps (break_off {A = A} x)
  unfolding break_off
  Keeps-break_off x = record { kept = λ s h. h }

  pub Keeps-require : (b : Bool) (d : String) → Keeps (require b d)
  unfolding require
  Keeps-require true d = record { kept = λ s h. h }
  Keeps-require false d = record { kept = λ s h. h }

  pub Keeps-demand : {A : Type 0} (o : Option A) (d : String) → Keeps (demand o d)
  unfolding demand
  Keeps-demand none d = record { kept = λ s h. h }
  Keeps-demand (some a) d = record { kept = λ s h. h }

  pub Keeps-get_operation : Keeps get_operation
  unfolding get_operation
  Keeps-get_operation = record { kept = λ s h. h }

  pub Keeps-update : (f : Operation → Operation) → Keeps (update f)
  unfolding update
  Keeps-update f = record { kept = λ s h. h }

  pub Keeps-call : {A : Type 0} (f : W → Reply A × W) → Keeps (call f)
  unfolding call
  Keeps-call f = record { kept = λ s h. h }

  pub Keeps-read : {A : Type 0} (f : W → A × W) → Keeps (read f)
  unfolding read
  Keeps-read f = record { kept = λ s h. h }

  pub chained-kept :
      {A B : Type 0} (r : Outcome A × Machine W) (f : A → M W B)
      → P r.1.submitted
      → ((a : A) (t : Machine W) → r ≡ (done a, t) → P t.submitted → P (f a t).1.submitted)
      → P (chained r f).1.submitted
  chained-kept (done a, t) f h g = g a t refl h
  chained-kept (abort u d, t) f h g = h
  chained-kept (failure x, t) f h g = h
  chained-kept (unfinished, t) f h g = h

  pub Keeps-bind :
      {A B : Type 0} (m : M W A) (f : A → M W B)
      → Keeps m
      → ((a : A) → Keeps (f a))
      → Keeps (m >>= f)
  unfolding ◌>>=◌
  Keeps-bind m f h g = record {
    kept = λ s p. chained-kept (m s) f (h.kept s p) (λ a t _ q. (g a).kept t q);
  }

  -- What follows may use that the test holds.
  pub Keeps-require_then :
      {A : Type 0} (b : Bool) (d : String) (f : Unit {0} → M W A)
      → (b ≡ true → Keeps (f tt))
      → Keeps (require b d >>= f)
  unfolding ◌>>=◌ require
  Keeps-require_then true d f h = record { kept = λ s p. (h refl).kept s p }
  Keeps-require_then false d f h = record { kept = λ s p. p }

  pub Keeps-if :
      {A : Type 0} (b : Bool) (m n : M W A) → Keeps m → Keeps n → Keeps (if b then m else n)
  Keeps-if true m n h k = h
  Keeps-if false m n h k = k

  pub Keeps-catch :
      {A : Type 0} (m : M W A) (f : Outcome A → M W A)
      → Keeps m
      → ((x : Outcome A) → Keeps (f x))
      → Keeps (catch m f)
  unfolding catch
  Keeps-catch {A = A} m f h g = record { kept = λ s p. caught (m s) (h.kept s p) }
    where
      caught : (r : Outcome A × Machine W) → P r.1.submitted → P (recovered r f).1.submitted
      caught (done a, t) q = q
      caught (abort u d, t) q = (g (abort u d)).kept t q
      caught (failure x, t) q = (g (failure x)).kept t q
      caught (unfinished, t) q = q

  pub Keeps-catch_abort :
      {A : Type 0} (m : M W A) (f : Status → String → M W A)
      → Keeps m
      → ((t : Status) (d : String) → Keeps (f t d))
      → Keeps (catch_abort m f)
  unfolding catch_abort
  Keeps-catch_abort {A = A} m f h g = record { kept = λ s p. caught (m s) (h.kept s p) }
    where
      caught : (r : Outcome A × Machine W) → P r.1.submitted → P (recovered_abort r f).1.submitted
      caught (done a, t) q = q
      caught (abort u d, t) q = (g u d).kept t q
      caught (failure x, t) q = q
      caught (unfinished, t) q = q

pub ruleset keeps_rules = (
  Keeps-pure, Keeps-give_out, Keeps-break_off, Keeps-require, Keeps-demand, Keeps-get_operation,
  Keeps-update, Keeps-call, Keeps-read, Keeps-bind, Keeps-if, Keeps-catch, Keeps-catch_abort,
)

module _ {W R : Type 0} (P : List Proposal → Type 0) (py : Texts) (host : Host W R) where
  pub Keeps-record_event : (t : Status) (d : String) → Keeps P (record_event py host t d)
  unfolding record_event
  Keeps-record_event t d = record { kept = λ s h. h }

  pub Keeps-progress : (d : String) → Keeps P (progress py host d)
  unfolding progress
  Keeps-progress d = search (keeps_rules, Keeps-record_event)

  pub Keeps-raise_alert : (d : String) → Keeps P (raise_alert py host d)
  unfolding raise_alert
  Keeps-raise_alert d = search (keeps_rules, Keeps-progress)

  pub Keeps-clock : Keeps P (clock py host)
  unfolding clock
  Keeps-clock = record { kept = λ s h. h }

  pub Keeps-transition : (t : Status) (d : String) → Keeps P (transition py host t d)
  unfolding transition
  Keeps-transition t d = search (keeps_rules, Keeps-record_event) depth 20

  Keeps-stop_if : (b : Bool) → Keeps P (stop_if py host b)
  unfolding stop_if
  Keeps-stop_if true = Keeps-give_out P _ _
  Keeps-stop_if false = Keeps-pure P _

  pub Keeps-check : (b : Bool) → Keeps P (check_deadline_and_interruption py host b)
  unfolding check_deadline_and_interruption
  Keeps-check b = search (keeps_rules, Keeps-clock, Keeps-stop_if) depth 20

  pub Keeps-unless_cleanup : (b : Bool) → Keeps P (unless_cleanup py host b)
  Keeps-unless_cleanup true = Keeps-pure P _
  Keeps-unless_cleanup false = Keeps-check true

  pub Keeps-snapshot : Keeps P (snapshot py host)
  unfolding snapshot
  Keeps-snapshot = search keeps_rules

  pub Keeps-require_fresh :
      (g : Option String) (m n : Option ℕ) (x : Session) → Keeps P (require_fresh py host g m n x)
  unfolding require_fresh
  Keeps-require_fresh g m n x = search keeps_rules depth 20

  pub Keeps-require_fresh_session :
      (g : Option String) (m n : Option ℕ) → Keeps P (require_fresh_session py host g m n)
  unfolding require_fresh_session
  Keeps-require_fresh_session g m n =
      search (keeps_rules, Keeps-snapshot, Keeps-require_fresh) depth 20

  pub Keeps-admit_and_start : (d e : String) → Keeps P (admit_and_start py host d e)
  unfolding admit_and_start
  Keeps-admit_and_start d e =
      search (keeps_rules, Keeps-clock, Keeps-transition, Keeps-check) depth 20

  Keeps-or_none : {A : Type 0} (x : Outcome (Option A)) → Keeps P (or_none py host x)
  Keeps-or_none (done a) = record { kept = λ s h. h }
  Keeps-or_none (abort t d) = record { kept = λ s h. h }
  Keeps-or_none (failure x) = record { kept = λ s h. h }
  Keeps-or_none unfinished = record { kept = λ s h. h }

  pub Keeps-safe_snapshot : Keeps P (safe_snapshot py host)
  unfolding safe_snapshot
  Keeps-safe_snapshot = search (keeps_rules, Keeps-snapshot, Keeps-or_none)

  Keeps-denied : {A : Type 0} (d : String) (x : Outcome A) → Keeps P (denied py host d x)
  Keeps-denied d (done a) = record { kept = λ s h. h }
  Keeps-denied d (abort t e) = record { kept = λ s h. h }
  Keeps-denied d (failure (validation_error x)) = record { kept = λ s h. h }
  Keeps-denied d (failure (value_or_key_error x)) = record { kept = λ s h. h }
  Keeps-denied d (failure (fault x)) = record { kept = λ s h. h }
  Keeps-denied d unfinished = record { kept = λ s h. h }

  on_phase-Keeps :
      {A : Type 0} (p : Phase) (m n k : M W A)
      → Keeps P m
      → Keeps P n
      → Keeps P k
      → Keeps P (on_phase py host p m n k)
  on_phase-Keeps finished m n k a b c = a
  on_phase-Keeps failed_for_good m n k a b c = b
  on_phase-Keeps open_yet m n k a b c = c

  pub Keeps-wait :
      (fuel : ℕ) (i d : String) (c : Bool) → Keeps P (wait_for_action py host fuel i d c)
  unfolding wait_for_action
  Keeps-wait zero i d c = record { kept = λ s h. h }
  Keeps-wait (suc fuel) i d c = Keeps-bind P _ _ (Keeps-call P _) (λ v.
      on_phase-Keeps (phase v.0) _ _ _ (Keeps-progress _) (Keeps-give_out P _ _) (
        Keeps-bind P _ _ (Keeps-check (not c))
          (λ _. Keeps-bind P _ _ (Keeps-read P _) (λ _. Keeps-wait fuel i d c))))

  -- A broker step keeps what its one proposal keeps.
  module _ (s : Session) (c : String)
      (adds : (o : Operation) (n : ℕ) (l : List Proposal)
        → P l
        → P (l ++ proposal_for py host o s c n ∷ [])) where
    Keeps-log :
        (o : Operation) (n : ℕ) → Keeps {W = W} P (log_submitted (proposal_for py host o s c n))
    unfolding log_submitted
    Keeps-log o n = record { kept = λ t h. adds o n t.submitted h }

    Keeps-submit_step : (d : String) → Keeps P (submit_step py host s c d)
    unfolding submit_step
    Keeps-submit_step d = search (keeps_rules, Keeps-clock, Keeps-log, Keeps-denied) depth 20

    pub Keeps-run_broker_step :
        (fuel : ℕ) (d : String) (b : Bool) → Keeps P (run_broker_step py host fuel s c d b)
    unfolding run_broker_step
    Keeps-run_broker_step fuel d b =
        search (keeps_rules, Keeps-unless_cleanup, Keeps-submit_step, Keeps-progress, Keeps-wait)
          depth 20
