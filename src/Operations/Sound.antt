-- ===== src/Operations/Sound.antt =====
-- Steps that end, in time, with the operation still open: one rule for each way to build a step.
pub mod Steps
pub mod Items
pub mod Cleanup
pub mod Handlers
pub mod Execution
use lich_agent_bridge.Base.{
  ℕ, ◌+◌, ◌≤◌, ◌<◌, String, Bool, true, false, ◌≡◌, refl, Option, none, some, arith, if◌then◌else◌,
  Option-cases, inl, inr,
}
use lich_agent_bridge.Operations.Types.{
  Binding, Location, Method, Operation, Session, Status, failed, is_terminal, timed_out,
  interrupted,
}
use lich_agent_bridge.Actions.Types.{Proposal}
use lich_agent_bridge.Operations.Host.{Fault, Host, Reply, returned, raised}
use lich_agent_bridge.Operations.Monad.{
  M, Machine, Outcome, abort, break_off, call, catch, catch_abort, chained, demand, done, failure,
  get_operation, give_out, log_submitted, outcome_of, pure, read, recovered, recovered_abort,
  require, unfinished, update, ◌>>=◌,
}

-- The clock never goes back, and a sleep moves it on.
pub record Advances {W R : Type 0} (host : Host W R) : Type 0 where
  pub sleeping : (w : W) → host.now w < host.now (host.sleep w)
  pub cursors : (w : W) → host.now w ≤ host.now (host.next_cursor w).1
  pub interruptions : (i : String) (w : W) → host.now w ≤ host.now (host.is_interrupted i w).1
  pub snapshots : (c : String) (w : W) → host.now w ≤ host.now (host.snapshot c w).1
  pub locations :
      (c i : String) (w : W) → host.now w ≤ host.now (host.safest_owned_locations c i w).1
  pub registrations :
      (i : String) (m : Method) (b : Binding) (w : W)
      → host.now w ≤ host.now (host.register i m b w).1
  pub verifications : (r : R) (i : String) (w : W) → host.now w ≤ host.now (host.verify r i w).1
  pub submissions : (p : Proposal) (w : W) → host.now w ≤ host.now (host.submit p w).1
  pub views : (i : String) (w : W) → host.now w ≤ host.now (host.view i w).1
  pub hooks : (i : String) (s : Session) (w : W) → host.now w ≤ host.now (host.hook i s w).1
  pub alerts : (d : String) (w : W) → host.now w ≤ host.now (host.alert d w)

-- The statuses that an abort carries.
abbrev pub is_failure : Status → Bool
is_failure failed = true
is_failure timed_out = true
is_failure interrupted = true
is_failure _ = false

abbrev pub IsEnd : {A : Type 0} → Outcome A → Type 0
IsEnd (done a) = Unit
IsEnd (abort t d) = is_failure t ≡ true
IsEnd (failure x) = Unit
IsEnd unfinished = ⊥

module _ {W R : Type 0} (host : Host W R) (limit : ℕ) where
  -- The operation has not ended, and its deadline is not after the limit.
  pub record IsOpen (s : Machine W) : Type 0 where
    pub status : is_terminal s.operation.status ≡ false
    pub deadline : s.operation.deadline ≤ limit

  -- What a step from `s` came to.
  pub record IsFine {A : Type 0} (s : Machine W) (r : Outcome A × Machine W) : Type 0 where
    pub ends : IsEnd r.0
    pub still : IsOpen r.1
    pub later : host.now s.world ≤ host.now r.1.world

  pub record Sound {A : Type 0} (m : M W A) : Type 0 where
    pub from : (s : Machine W) → IsOpen s → IsFine s (m s)

  pub Sound-pure : {A : Type 0} (a : A) → Sound (pure a)
  unfolding pure
  Sound-pure a = record { from = λ s h. record { ends = tt; still = h; later = omega arith } }

  pub Sound-give_out :
      {A : Type 0} (t : Status) (d : String) → is_failure t ≡ true → Sound (give_out {A = A} t d)
  unfolding give_out
  Sound-give_out t d f = record {
    from = λ s h. record { ends = f; still = h; later = omega arith };
  }

  pub Sound-break_off : {A : Type 0} (x : Fault) → Sound (break_off {A = A} x)
  unfolding break_off
  Sound-break_off x = record { from = λ s h. record { ends = tt; still = h; later = omega arith } }

  pub Sound-require : (b : Bool) (d : String) → Sound (require b d)
  unfolding require
  Sound-require true d = record {
    from = λ s h. record { ends = tt; still = h; later = omega arith };
  }
  Sound-require false d = record {
    from = λ s h. record { ends = refl; still = h; later = omega arith };
  }

  pub Sound-demand : {A : Type 0} (o : Option A) (d : String) → Sound (demand o d)
  unfolding demand
  Sound-demand none d = record {
    from = λ s h. record { ends = refl; still = h; later = omega arith };
  }
  Sound-demand (some a) d = record {
    from = λ s h. record { ends = tt; still = h; later = omega arith };
  }

  pub Sound-get_operation : Sound get_operation
  unfolding get_operation
  Sound-get_operation = record {
    from = λ s h. record { ends = tt; still = h; later = omega arith };
  }

  pub Sound-update :
      (f : Operation → Operation)
      → ((o : Operation) → is_terminal o.status ≡ false → is_terminal (f o).status ≡ false)
      → ((o : Operation) → (f o).deadline ≡ o.deadline)
      → Sound (update f)
  unfolding update
  Sound-update f keeps same = record {
    from = λ s h. record {
      ends = tt;
      still = record {
        status = keeps s.operation h.status;
        deadline = omega (arith, same s.operation, h.deadline);
      };
      later = omega arith;
    };
  }

  pub Sound-log_submitted : (p : Proposal) → Sound (log_submitted p)
  unfolding log_submitted
  Sound-log_submitted p = record {
    from = λ s h. record {
      ends = tt;
      still = record { status = h.status; deadline = h.deadline };
      later = omega arith;
    };
  }

  IsEnd-outcome_of : {A : Type 0} (a : Reply A) → IsEnd (outcome_of a)
  IsEnd-outcome_of (returned a) = tt
  IsEnd-outcome_of (raised x) = tt

  pub Sound-call :
      {A : Type 0} (f : W → Reply A × W)
      → ((w : W) → host.now w ≤ host.now (f w).1)
      → Sound (call f)
  unfolding call
  Sound-call f later = record {
    from = λ s h. record {
      ends = IsEnd-outcome_of (f s.world).0;
      still = record { status = h.status; deadline = h.deadline };
      later = later s.world;
    };
  }

  pub Sound-read :
      {A : Type 0} (f : W → A × W) → ((w : W) → host.now w ≤ host.now (f w).1) → Sound (read f)
  unfolding read
  Sound-read f later = record {
    from = λ s h. record {
      ends = tt;
      still = record { status = h.status; deadline = h.deadline };
      later = later s.world;
    };
  }

  -- The second step may use what the first came to.
  pub chained-IsFine :
      {A B : Type 0} (s : Machine W) (r : Outcome A × Machine W) (f : A → M W B)
      → IsFine s r
      → ((a : A) (t : Machine W)
          → r ≡ (done a, t)
          → IsOpen t
          → host.now s.world ≤ host.now t.world
          → IsFine t (f a t))
      → IsFine s (chained r f)
  chained-IsFine s (done a, t) f h g =
      let k = g a t refl h.still h.later in
      record { ends = k.ends; still = k.still; later = omega (arith, h.later, k.later) }
  chained-IsFine s (abort u d, t) f h g = record { ends = h.ends; still = h.still; later = h.later }
  chained-IsFine s (failure x, t) f h g = record { ends = h.ends; still = h.still; later = h.later }
  chained-IsFine s (unfinished, t) f h g = absurd h.ends

  pub Sound-bind :
      {A B : Type 0} (m : M W A) (f : A → M W B)
      → Sound m
      → ((a : A) → Sound (f a))
      → Sound (m >>= f)
  unfolding ◌>>=◌
  Sound-bind m f h g = record {
    from = λ s o. chained-IsFine s (m s) f (h.from s o) (λ a t _ k _. (g a).from t k);
  }

  pub Sound-if :
      {A : Type 0} (b : Bool) (m n : M W A) → Sound m → Sound n → Sound (if b then m else n)
  Sound-if true m n h k = h
  Sound-if false m n h k = k

  pub Sound-catch :
      {A : Type 0} (m : M W A) (f : Outcome A → M W A)
      → Sound m
      → ((x : Outcome A) → IsEnd x → Sound (f x))
      → Sound (catch m f)
  unfolding catch
  Sound-catch {A = A} m f h g = record { from = λ s o. caught s (m s) (h.from s o) }
    where
      caught : (s : Machine W) (r : Outcome A × Machine W) → IsFine s r → IsFine s (recovered r f)
      caught s (done a, t) k = k
      caught s (abort u d, t) k =
          let l = (g (abort u d) k.ends).from t k.still in
          record { ends = l.ends; still = l.still; later = omega (arith, k.later, l.later) }
      caught s (failure x, t) k =
          let l = (g (failure x) tt).from t k.still in
          record { ends = l.ends; still = l.still; later = omega (arith, k.later, l.later) }
      caught s (unfinished, t) k = absurd k.ends

  pub Sound-catch_abort :
      {A : Type 0} (m : M W A) (f : Status → String → M W A)
      → Sound m
      → ((t : Status) (d : String) → is_failure t ≡ true → Sound (f t d))
      → Sound (catch_abort m f)
  unfolding catch_abort
  Sound-catch_abort {A = A} m f h g = record { from = λ s o. caught s (m s) (h.from s o) }
    where
      caught :
          (s : Machine W) (r : Outcome A × Machine W) → IsFine s r → IsFine s (recovered_abort r f)
      caught s (done a, t) k = k
      caught s (abort u d, t) k =
          let l = (g u d k.ends).from t k.still in
          record { ends = l.ends; still = l.still; later = omega (arith, k.later, l.later) }
      caught s (failure x, t) k = k
      caught s (unfinished, t) k = absurd k.ends

pub ruleset sound_rules = (
  Sound-pure, Sound-give_out, Sound-break_off, Sound-require, Sound-demand, Sound-get_operation,
  Sound-log_submitted, Sound-bind, Sound-if,
)
