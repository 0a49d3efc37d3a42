-- ===== src/Operations/Sound/Steps.antt =====
-- The shared steps of src/lich_agent_bridge/operations.py end in time: Operations/Steps.
use lich_agent_bridge.Base.{
  ℕ, zero, suc, ◌+◌, ◌≤◌, ◌<◌, String, Bool, true, false, not, ◌≡◌, refl, Option, some, arith, leb,
  Bool-cases, inl, inr,
}
use lich_agent_bridge.Actions.Types.{Proposal}
use lich_agent_bridge.Operations.Types.{Session, Status, is_terminal, failed}
use lich_agent_bridge.Operations.Registry.{emit}
use lich_agent_bridge.Operations.Host.{Host, Texts, validation_error, value_or_key_error, fault}
use lich_agent_bridge.Operations.Monad.{
  M, Machine, Outcome, abort, call, catch, done, failure, get_operation, give_out, read, unfinished,
  update, ◌>>=◌,
}
use lich_agent_bridge.Operations.Steps.{
  admit_and_start, check_deadline_and_interruption, clock, denied, finished, failed_for_good,
  open_yet, on_phase, phase, or_none, progress, raise_alert, record_event, Phase, require_fresh,
  require_fresh_session, run_broker_step, safe_snapshot, snapshot, stop_if, submit_step, transition,
  unless_cleanup, wait_for_action,
}
use lich_agent_bridge.Operations.Sound.{
  chained-IsFine, Advances, IsEnd, IsFine, IsOpen, Sound, Sound-bind, Sound-call, Sound-catch,
  Sound-give_out, Sound-pure, Sound-read, Sound-update, sound_rules,
}

module _ {W R : Type 0} (py : Texts) (host : Host W R) (limit : ℕ) (adv : Advances host) where
  pub Sound-record_event : (t : Status) (d : String) → Sound host limit (record_event py host t d)
  unfolding record_event emit
  Sound-record_event t d = record {
    from = λ s h. record {
      ends = tt;
      still = record { status = h.status; deadline = h.deadline };
      later = adv.cursors s.world;
    };
  }

  pub Sound-progress : (d : String) → Sound host limit (progress py host d)
  unfolding progress
  Sound-progress d = search (sound_rules, Sound-record_event)

  pub Sound-raise_alert : (d : String) → Sound host limit (raise_alert py host d)
  unfolding raise_alert
  Sound-raise_alert d =
      Sound-bind _ _ _ _ (Sound-update _ _ _ (λ o h. h) (λ o. refl))
        (λ _. Sound-bind _ _ _ _ (Sound-read _ _ _ (λ w. adv.alerts d w)) (λ _. Sound-progress _))

  pub Sound-clock : Sound host limit (clock py host)
  unfolding clock
  Sound-clock = record { from = λ s h. record { ends = tt; still = h; later = omega arith } }

  keep_status :
      (t : Status)
      → is_terminal t ≡ false
      → Sound host limit (update (λ p. record p { status = t }))
  keep_status t h = Sound-update _ _ _ (λ o _. h) (λ o. refl)

  pub Sound-transition :
      (t : Status) (d : String) → is_terminal t ≡ false → Sound host limit (transition py host t d)
  unfolding transition
  Sound-transition t d h = search (sound_rules, Sound-record_event, keep_status)

  Sound-stop_if : (b : Bool) → Sound host limit (stop_if py host b)
  unfolding stop_if
  Sound-stop_if true = Sound-give_out _ _ _ _ refl
  Sound-stop_if false = Sound-pure _ _ _

  Sound-interrupted : (i : String) → Sound host limit (read (host.is_interrupted i))
  Sound-interrupted i = Sound-read _ _ _ (adv.interruptions i)

  pub Sound-check : (b : Bool) → Sound host limit (check_deadline_and_interruption py host b)
  unfolding check_deadline_and_interruption
  Sound-check b = search (sound_rules, Sound-clock, Sound-stop_if, Sound-interrupted)

  pub Sound-unless_cleanup : (b : Bool) → Sound host limit (unless_cleanup py host b)
  Sound-unless_cleanup true = Sound-pure _ _ _
  Sound-unless_cleanup false = Sound-check true

  admitted_at : (n : ℕ) → Sound host limit (update (λ o. record o { admitted_at = some n }))
  admitted_at n = Sound-update _ _ _ (λ o h. h) (λ o. refl)

  started_at : (n : ℕ) → Sound host limit (update (λ o. record o { started_at = some n }))
  started_at n = Sound-update _ _ _ (λ o h. h) (λ o. refl)

  pub Sound-admit_and_start : (d e : String) → Sound host limit (admit_and_start py host d e)
  unfolding admit_and_start
  Sound-admit_and_start d e =
      search (sound_rules, Sound-clock, Sound-check, Sound-transition, admitted_at, started_at)
        depth 40

  Sound-asked : (c : String) → Sound host limit (call (host.snapshot c))
  Sound-asked c = Sound-call _ _ _ (adv.snapshots c)

  pub Sound-snapshot : Sound host limit (snapshot py host)
  unfolding snapshot
  Sound-snapshot = search (sound_rules, Sound-asked)

  Sound-or_none :
      {A : Type 0} (x : Outcome (Option A)) → IsEnd x → Sound host limit (or_none py host x)
  Sound-or_none (done a) h = record {
    from = λ s o. record { ends = tt; still = o; later = omega arith };
  }
  Sound-or_none (abort t d) h = record {
    from = λ s o. record { ends = tt; still = o; later = omega arith };
  }
  Sound-or_none (failure x) h = record {
    from = λ s o. record { ends = tt; still = o; later = omega arith };
  }
  Sound-or_none unfinished h = absurd h

  pub Sound-safe_snapshot : Sound host limit (safe_snapshot py host)
  unfolding safe_snapshot
  Sound-safe_snapshot =
      Sound-catch _ _ _ _ (Sound-bind _ _ _ _ Sound-snapshot (λ s. Sound-pure _ _ _)) Sound-or_none

  Sound-require_fresh :
      (g : Option String) (m n : Option ℕ) (s : Session)
      → Sound host limit (require_fresh py host g m n s)
  unfolding require_fresh
  Sound-require_fresh g m n s = search sound_rules depth 40

  pub Sound-require_fresh_session :
      (g : Option String) (m n : Option ℕ) → Sound host limit (require_fresh_session py host g m n)
  unfolding require_fresh_session
  Sound-require_fresh_session g m n =
      search (sound_rules, Sound-snapshot, Sound-require_fresh) depth 40

  Sound-denied :
      {A : Type 0} (d : String) (x : Outcome A) → IsEnd x → Sound host limit (denied py host d x)
  Sound-denied d (done a) h = record {
    from = λ s o. record { ends = tt; still = o; later = omega arith };
  }
  Sound-denied d (abort t e) h = record {
    from = λ s o. record { ends = h; still = o; later = omega arith };
  }
  Sound-denied d (failure (validation_error x)) h = record {
    from = λ s o. record { ends = refl; still = o; later = omega arith };
  }
  Sound-denied d (failure (value_or_key_error x)) h = record {
    from = λ s o. record { ends = tt; still = o; later = omega arith };
  }
  Sound-denied d (failure (fault x)) h = record {
    from = λ s o. record { ends = tt; still = o; later = omega arith };
  }
  Sound-denied d unfinished h = absurd h

  Sound-submitted :
      (d : String) (p : Proposal)
      → Sound host limit (catch (call (host.submit p)) (denied py host d))
  Sound-submitted d p = Sound-catch _ _ _ _ (Sound-call _ _ _ (adv.submissions p)) (Sound-denied d)

  Sound-submit_step : (s : Session) (c d : String) → Sound host limit (submit_step py host s c d)
  unfolding submit_step
  Sound-submit_step s c d = search (sound_rules, Sound-clock, Sound-submitted)

  Sound-hook : (i : String) (s : Session) → Sound host limit (call (host.hook i s))
  Sound-hook i s = Sound-call _ _ _ (adv.hooks i s)

  -- A check that lets the handler go on was in time.
  check-in_time :
      (b : Bool) (x : Unit) (s t : Machine W)
      → check_deadline_and_interruption py host b s ≡ (done x, t)
      → host.now s.world < s.operation.deadline
  unfolding check_deadline_and_interruption ◌>>=◌ get_operation clock give_out
  check-in_time b x s t h = elim (Bool-cases (leb s.operation.deadline (host.now s.world))) [
    | inl late ↦ cc (rw late at h)
    | inr early ↦ ground (arith, early)
  ]

  on_phase-IsFine :
      {A : Type 0} (p : Phase) (m n k : M W A) (t : Machine W)
      → IsFine host limit t (m t)
      → IsFine host limit t (n t)
      → IsFine host limit t (k t)
      → IsFine host limit t (on_phase py host p m n k t)
  on_phase-IsFine finished m n k t a b c = a
  on_phase-IsFine failed_for_good m n k t a b c = b
  on_phase-IsFine open_yet m n k t a b c = c

  -- One round, with what follows a check that was in time.
  round-IsFine :
      (fuel : ℕ) (i d : String) (c : Bool) (s : Machine W)
      → IsOpen host limit s
      → ((u : Machine W)
          → IsOpen host limit u
          → host.now s.world < limit
          → host.now s.world ≤ host.now u.world
          → IsFine host limit u
              ((read (λ w. (tt, host.sleep w)) >>= λ _. wait_for_action py host fuel i d c) u))
      → IsFine host limit s (wait_for_action py host (suc fuel) i d c s)
  unfolding wait_for_action ◌>>=◌
  round-IsFine fuel i d c s o rest =
      chained-IsFine _ _ s _ _ ((Sound-call host limit _ (adv.views i)).from s o) (λ v t e k l.
        on_phase-IsFine (phase v.0) _ _ _ t ((Sound-progress _).from t k)
          ((Sound-give_out host limit failed _ refl).from t k)
          (chained-IsFine _ _ t _ _ ((Sound-check (not c)).from t k) (λ x u f j q.
            rest u j (omega (arith, check-in_time (not c) x t u f, k.deadline, l))
              (omega (arith, l, q)))))

  -- Fuel that lasts to the limit is enough: before each sleep it is before the deadline.
  wait-IsFine :
      (fuel : ℕ) (i d : String) (c : Bool) (s : Machine W)
      → IsOpen host limit s
      → limit ≤ fuel + host.now s.world
      → IsFine host limit s (wait_for_action py host (suc fuel) i d c s)
  unfolding ◌>>=◌ read
  wait-IsFine zero i d c s o h =
      round-IsFine zero i d c s o (λ u j early l. absurd (omega (arith, h, early)))
  wait-IsFine (suc fuel) i d c s o h = round-IsFine (suc fuel) i d c s o (λ u j early l.
      let t : Machine W = record u { world = host.sleep u.world } in
      let k =
        wait-IsFine fuel i d c t (record { status = j.status; deadline = j.deadline })
          (omega (arith, h, l, adv.sleeping u.world)) in
      record {
        ends = k.ends;
        still = k.still;
        later = omega (arith, k.later, adv.sleeping u.world);
      })

  pub Sound-run_broker_step :
      (fuel : ℕ) (s : Session) (c d : String) (b : Bool)
      → limit < fuel
      → Sound host limit (run_broker_step py host fuel s c d b)
  unfolding run_broker_step
  Sound-run_broker_step fuel s c d b h = Sound-bind _ _ _ _ (Sound-unless_cleanup b) (λ _.
      Sound-bind _ _ _ _ (Sound-submit_step s c d) (λ i. Sound-bind _ _ _ _ (Sound-progress _) (λ _.
        Sound-bind _ _ _ _ (Sound-hook i s)
          (λ _. Sound-bind _ _ _ _ (Sound-wait fuel i d b h) (λ _. Sound-pure _ _ _)))))
    where
      Sound-wait :
          (fuel : ℕ) (i d : String) (c : Bool)
          → limit < fuel
          → Sound host limit (wait_for_action py host fuel i d c)
      Sound-wait zero i d c h = absurd (omega (arith, h))
      Sound-wait (suc fuel) i d c h = record {
        from = λ s o. wait-IsFine fuel i d c s o (omega (arith, h));
      }
