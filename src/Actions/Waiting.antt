-- ===== src/Actions/Waiting.antt =====
-- `poll_wait` of src/lich_agent_bridge/actions.py: `_poll_locked` again and again, until there is an
-- instruction or the time is over.
use lich_agent_bridge.Base.{
  ℕ, ◌+◌, ◌*◌, ◌≤◌, Bool, true, false, ◌≡◌, refl, Option, none, some, List, [], ◌∷◌, ◌⊎◌, inl, inr,
  arith, leb, if◌then◌else◌, Bool-cases, sym, ap, subst, ◌∙◌,
}
use lich_agent_bridge.Actions.Types.{
  Broker, Context, Env, Error, PublicAction, Result, ok, err, Timeout, bad_type, outside, ticks,
  bad_timeout, timeout_range,
}
use lich_agent_bridge.Actions.Broker.{poll}
use lich_agent_bridge.Actions.Reach.{Request, handle}
use lich_agent_bridge.Actions.Delivery.{Any, HandsOut, IsServed, MayRun, poll_safe, poll_progress}

-- One round of the loop: the clock of the broker at its poll, the monotonic clock behind it, and
-- what other threads call until the condition wakes it.
pub record Round : Type 0 where
  pub now : ℕ
  pub clock : ℕ
  pub others : List Request

-- With no round left, the method is still waiting.
pub data Waited : Type 0 where
  waiting : Waited
  returned : Result (Option PublicAction) → Waited

-- The round is one of the run.
abbrev pub OneOf : (Round → Type 0) → List Round → Type 0
OneOf P [] = ⊥
OneOf P (r ∷ l) = P r ⊎ OneOf P l

module _ (env : Env) where
  unfoldable pub handle_all : List Request → Broker → Broker
  handle_all [] b = b
  handle_all (r ∷ rest) b = handle_all rest (handle env r b)

  -- What the loop does with the outcome of a poll, and with the rest of its run: it is late when
  -- `deadline - time.monotonic()` is not positive.
  unfoldable pub end_round :
      Bool → Result (Option PublicAction) → Broker → Waited × Broker → Waited × Broker
  end_round late (err e) b again = (returned (err e), b)
  end_round late (ok (some p)) b again = (returned (ok (some p)), b)
  end_round true (ok none) b again = (returned (ok none), b)
  end_round false (ok none) b again = again

  -- The loop, up to a deadline of the monotonic clock.
  unfoldable pub wait_until : Context → ℕ → List Round → Broker → Waited × Broker
  unfolding end_round
  wait_until context deadline [] b = (waiting, b)
  wait_until context deadline (r ∷ rest) b =
      let (outcome, c) = poll env r.now context b in
      let again = wait_until context deadline rest (handle_all r.others c) in
      end_round (leb deadline r.clock) outcome c again

  -- The checks of `timeout_seconds`.
  unfoldable pub wait_limit : Timeout → Result ℕ
  wait_limit bad_type = err bad_timeout
  wait_limit outside = err timeout_range
  wait_limit (ticks t) = if leb t (30 * env.second) then ok t else err timeout_range

  -- `poll_wait`, called when the monotonic clock reads `started`.
  unfoldable pub poll_wait : Context → Timeout → ℕ → List Round → Broker → Waited × Broker
  poll_wait context timeout started rounds b = elim (wait_limit timeout) [
    | err e ↦ (returned (err e), b)
    | ok t ↦ wait_until context (started + t) rounds b
  ]

  -- The last poll of the run, which gave the outcome; without an instruction, the deadline was over.
  record IsPolled (context : Context) (deadline : ℕ) (rounds : List Round) (o : Option PublicAction)
      (c : Broker) : Type 0 where
    round : Round
    before : Broker
    among : OneOf (λ r. r ≡ round) rounds
    polled : poll env round.now context before ≡ (ok o, c)
    late : o ≡ none → deadline ≤ round.clock

  IsPolled-later :
      (context : Context) (deadline : ℕ) (r : Round) (rounds : List Round) (o : Option PublicAction)
      (c : Broker)
      → IsPolled context deadline rounds o c
      → IsPolled context deadline (r ∷ rounds) o c
  IsPolled-later context deadline r rounds o c h = record {
    round = h.round;
    before = h.before;
    among = inr h.among;
    polled = h.polled;
    late = h.late;
  }

  ended :
      (context : Context) (deadline : ℕ) (late : Bool) (r : Round) (rest : List Round)
      (x : Result (Option PublicAction)) (o : Option PublicAction) (before b c : Broker)
      (again : Waited × Broker)
      → leb deadline r.clock ≡ late
      → poll env r.now context before ≡ (x, b)
      → (again ≡ (returned (ok o), c) → IsPolled context deadline rest o c)
      → end_round late x b again ≡ (returned (ok o), c)
      → IsPolled context deadline (r ∷ rest) o c
  unfolding end_round
  ended context deadline late r rest (err e) o before b c again l p more h = cc
  ended context deadline late r rest (ok (some i)) o before b c again l p more h = record {
    round = r;
    before = before;
    among = inl refl;
    polled = cc;
    late = λ e. cc;
  }
  ended context deadline true r rest (ok none) o before b c again l p more h = record {
    round = r;
    before = before;
    among = inl refl;
    polled = cc;
    late = λ e. ground arith;
  }
  ended context deadline false r rest (ok none) o before b c again l p more h =
      IsPolled-later context deadline r rest o c (more h)

  wait_until-IsPolled :
      (context : Context) (deadline : ℕ) (rounds : List Round) (o : Option PublicAction)
      (b c : Broker)
      → wait_until context deadline rounds b ≡ (returned (ok o), c)
      → IsPolled context deadline rounds o c
  unfolding wait_until
  wait_until-IsPolled context deadline [] o b c h = cc
  wait_until-IsPolled context deadline (r ∷ rest) o b c h =
      ended context deadline (leb deadline r.clock) r rest _ o b _ c
        (wait_until context deadline rest (handle_all r.others (poll env r.now context b).1)) refl
        refl (wait_until-IsPolled context deadline rest o _ c) h

  -- What `poll_wait` returned, when the timeout was `t`.
  pub record Waits (context : Context) (deadline : ℕ) (rounds : List Round)
      (o : Option PublicAction) (c : Broker) : Type 0 where
    pub round : Round
    pub before : Broker
    pub among : OneOf (λ r. r ≡ round) rounds
    pub polled : poll env round.now context before ≡ (ok o, c)
    pub instruction :
        (p : PublicAction)
        → o ≡ some p
        → IsServed env context before × HandsOut env round.now context p before.actions c.actions
    pub late : o ≡ none → deadline ≤ round.clock
    pub idle :
        o ≡ none
        → IsServed env context before
        → ¬ (Any (MayRun env round.now context) before.actions)

  IsPolled-Waits :
      (context : Context) (deadline : ℕ) (rounds : List Round) (o : Option PublicAction)
      (c : Broker)
      → IsPolled context deadline rounds o c
      → Waits context deadline rounds o c
  IsPolled-Waits context deadline rounds o c last = record {
    round = last.round;
    before = last.before;
    among = last.among;
    polled = last.polled;
    instruction = λ p e.
        let (served, handed) =
          poll_safe env last.round.now context last.before p (cc (last.polled, e)) in
        (served, rw last.polled at handed);
    late = last.late;
    idle = λ e served runnable.
        let (p, f) = poll_progress env last.round.now context last.before served runnable in
        cc (last.polled, e, f);
  }

  limited :
      (timeout : Timeout)
      → ((t : ℕ) × (wait_limit timeout ≡ ok t) × (timeout ≡ ticks t) × (t ≤ 30 * env.second))
        ⊎ ((e : Error) × (wait_limit timeout ≡ err e))
  unfolding wait_limit
  limited bad_type = inr (bad_timeout, refl)
  limited outside = inr (timeout_range, refl)
  limited (ticks t) = elim (Bool-cases (leb t (30 * env.second))) [
    | inl e ↦ inl (t, ground arith, refl, ground arith)
    | inr e ↦ inr (timeout_range, ground arith)
  ]

  poll_wait-ok :
      (context : Context) (timeout : Timeout) (t started : ℕ) (rounds : List Round) (b : Broker)
      → wait_limit timeout ≡ ok t
      → poll_wait context timeout started rounds b ≡ wait_until context (started + t) rounds b
  unfolding poll_wait
  poll_wait-ok context timeout t started rounds b h = ground arith

  poll_wait-err :
      (context : Context) (timeout : Timeout) (e : Error) (started : ℕ) (rounds : List Round)
      (b : Broker)
      → wait_limit timeout ≡ err e
      → poll_wait context timeout started rounds b ≡ (returned (err e), b)
  unfolding poll_wait
  poll_wait-err context timeout e started rounds b h = ground arith

  pub poll_wait_safe :
      (context : Context) (timeout : Timeout) (started : ℕ) (rounds : List Round) (b c : Broker)
      (o : Option PublicAction)
      → poll_wait context timeout started rounds b ≡ (returned (ok o), c)
      → (t : ℕ) × (timeout ≡ ticks t)
        × (t ≤ 30 * env.second)
        × Waits context (started + t) rounds o c
  poll_wait_safe context timeout started rounds b c o h = elim (limited timeout) [
    | inr (x, e) ↦ cc (poll_wait-err context timeout x started rounds b e, h)
    | inl (t, e, same, small) ↦
        let run = poll_wait-ok context timeout t started rounds b e in
        let last = wait_until-IsPolled context (started + t) rounds o b c (sym run ∙ h) in
        (t, same, small, IsPolled-Waits context (started + t) rounds o c last)
  ]

  end_round-returns :
      (late : Bool) (x : Result (Option PublicAction)) (b : Broker) (again : Waited × Broker)
      → (late ≡ true) ⊎ ((r : Result (Option PublicAction)) × (again.0 ≡ returned r))
      → (r : Result (Option PublicAction)) × ((end_round late x b again).0 ≡ returned r)
  unfolding end_round
  end_round-returns late (err e) b again h = (err e, refl)
  end_round-returns late (ok (some p)) b again h = (ok (some p), refl)
  end_round-returns true (ok none) b again h = (ok none, refl)
  end_round-returns false (ok none) b again (inl h) = cc
  end_round-returns false (ok none) b again (inr h) = h

  wait_until-returns :
      (context : Context) (deadline : ℕ) (rounds : List Round) (b : Broker)
      → OneOf (λ r. deadline ≤ r.clock) rounds
      → (x : Result (Option PublicAction)) × ((wait_until context deadline rounds b).0 ≡ returned x)
  unfolding wait_until
  wait_until-returns context deadline [] b h = absurd h
  wait_until-returns context deadline (r ∷ rest) b (inl h) =
      end_round-returns (leb deadline r.clock) _ _ _ (inl (ground arith))
  wait_until-returns context deadline (r ∷ rest) b (inr h) =
      end_round-returns (leb deadline r.clock) _ _ _
        (inr (wait_until-returns context deadline rest _ h))

  -- `poll_wait` ends: with a timeout `t`, it has returned or raised by the first round in which the
  -- monotonic clock has advanced by `t`, whatever other threads call meanwhile.
  pub poll_wait_ends :
      (context : Context) (t started : ℕ) (rounds : List Round) (b : Broker)
      → OneOf (λ r. started + t ≤ r.clock) rounds
      → (x : Result (Option PublicAction)) × ((poll_wait context (ticks t) started rounds b).0
          ≡ returned x)
  poll_wait_ends context t started rounds b h = elim (limited (ticks t)) [
    | inr (x, e) ↦ (err x, ap (λ w. w.0) (poll_wait-err context (ticks t) x started rounds b e))
    | inl (u, e, same, small) ↦
        let later : started + t ≡ started + u = cc in
        let (x, f) =
          wait_until-returns context (started + u) rounds b
            (subst (λ d. OneOf (λ r. d ≤ r.clock) rounds) later h) in
        (x, ap (λ w. w.0) (poll_wait-ok context (ticks t) u started rounds b e) ∙ f)
  ]
