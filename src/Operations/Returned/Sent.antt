-- ===== src/Operations/Returned/Sent.antt =====
-- What a broker step that returned has given to the broker.
use lich_agent_bridge.Base.{
  ℕ, String, Bool, true, false, ◌-◌, ◌≡◌, refl, some, List, [], ◌∷◌, ◌++◌, leb, if◌then◌else◌, ap,
  ◌∙◌, sym, subst,
}
use lich_agent_bridge.Base.Text.{concat}
use lich_agent_bridge.Actions.Types.{Proposal}
use lich_agent_bridge.Operations.Types.{Operation, Session, timed_out}
use lich_agent_bridge.Operations.Host.{
  Fault, Host, Reply, Texts, fault, raised, returned, validation_error, value_or_key_error,
}
use lich_agent_bridge.Operations.Monad.{
  M, Machine, Outcome, call, catch, done, give_out, log_submitted, outcome_of, recovered, ◌>>=◌,
  ◌>>◌,
}
use lich_agent_bridge.Operations.Steps.{denied, proposal_for, run_broker_step, submit_step, ttl_of}
use lich_agent_bridge.Operations.Submissions.{
  Keeps, Keeps-call, Keeps-clock, Keeps-get_operation, Keeps-progress, Keeps-unless_cleanup,
  Keeps-wait,
}
use lich_agent_bridge.Operations.Returned.{bind-done, pure-done}
use lich_agent_bridge.Operations.Returned.Fresh.{EndsWith, IsSeen}
use lich_agent_bridge.Operations.Returned.Still.{Shows}

-- A step that gives nothing to the broker.
abbrev pub Quiet : {W A : Type 0} → M W A → Type 0
Quiet m = (l : List Proposal) → Keeps (λ k. k ≡ l) m

pub Quiet-done :
    {W A : Type 0} {m : M W A} {s t : Machine W} {a : A}
    → Quiet m
    → m s ≡ (done a, t)
    → t.submitted ≡ s.submitted
Quiet-done {s = s} h e = ap (λ r. r.1.submitted) (sym e) ∙ (h s.submitted).kept s refl

module _ {W R : Type 0} (py : Texts) (host : Host W R) where
  -- The broker got one more proposal: this command, for the room and generation of the session. It
  -- answered with the id.
  pub record Sends (x : Session) (command : String) (i : String) (before after : List Proposal)
      : Type 0 where
    pub proposal : Proposal
    pub submitted : after ≡ before ++ proposal ∷ []
    pub command_sent : proposal.command ≡ some command
    pub single : proposal.commands ≡ []
    pub room : proposal.expected_room_id ≡ some x.room_id
    pub generation : proposal.expected_generation ≡ some x.generation
    pub answered : (w : W) × (v : W) × (host.submit proposal w ≡ (returned i, v))

  pub Sends-around :
      (x : Session) (c i : String) (b b' a a' : List Proposal)
      → b ≡ b'
      → a' ≡ a
      → Sends x c i b a
      → Sends x c i b' a'
  Sends-around x c i b b' a a' e f h =
      subst (λ k. Sends x c i k a') e (subst (λ k. Sends x c i b k) (sym f) h)

  denied-done :
      (d : String) (f : Fault) (i : String) (s t : Machine W)
      → denied py host d (Outcome.failure f) s ≡ (done i, t)
      → ⊥
  denied-done d (validation_error x) i s t h = cc
  denied-done d (value_or_key_error x) i s t h = cc
  denied-done d (fault x) i s t h = cc

  -- A call whose error becomes an abort has returned, and submitted nothing.
  call-denied-done :
      (f : W → Reply String × W) (d i : String) (s t : Machine W)
      → catch (call f) (denied py host d) s ≡ (done i, t)
      → (f s.world ≡ (returned i, t.world)) × (t.submitted ≡ s.submitted)
  unfolding catch call
  call-denied-done f d i s t = split (f s.world) refl
    where
      split :
          (r : Reply String × W)
          → f s.world ≡ r
          → recovered (outcome_of r.0, record s { world = r.1 }) (denied py host d) ≡ (done i, t)
          → (f s.world ≡ (returned i, t.world)) × (t.submitted ≡ s.submitted)
      split (returned a, w) e h =
          let world : w ≡ t.world = ap (λ z. z.1.world) h in
          let same : a ≡ i = cc in (cc, ap (λ z. z.1.submitted) (sym h))
      split (raised x, w) e h = absurd (denied-done d x i _ t h)

  submitted-Sends :
      (x : Session) (o : Operation) (command d i : String) (ttl : ℕ) (s t : Machine W)
      → (log_submitted (proposal_for py host o x command ttl)
            >> catch (call (host.submit (proposal_for py host o x command ttl))) (denied py host d))
          s
        ≡ (done i, t)
      → Sends x command i s.submitted t.submitted
  unfolding log_submitted ◌>>=◌
  submitted-Sends x o command d i ttl s t h =
      let p = proposal_for py host o x command ttl in
      let (answer, kept) = call-denied-done (host.submit p) d i _ t h in
      record {
        proposal = p;
        submitted = kept;
        command_sent = refl;
        single = refl;
        room = refl;
        generation = refl;
        answered = (s.world, t.world, answer);
      }

  submit_step-Sends :
      (x : Session) (command d i : String) (s t : Machine W)
      → submit_step py host x command d s ≡ (done i, t)
      → Sends x command i s.submitted t.submitted
  unfolding submit_step give_out
  submit_step-Sends x command d i s t h =
      let (o, s1, g1, h1) = bind-done _ _ s t i h in
      let (now, s2, g2, h2) = bind-done _ _ s1 t i h1 in
      let same : s2.submitted ≡ s.submitted =
        Quiet-done (λ l. Keeps-clock _ py host) g2 ∙ Quiet-done (λ l. Keeps-get_operation _) g1 in
      in_time (leb o.deadline now) o now s2 same h2
    where
      in_time :
          (b : Bool) (o : Operation) (now : ℕ) (u : Machine W)
          → u.submitted ≡ s.submitted
          → (if b
                then give_out timed_out "operation timed out before next action"
                else (let p =
                      proposal_for py host o x command (ttl_of py host (o.deadline - now)) in
                    log_submitted p >> catch (call (host.submit p)) (denied py host d)))
              u
            ≡ (done i, t)
          → Sends x command i s.submitted t.submitted
      in_time true o now u same k = cc
      in_time false o now u same k = rw same at (submitted-Sends x o command d i _ u t k)

  -- A broker step that returns has submitted one proposal, with its command.
  pub run_broker_step-Sends :
      (fuel : ℕ) (x : Session) (command d i : String) (c : Bool) (s t : Machine W)
      → run_broker_step py host fuel x command d c s ≡ (done i, t)
      → Sends x command i s.submitted t.submitted
  unfolding run_broker_step
  run_broker_step-Sends fuel x command d i c s t h =
      let (_, s1, g1, h1) = bind-done _ _ s t i h in
      let (j, s2, g2, h2) = bind-done _ _ s1 t i h1 in
      let (_, s3, g3, h3) = bind-done _ _ s2 t i h2 in
      let (_, s4, g4, h4) = bind-done _ _ s3 t i h3 in
      let (_, s5, g5, h5) = bind-done _ _ s4 t i h4 in
      let (same, ended) = pure-done j i s5 t h5 in
      let before : s1.submitted ≡ s.submitted =
        Quiet-done (λ l. Keeps-unless_cleanup _ py host c) g1 in
      let after : t.submitted ≡ s2.submitted =
        ap (λ z. z.submitted) (sym ended)
        ∙ Quiet-done (λ l. Keeps-wait _ py host fuel j d c) g5
        ∙ Quiet-done (λ l. Keeps-call _ (host.hook j x)) g4
        ∙ Quiet-done
            (λ l. Keeps-progress _ py host (concat ("broker admitted action " ∷ j ∷ ": " ∷ d ∷ [])))
            g3 in
      let sends = submit_step-Sends x command d j s1 s2 g2 in
      record {
        proposal = sends.proposal;
        submitted = after ∙ sends.submitted ∙ ap (λ l. l ++ sends.proposal ∷ []) before;
        command_sent = sends.command_sent;
        single = sends.single;
        room = sends.room;
        generation = sends.generation;
        answered =
            subst (λ k. (w : W) × (v : W) × (host.submit sends.proposal w ≡ (returned k, v))) same
              sends.answered;
      }

  -- What a script's start showed: the first snapshot, as the state adapter shows it when the handler
  -- starts; the last one before the command; the one proposal, with the command, for the room and
  -- generation of that one; and the recorded end state, later than it and of the first generation.
  pub record IsStarted (command : String) (Q : String → Session → Session → Type 0)
      (s t : Machine W) : Type 0 where
    pub start : Session
    pub current : Session
    pub first : ℕ
    pub second : ℕ
    pub action_id : String
    pub start_shown : Shows host s start
    pub start_seen : IsSeen py host start first
    pub current_seen : IsSeen py host current second
    pub sent : Sends current command action_id s.submitted t.submitted
    pub ends : EndsWith py host start.generation second (Q action_id start) t
