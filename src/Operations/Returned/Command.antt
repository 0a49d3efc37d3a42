-- ===== src/Operations/Returned/Command.antt =====
-- What `session.command` has seen when it returns.
use lich_agent_bridge.Base.{
  ◌≡◌, refl, ℕ, Bool, ◌&&◌, not, List, String, true, false, Option, none, some, [], ◌∷◌, ap, ◌∙◌,
}
use lich_agent_bridge.Base.Dict.{lookup}
use lich_agent_bridge.Base.Text.{concat}
use lich_agent_bridge.Operations.Types.{Argument, Session, text, number, texts, other}
use lich_agent_bridge.Operations.Host.{Host, Texts}
use lich_agent_bridge.Operations.Monad.{Machine, done, give_out, pure}
use lich_agent_bridge.Operations.Direct.{Direct, accepted, refused, normalize_full_access_command}
use lich_agent_bridge.Operations.Handlers.{
  accept, after_delivery, command_given, execute_session_command, has_status,
}
use lich_agent_bridge.Operations.Objects.{only}
use lich_agent_bridge.Operations.Scripts.{is_nil}
use lich_agent_bridge.Operations.Returned.{after-bind, bind-done, get_operation-done, require-done}
use lich_agent_bridge.Operations.Returned.Fresh.{
  EndsWith, IsSeen, fresh-IsFreshAfter, fresh-IsSeen, recorded-end,
}
use lich_agent_bridge.Operations.Submissions.{
  Keeps-admit_and_start, Keeps-get_operation, Keeps-require, Keeps-require_fresh_session,
  Keeps-update,
}
use lich_agent_bridge.Operations.Returned.Sent.{
  Sends, Sends-around, Quiet-done, run_broker_step-Sends,
}
use lich_agent_bridge.Operations.Returned.Quiet.{
  Quiet-after_delivery, Quiet-command_given, Still-command_given,
}
use lich_agent_bridge.Operations.Returned.Still.{
  Shows, Shows-still, Still-get_operation, Still-require, fresh-Shows, Still-character, Still-world,
}

module _ {W R : Type 0} (py : Texts) (host : Host W R) where
  -- The argument is a text that the check accepts.
  record IsGiven (a : Option Argument) (command : String) : Type 0 where
    raw : String
    given : a ≡ some (text raw)
    accepts : normalize_full_access_command py.casefold raw ≡ accepted command

  accept-done :
      (d : Direct) (s t : Machine W) (c : String)
      → accept py host d s ≡ (done c, t)
      → d ≡ accepted c
  unfolding give_out pure
  accept-done (refused e) s t c h = cc
  accept-done (accepted x) s t c h = cc

  command_given-done :
      (a : Option Argument) (s t : Machine W) (c : String)
      → command_given py host a s ≡ (done c, t)
      → IsGiven a c
  unfolding give_out
  command_given-done none s t c h = cc
  command_given-done (some (number n)) s t c h = cc
  command_given-done (some (texts l)) s t c h = cc
  command_given-done (some other) s t c h = cc
  command_given-done (some (text raw)) s t c h = record {
    raw = raw;
    given = refl;
    accepts = accept-done (normalize_full_access_command py.casefold raw) s t c h;
  }

  after_delivery-EndsWith :
      (x : Session) (n : ℕ) (i : String) (s t : Machine W) (e : String)
      → after_delivery py host x n i s ≡ (done e, t)
      → EndsWith py host x.generation n
          (λ y.
            has_status py host "lab-direct" (concat ("completed:" ∷ i ∷ [])) y.script_status ≡ true)
          t
  unfolding after_delivery
  after_delivery-EndsWith x n i s t e h =
      let (y, s1, g1, h1) = bind-done _ _ s t e h in
      let (r, s2, g2, h2) = bind-done _ _ s1 t e h1 in
      let (u, s3, g3, h3) = bind-done _ _ s2 t e h2 in
      record {
        end = y.0;
        sequence = y.1;
        recorded = recorded-end py host y.0 _ e s2 s3 t u g3 h3;
        after = fresh-IsFreshAfter py host x.generation n s s1 y g1;
        holds = require-done _ _ s1 s2 r g2;
      }

  -- The tests and texts of `_execute_session_command`.
  abbrev only_command : List (String × Argument) → Bool
  only_command arguments = not (is_nil arguments) && only ("command" ∷ []) arguments

  abbrev only_text : String
  only_text = "session.command accepts only command"

  abbrev grants : Session → Bool
  grants x = has_status py host "lab-access" "full" x.script_status

  abbrev grant_text : String
  grant_text = "local LAB full access is not enabled for this session"

  abbrev admitted_text : String
  admitted_text = "local full-access grant and current session admitted"

  abbrev running_text : String
  running_text = "single session-command delivery running"

  -- An accepted command, the grant in the first session, the one proposal, and the receipt of its
  -- action in the end.
  pub record IsDelivered (s t : Machine W) : Type 0 where
    pub raw : String
    pub command : String
    pub argument : lookup "command" s.operation.arguments ≡ some (text raw)
    pub accepts : normalize_full_access_command py.casefold raw ≡ accepted command
    pub start : Session
    pub first : ℕ
    pub start_seen : IsSeen py host start first
    pub start_shown : Shows host s start
    pub granted : has_status py host "lab-access" "full" start.script_status ≡ true
    pub action_id : String
    pub sent :
        Sends py host start
          (concat ("lab direct " ∷ command ∷ []))
          action_id
          s.submitted
          t.submitted
    pub ends :
        EndsWith py host start.generation first
          (λ y.
            has_status py host "lab-direct" (concat ("completed:" ∷ action_id ∷ [])) y.script_status
            ≡ true)
          t

  -- A session command that returns was a text that the check of direct commands accepts. The first
  -- snapshot, as the state adapter shows it when the handler starts, grants full access; the broker
  -- got one proposal, with the accepted command behind `lab direct` and the room and generation of
  -- that snapshot; and a later fresh snapshot of the same generation, which is the recorded end
  -- state, shows the receipt of the action whose id the broker answered.
  pub execute_session_command-IsDelivered :
      (fuel : ℕ) (s t : Machine W) (e : String)
      → execute_session_command py host fuel s ≡ (done e, t)
      → IsDelivered s t
  unfolding execute_session_command
  execute_session_command-IsDelivered fuel s t e h = after-bind _ _ s t e _ h λ o s1 g1 h1.
      after-bind _ _ s1 t e _ h1 λ _ s2 g2 h2. after-bind _ _ s2 t e _ h2 λ c s3 g3 h3.
        after-bind _ _ s3 t e _ h3 λ x s4 g4 h4. after-bind _ _ s4 t e _ h4 λ _ s5 g5 h5.
          after-bind _ _ s5 t e _ h5 λ r s6 g6 h6. after-bind _ _ s6 t e _ h6 λ _ s7 g7 h7.
            after-bind _ _ s7 t e _ h7 λ i s8 g8 h8.
              let given = command_given-done (lookup "command" o.arguments) s2 s3 c g3 in
              let before : s7.submitted ≡ s.submitted =
                Quiet-done (λ l. Keeps-admit_and_start _ py host admitted_text running_text) g7
                ∙ Quiet-done (λ l. Keeps-require _ (grants x.0) grant_text) g6
                ∙ Quiet-done (λ l. Keeps-update _ (λ z. record z { start_state = some x.0 })) g5
                ∙ Quiet-done (λ l. Keeps-require_fresh_session _ py host none none none) g4
                ∙ Quiet-done (Quiet-command_given py host (lookup "command" o.arguments)) g3
                ∙ Quiet-done (λ l. Keeps-require _ (only_command o.arguments) only_text) g2
                ∙ Quiet-done (λ l. Keeps-get_operation _) g1 in
              let after : t.submitted ≡ s8.submitted =
                Quiet-done (Quiet-after_delivery py host x.0 x.1 i) h8 in
              record {
                raw = given.raw;
                command = c;
                argument =
                    ap (λ z. lookup "command" z.arguments) (get_operation-done o s s1 g1).0
                    ∙ given.given;
                accepts = given.accepts;
                start = x.0;
                first = x.1;
                start_seen = fresh-IsSeen py host none none none s3 s4 x g4;
                start_shown =
                    Shows-still host s s3 x.0
                      (Still-world (Still-command_given py host (lookup "command" o.arguments)) g3
                        ∙ Still-world (Still-require (only_command o.arguments) only_text) g2
                        ∙ Still-world Still-get_operation g1)
                      (Still-character (Still-command_given py host (lookup "command" o.arguments))
                          g3
                        ∙ Still-character (Still-require (only_command o.arguments) only_text) g2
                        ∙ Still-character Still-get_operation g1)
                      (fresh-Shows py host none none none s3 s4 x g4);
                granted = require-done _ _ s5 s6 r g6;
                action_id = i;
                sent =
                    Sends-around py host x.0 _ i s7.submitted s.submitted s8.submitted t.submitted
                      before after
                      (run_broker_step-Sends py host fuel x.0 (concat ("lab direct " ∷ c ∷ []))
                        "sending locally authorized session command" i false s7 s8 g8);
                ends = after_delivery-EndsWith x.0 x.1 i s8 t e h8;
              }
