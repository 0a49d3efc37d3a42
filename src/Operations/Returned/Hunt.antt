-- ===== src/Operations/Returned/Hunt.antt =====
-- What `hunt.prepare` has seen when it returns.
use lich_agent_bridge.Base.{◌≡◌, ℕ, String, true, false, Option, none, some, List, ◌∙◌, subst}
use lich_agent_bridge.Watchers.Types.{Profile}
use lich_agent_bridge.Operations.Types.{Session}
use lich_agent_bridge.Operations.Host.{Host, Texts}
use lich_agent_bridge.Operations.Monad.{Machine, done}
use lich_agent_bridge.Operations.Scripts.{is_running, lanes_owned, Adapter, bigshot}
use lich_agent_bridge.Operations.Scripts.{adapter_command}
use lich_agent_bridge.Operations.Submissions.{
  Keeps-admit_and_start, Keeps-demand, Keeps-require_fresh_session, Keeps-update,
}
use lich_agent_bridge.Operations.Returned.Sent.{
  IsStarted, Sends, Sends-around, Quiet-done, run_broker_step-Sends,
}
use lich_agent_bridge.Operations.Returned.Quiet.{
  Quiet-after_start, Quiet-no_arguments, Quiet-readiness, Still-no_arguments,
}
use lich_agent_bridge.Operations.Returned.Still.{
  Shows-still, Still-demand, fresh-Shows, Still-character, Still-world,
}
use lich_agent_bridge.Operations.Readiness.{verify_script_owns_lanes}
use lich_agent_bridge.Operations.Handlers.{after_start, execute_hunt_prepare}
use lich_agent_bridge.Operations.Returned.{after-bind, bind-done, demand-done, require-done}
use lich_agent_bridge.Operations.Returned.Fresh.{
  EndsWith, fresh-IsFreshAfter, fresh-IsSeen, recorded-end,
}

-- The script runs, and owns each of its lanes.
pub record IsOwnedBy (py : Texts) (x : Session) (a : Adapter) : Type 0 where
  pub scripts : List String
  pub owners : List (String × Option String)
  pub known_scripts : x.scripts ≡ some scripts
  pub known_owners : x.owners ≡ some owners
  pub running : is_running py a.name scripts ≡ true
  pub owned : lanes_owned py a.name a.ownership_lanes owners ≡ true

module _ {W R : Type 0} (py : Texts) (host : Host W R) where
  owns-done :
      (x : Session) (a : Adapter) (s t : Machine W) (r : Unit {0})
      → verify_script_owns_lanes py x a s ≡ (done r, t)
      → IsOwnedBy py x a
  unfolding verify_script_owns_lanes
  owns-done x a s t r h =
      let (scripts, s1, g1, h1) = bind-done _ _ s t r h in
      let (owners, s2, g2, h2) = bind-done _ _ s1 t r h1 in
      let (u, s3, g3, h3) = bind-done _ _ s2 t r h2 in
      record {
        scripts = scripts;
        owners = owners;
        known_scripts = demand-done _ _ s s1 scripts g1;
        known_owners = demand-done _ _ s1 s2 owners g2;
        running = require-done _ _ s2 s3 u g3;
        owned = require-done _ _ s3 t r h3;
      }

  after_start-EndsWith :
      (x : Session) (n : ℕ) (p : Profile) (s t : Machine W) (e : String)
      → after_start py host x n p s ≡ (done e, t)
      → EndsWith py host x.generation n (λ y. IsOwnedBy py y bigshot) t
  unfolding after_start
  after_start-EndsWith x n p s t e h =
      let (y, s1, g1, h1) = bind-done _ _ s t e h in
      let (_, s2, _, h2) = bind-done _ _ s1 t e h1 in
      let (r, s3, g3, h3) = bind-done _ _ s2 t e h2 in
      let (u, s4, g4, h4) = bind-done _ _ s3 t e h3 in
      record {
        end = y.0;
        sequence = y.1;
        recorded = recorded-end py host y.0 _ e s3 s4 t u g4 h4;
        after = fresh-IsFreshAfter py host x.generation n s s1 y g1;
        holds = owns-done y.0 bigshot s2 s3 r g3;
      }

  pub execute_hunt_prepare-IsStarted :
      (fuel : ℕ) (profile : Option Profile) (s t : Machine W) (e : String)
      → execute_hunt_prepare py host fuel profile s ≡ (done e, t)
      → IsStarted py host "bigshot start" (λ i x y. IsOwnedBy py y bigshot) s t
  unfolding execute_hunt_prepare adapter_command
  execute_hunt_prepare-IsStarted fuel profile s t e h = after-bind _ _ s t e _ h λ _ s1 g1 h1.
      after-bind _ _ s1 t e _ h1 λ p s2 g2 h2. after-bind _ _ s2 t e _ h2 λ x s3 g3 h3.
        after-bind _ _ s3 t e _ h3 λ _ s4 g4 h4. after-bind _ _ s4 t e _ h4 λ _ s5 g5 h5.
          after-bind _ _ s5 t e _ h5 λ _ s6 g6 h6. after-bind _ _ s6 t e _ h6 λ y s7 g7 h7.
            after-bind _ _ s7 t e _ h7 λ _ s8 g8 h8. after-bind _ _ s8 t e _ h8 λ c s9 g9 h9.
              after-bind _ _ s9 t e _ h9 λ i s10 g10 h10.
                let named : c ≡ "bigshot start" = cc (demand-done _ _ s8 s9 c g9) in
                let early : s5.submitted ≡ s.submitted =
                  Quiet-done (Quiet-readiness py x.0 p bigshot) g5
                  ∙ Quiet-done (λ l. Keeps-update _ (λ o. record o { start_state = some x.0 })) g4
                  ∙ Quiet-done (λ l. Keeps-require_fresh_session _ py host none none none) g3
                  ∙ Quiet-done (λ l. Keeps-demand _ profile "hunt.prepare has no profile") g2
                  ∙ Quiet-done (Quiet-no_arguments py host) g1 in
                let before : s9.submitted ≡ s.submitted =
                  Quiet-done (λ l. Keeps-demand _ (some "bigshot start") start_text) g9
                  ∙ Quiet-done (Quiet-readiness py y.0 p bigshot) g8
                  ∙ Quiet-done
                      (λ l.
                        Keeps-require_fresh_session _ py host (some x.0.generation) (some x.1) none)
                      g7
                  ∙ Quiet-done
                      (λ l.
                        Keeps-admit_and_start _ py host admitted_text "hunt preparation running")
                      g6
                  ∙ early in
                let after : t.submitted ≡ s10.submitted =
                  Quiet-done (Quiet-after_start py host x.0 y.1 p) h10 in
                record {
                  start = x.0;
                  current = y.0;
                  first = x.1;
                  second = y.1;
                  action_id = i;
                  start_shown =
                      Shows-still host s s2 x.0
                        (Still-world (Still-demand profile "hunt.prepare has no profile") g2
                          ∙ Still-world (Still-no_arguments py host) g1)
                        (Still-character (Still-demand profile "hunt.prepare has no profile") g2
                          ∙ Still-character (Still-no_arguments py host) g1)
                        (fresh-Shows py host none none none s2 s3 x g3);
                  start_seen = fresh-IsSeen py host none none none s2 s3 x g3;
                  current_seen =
                      fresh-IsSeen py host (some x.0.generation) (some x.1) none s6 s7 y g7;
                  sent =
                      Sends-around py host y.0 "bigshot start" i s9.submitted s.submitted
                        s10.submitted t.submitted before after
                        (subst (λ k. Sends py host y.0 k i s9.submitted s10.submitted) named
                          (run_broker_step-Sends py host fuel y.0 c
                            "starting registered Bigshot adapter" i false s9 s10 g10));
                  ends = after_start-EndsWith x.0 y.1 p s10 t e h10;
                }
    where
      start_text : String
      start_text = "unsupported bigshot entrypoint: start"

      admitted_text : String
      admitted_text = "hunt readiness and Bigshot handoff admitted"
