-- ===== src/Operations/Returned/Loot.antt =====
-- What `room.loot` has seen when it returns.
use lich_agent_bridge.Base.{
  subst, ap, ◌∙◌, ◌≡◌, refl, arith, ℕ, String, true, false, not, Option, none, some, List, [], ◌∷◌,
}
use lich_agent_bridge.Base.Dict.{lookup}
use lich_agent_bridge.Operations.Types.{Session}
use lich_agent_bridge.Operations.Host.{Host, Texts}
use lich_agent_bridge.Operations.Monad.{Machine, done}
use lich_agent_bridge.Operations.Scripts.{eloot, intersects, is_completed, is_nil, is_running}
use lich_agent_bridge.Operations.Scripts.{adapter_command}
use lich_agent_bridge.Operations.Submissions.{
  Keeps-admit_and_start, Keeps-demand, Keeps-require_fresh_session, Keeps-update,
}
use lich_agent_bridge.Operations.Returned.Sent.{
  IsStarted, Sends, Sends-around, Quiet-done, run_broker_step-Sends,
}
use lich_agent_bridge.Operations.Returned.Quiet.{
  Quiet-after_sweep, Quiet-conflicts, Quiet-loot_start, Quiet-no_arguments, Still-no_arguments,
}
use lich_agent_bridge.Operations.Returned.Still.{
  Shows-still, fresh-Shows, Still-character, Still-world,
}
use lich_agent_bridge.Operations.Readiness.{validate_room_loot_start, verify_room_loot_end}
use lich_agent_bridge.Operations.Handlers.{after_sweep, execute_room_loot}
use lich_agent_bridge.Operations.Returned.{
  after-bind, bind-done, demand-done, pure-done, require-done,
}
use lich_agent_bridge.Operations.Returned.Fresh.{
  EndsWith, fresh-IsFreshAfter, fresh-IsSeen, recorded-end,
}

-- None of the corpses of the first session is in the second, which has no creature; and there ELoot
-- has finished, with the receipt of the action.
pub record IsSwept (py : Texts) (i : String) (x y : Session) : Type 0 where
  pub corpses : List String
  pub left : List String
  pub were : x.nearby_corpses ≡ some corpses
  pub are : y.nearby_corpses ≡ some left
  pub gone : intersects corpses left ≡ false
  pub creatures : y.nearby_creatures ≡ some []
  pub statuses : List (String × String)
  pub scripts : List String
  pub known_statuses : y.script_status ≡ some statuses
  pub completed : is_completed py i (lookup "eloot" statuses) ≡ true
  pub known_scripts : y.scripts ≡ some scripts
  pub finished : is_running py "eloot" scripts ≡ false

module _ {W R : Type 0} (py : Texts) (host : Host W R) where
  loot_start-corpses :
      (x : Session) (o : Option (List String)) (s t : Machine W) (l : List String)
      → validate_room_loot_start py x o s ≡ (done l, t)
      → x.nearby_corpses ≡ some l
  unfolding validate_room_loot_start
  loot_start-corpses x o s t l h =
      let (_, s1, _, h1) = bind-done _ _ s t l h in
      let (_, s2, _, h2) = bind-done _ _ s1 t l h1 in
      let (k, s3, g3, h3) = bind-done _ _ s2 t l h2 in
      let (_, s4, _, h4) = bind-done _ _ s3 t l h3 in
      let (_, s5, _, h5) = bind-done _ _ s4 t l h4 in
      let (_, s6, _, h6) = bind-done _ _ s5 t l h5 in
      let (_, s7, _, h7) = bind-done _ _ s6 t l h6 in
      let (_, s8, _, h8) = bind-done _ _ s7 t l h7 in
      demand-done x.nearby_corpses _ s2 s3 k g3 ∙ ap some (pure-done k l s8 t h8).0

  nil-empty : (l : List String) → is_nil l ≡ true → l ≡ []
  nil-empty [] h = refl
  nil-empty (x ∷ l) h = cc

  loot_end-IsSwept :
      (x y : Session) (l : List String) (i : String) (s t : Machine W) (r : Unit {0})
      → x.nearby_corpses ≡ some l
      → verify_room_loot_end py y l i s ≡ (done r, t)
      → IsSwept py i x y
  unfolding verify_room_loot_end
  loot_end-IsSwept x y l i s t r were h =
      let (creatures, s1, g1, h1) = bind-done _ _ s t r h in
      let (a, s2, g2, h2) = bind-done _ _ s1 t r h1 in
      let (k, s3, g3, h3) = bind-done _ _ s2 t r h2 in
      let (b, s4, g4, h4) = bind-done _ _ s3 t r h3 in
      let (statuses, s5, g5, h5) = bind-done _ _ s4 t r h4 in
      let (c, s6, g6, h6) = bind-done _ _ s5 t r h5 in
      let (scripts, s7, g7, h7) = bind-done _ _ s6 t r h6 in
      record {
        corpses = l;
        left = k;
        were = were;
        are = demand-done y.nearby_corpses _ s2 s3 k g3;
        gone = ground (arith, require-done (not (intersects l k)) _ s3 s4 b g4);
        creatures =
            demand-done y.nearby_creatures _ s s1 creatures g1
            ∙ ap some (nil-empty creatures (require-done _ _ s1 s2 a g2));
        statuses = statuses;
        scripts = scripts;
        known_statuses = demand-done y.script_status _ s4 s5 statuses g5;
        completed = require-done _ _ s5 s6 c g6;
        known_scripts = demand-done y.scripts _ s6 s7 scripts g7;
        finished =
            ground (arith, require-done (not (is_running py eloot.name scripts)) _ s7 t r h7);
      }

  after_sweep-EndsWith :
      (x : Session) (n : ℕ) (l : List String) (i : String) (s t : Machine W) (e : String)
      → x.nearby_corpses ≡ some l
      → after_sweep py host x n l i s ≡ (done e, t)
      → EndsWith py host x.generation n (IsSwept py i x) t
  unfolding after_sweep
  after_sweep-EndsWith x n l i s t e were h =
      let (y, s1, g1, h1) = bind-done _ _ s t e h in
      let (r, s2, g2, h2) = bind-done _ _ s1 t e h1 in
      let (u, s4, g4, h4) = bind-done _ _ s2 t e h2 in
      record {
        end = y.0;
        sequence = y.1;
        recorded = recorded-end py host y.0 _ e s2 s4 t u g4 h4;
        after = fresh-IsFreshAfter py host x.generation n s s1 y g1;
        holds = loot_end-IsSwept x y.0 l i s1 s2 r were g2;
      }

  pub execute_room_loot-IsStarted :
      (fuel : ℕ) (s t : Machine W) (e : String)
      → execute_room_loot py host fuel s ≡ (done e, t)
      → IsStarted py host "eloot loot" (IsSwept py) s t
  unfolding execute_room_loot adapter_command
  execute_room_loot-IsStarted fuel s t e h = after-bind _ _ s t e _ h λ _ s1 g1 h1.
      after-bind _ _ s1 t e _ h1 λ x s3 g3 h3. after-bind _ _ s3 t e _ h3 λ _ s4 g4 h4.
        after-bind _ _ s4 t e _ h4 λ l s5 g5 h5. after-bind _ _ s5 t e _ h5 λ _ s6 g6 h6.
          after-bind _ _ s6 t e _ h6 λ _ s7 g7 h7. after-bind _ _ s7 t e _ h7 λ y s8 g8 h8.
            after-bind _ _ s8 t e _ h8 λ _ s9 g9 h9. after-bind _ _ s9 t e _ h9 λ _ s10 g10 h10.
              after-bind _ _ s10 t e _ h10 λ c s11 g11 h11.
                after-bind _ _ s11 t e _ h11 λ i s12 g12 h12.
                  let named : c ≡ "eloot loot" = cc (demand-done _ _ s10 s11 c g11) in
                  let early : s7.submitted ≡ s.submitted =
                    Quiet-done
                      (λ l.
                        Keeps-admit_and_start _ py host admitted_text
                          "current-room loot sweep running")
                      g7
                    ∙ Quiet-done (Quiet-conflicts py x.0 eloot) g6
                    ∙ Quiet-done (Quiet-loot_start py x.0 none) g5
                    ∙ Quiet-done (λ l. Keeps-update _ (λ o. record o { start_state = some x.0 })) g4
                    ∙ Quiet-done (λ l. Keeps-require_fresh_session _ py host none none none) g3
                    ∙ Quiet-done (Quiet-no_arguments py host) g1 in
                  let before : s11.submitted ≡ s.submitted =
                    Quiet-done (λ l. Keeps-demand _ (some "eloot loot") entry_text) g11
                    ∙ Quiet-done (Quiet-conflicts py y.0 eloot) g10
                    ∙ Quiet-done (Quiet-loot_start py y.0 (some l)) g9
                    ∙ Quiet-done
                        (λ l.
                          Keeps-require_fresh_session _ py host (some x.0.generation) (some x.1)
                            none)
                        g8
                    ∙ early in
                  let after : t.submitted ≡ s12.submitted =
                    Quiet-done (Quiet-after_sweep py host x.0 y.1 l i) h12 in
                  record {
                    start = x.0;
                    current = y.0;
                    first = x.1;
                    second = y.1;
                    action_id = i;
                    start_shown =
                        Shows-still host s s1 x.0 (Still-world (Still-no_arguments py host) g1)
                          (Still-character (Still-no_arguments py host) g1)
                          (fresh-Shows py host none none none s1 s3 x g3);
                    start_seen = fresh-IsSeen py host none none none s1 s3 x g3;
                    current_seen =
                        fresh-IsSeen py host (some x.0.generation) (some x.1) none s7 s8 y g8;
                    sent =
                        Sends-around py host y.0 "eloot loot" i s11.submitted s.submitted
                          s12.submitted t.submitted before after
                          (subst (λ k. Sends py host y.0 k i s11.submitted s12.submitted) named
                            (run_broker_step-Sends py host fuel y.0 c
                              "running registered ELoot current-room sweep" i false s11 s12 g12));
                    ends =
                        after_sweep-EndsWith x.0 y.1 l i s12 t e
                          (loot_start-corpses x.0 none s4 s5 l g5) h12;
                  }
    where
      entry_text : String
      entry_text = "unsupported eloot entrypoint: loot_current_room"

      admitted_text : String
      admitted_text = "safe current-room loot sweep admitted"
