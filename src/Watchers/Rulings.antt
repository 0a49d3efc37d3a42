-- ===== src/Watchers/Rulings.antt =====
-- Every rule of a pass only moves on, by alerts that are news.
use lich_agent_bridge.Base.{
  ◌<◌, String, Bool, true, false, ◌≡◌, refl, Option, none, some, List, [], ◌∷◌, leb, if◌then◌else◌,
  length, length-append, arith, Bool-cases, inl, inr,
}
use lich_agent_bridge.Watchers.Types.{
  Alert, Env, Evidence, Pass, Severity, Snapshot, Status, cleared, info,
}
use lich_agent_bridge.Watchers.Conditions.{
  alert_at, clear_alert, raise_alert, same_severity, set_condition, set_failing, set_holding,
  without,
}
use lich_agent_bridge.Watchers.Transitions.{
  follow, length-without, length-without_there, Moves, Moves-refl, Moves-trans, remember_all,
  replay,
}
use lich_agent_bridge.Watchers.Rules.{for_each}

module _ (env : Env) (snapshot : Snapshot) where
  -- The alert that `raise_alert` makes.
  abbrev raised : String → Severity → Evidence → Alert
  raised code severity evidence = record {
    code = code;
    severity = severity;
    status = Status.active;
    character = snapshot.character;
    generation = snapshot.generation;
    snapshot_sequence = snapshot.sequence;
    evidence = evidence;
  }

  raise_new-Moves :
      (code : String) (severity : Severity) (evidence : Evidence) (p : Pass)
      → alert_at code p.session.active ≡ none
      → length p.session.active < env.active_limit
      → Moves env snapshot p (raise_alert env snapshot code severity evidence p)
  unfolding raise_alert replay follow remember_all
  raise_new-Moves code severity evidence p found room = record {
    alerts = raised code severity evidence ∷ [];
    emitted = refl;
    active = refl;
    history = refl;
    news = (rw found refl, tt);
    dated = (record { character = refl; generation = refl; sequence = refl }, tt);
    generation = refl;
    bounded = λ b. omega (
      arith,
      length-append (without code p.session.active) (raised code severity evidence ∷ []),
      length-without code p.session.active,
    );
  }

  raise_again-Moves :
      (code : String) (severity : Severity) (evidence : Evidence) (p : Pass) (a : Alert)
      → alert_at code p.session.active ≡ some a
      → same_severity a.severity severity ≡ false
      → Moves env snapshot p (raise_alert env snapshot code severity evidence p)
  unfolding raise_alert replay follow remember_all
  raise_again-Moves code severity evidence p a found other = record {
    alerts = raised code severity evidence ∷ [];
    emitted = refl;
    active = refl;
    history = refl;
    news = (rw (found, other) refl, tt);
    dated = (record { character = refl; generation = refl; sequence = refl }, tt);
    generation = refl;
    bounded = λ b. omega (
      arith,
      length-append (without code p.session.active) (raised code severity evidence ∷ []),
      length-without_there code p.session.active a found,
    );
  }

  clear_alert-Moves :
      (code : String) (evidence : Evidence) (p : Pass) (a : Alert)
      → alert_at code p.session.active ≡ some a
      → Moves env snapshot p (clear_alert env snapshot code evidence p)
  unfolding clear_alert replay follow remember_all
  clear_alert-Moves code evidence p a found = record {
    alerts =
        record {
          code = code;
          severity = info;
          status = cleared;
          character = snapshot.character;
          generation = snapshot.generation;
          snapshot_sequence = snapshot.sequence;
          evidence = evidence;
        }
        ∷ [];
    emitted = refl;
    active = refl;
    history = refl;
    news = (rw found refl, tt);
    dated = (record { character = refl; generation = refl; sequence = refl }, tt);
    generation = refl;
    bounded = λ b. omega (arith, length-without code p.session.active);
  }

  holding-Moves :
      (o : Option Alert) (code : String) (severity : Severity) (evidence : Evidence) (p : Pass)
      → alert_at code p.session.active ≡ o
      → Moves env snapshot p (set_holding env o snapshot code severity evidence p)
  unfolding set_holding
  holding-Moves none code severity evidence p e =
      elim (Bool-cases (leb env.active_limit (length p.session.active))) [
        | inl h ↦ rw h (Moves-refl env snapshot p)
        | inr h ↦ rw h (raise_new-Moves code severity evidence p e (ground arith))
      ]
  holding-Moves (some a) code severity evidence p e =
      elim (Bool-cases (same_severity a.severity severity)) [
        | inl h ↦ rw h (Moves-refl env snapshot p)
        | inr h ↦ rw h (raise_again-Moves code severity evidence p a e h)
      ]

  failing-Moves :
      (o : Option Alert) (code : String) (evidence : Evidence) (p : Pass)
      → alert_at code p.session.active ≡ o
      → Moves env snapshot p (set_failing env o snapshot code evidence p)
  unfolding set_failing
  failing-Moves none code evidence p e = Moves-refl env snapshot p
  failing-Moves (some a) code evidence p e = clear_alert-Moves code evidence p a e

  pub set_condition-Moves :
      (code : String) (condition : Option Bool) (severity : Severity) (evidence : Evidence)
      (p : Pass)
      → Moves env snapshot p (set_condition env snapshot code condition severity evidence p)
  unfolding set_condition
  set_condition-Moves code none severity evidence p = Moves-refl env snapshot p
  set_condition-Moves code (some true) severity evidence p =
      holding-Moves (alert_at code p.session.active) code severity evidence p refl
  set_condition-Moves code (some false) severity evidence p =
      failing-Moves (alert_at code p.session.active) code evidence p refl

  -- A condition that is set only under a test.
  pub unless-Moves :
      (b : Bool) (p q : Pass) → Moves env snapshot p q → Moves env snapshot p (if b then p else q)
  unless-Moves true p q m = Moves-refl env snapshot p
  unless-Moves false p q m = m

  pub for_each-Moves :
      {A : Type 0} (f : A → Pass → Pass)
      → ((x : A) (p : Pass) → Moves env snapshot p (f x p))
      → (l : List A) (p : Pass) → Moves env snapshot p (for_each f l p)
  unfolding for_each
  for_each-Moves f h [] p = Moves-refl env snapshot p
  for_each-Moves f h (x ∷ l) p = Moves-trans env (h x p) (for_each-Moves f h l (f x p))
