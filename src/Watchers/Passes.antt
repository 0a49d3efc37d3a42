-- ===== src/Watchers/Passes.antt =====
-- Every pass of the rules only moves on.
use lich_agent_bridge.Base.{
  ℕ, String, Bool, true, false, ◌≡◌, refl, subst, Option, none, some, List, [], ◌∷◌, if◌then◌else◌,
}
use lich_agent_bridge.Watchers.Types.{Env, Pass, Result, ok, err, Snapshot}
use lich_agent_bridge.Watchers.Transitions.{Moves, Moves-quiet, Moves-refl, Moves-trans}
use lich_agent_bridge.Watchers.Types.{Corpse, Profile}
use lich_agent_bridge.Watchers.Rules.{
  absent_alert, boolean_alerts, corpse_alert, corpse_alerts, encumbrance_alert, forget_absent,
  forget_quiet, ids_of, keys_of, load_alert, load_alert_of, spell_alert, spell_alerts, spells_alert,
  weapon_alert, wound_alert,
}
use lich_agent_bridge.Watchers.Names.{encumbrance_level}
use lich_agent_bridge.Watchers.Reducer.{
  known_script_alerts, lane_alert, lane_alert_of, later_rules, released_alert, rules_from,
  run_rules, script_alerts,
}
use lich_agent_bridge.Watchers.Rulings.{set_condition-Moves, unless-Moves, for_each-Moves}

module _ (env : Env) (snapshot : Snapshot) where
  weapon_alert-Moves :
      (profile : Profile) (p : Pass) → Moves env snapshot p (weapon_alert env profile snapshot p)
  unfolding weapon_alert
  weapon_alert-Moves profile p =
      unless-Moves env snapshot _ p _ (set_condition-Moves env snapshot _ _ _ _ p)

  load_alert-Moves :
      (profile : Profile) (level : Option ℕ) (p : Pass)
      → Moves env snapshot p (load_alert env profile snapshot level p)
  unfolding load_alert
  load_alert-Moves profile none p = set_condition-Moves env snapshot _ _ _ _ p
  load_alert-Moves profile (some level) p = set_condition-Moves env snapshot _ _ _ _ p

  encumbrance_alert-Moves :
      (profile : Profile) (p q : Pass)
      → encumbrance_alert env profile snapshot p ≡ ok q
      → Moves env snapshot p q
  unfolding encumbrance_alert
  encumbrance_alert-Moves profile p q = tested _ (encumbrance_level env snapshot.encumbrance)
    where
      tested :
          (t : Bool) (r : Result (Option ℕ))
          → (if t then ok p else load_alert_of env profile snapshot r p) ≡ ok q
          → Moves env snapshot p q
      tested true r h =
          let same : p ≡ q = cc in subst (Moves env snapshot p) same (Moves-refl env snapshot p)
      tested false (err e) h = cc
      tested false (ok level) h =
          let same : load_alert env profile snapshot level p ≡ q = cc in
          subst (Moves env snapshot p) same (load_alert-Moves profile level p)

  boolean_alerts-Moves : (p : Pass) → Moves env snapshot p (boolean_alerts env snapshot p)
  unfolding boolean_alerts
  boolean_alerts-Moves p =
      Moves-trans env (set_condition-Moves env snapshot _ _ _ _ p)
        (set_condition-Moves env snapshot _ _ _ _ _)

  wound_alert-Moves :
      (profile : Profile) (p : Pass) → Moves env snapshot p (wound_alert env snapshot profile p)
  unfolding wound_alert
  wound_alert-Moves profile p = set_condition-Moves env snapshot _ _ _ _ p

  spells_alert-Moves :
      (required : List String) (spells : Option (List String)) (p : Pass)
      → Moves env snapshot p (spells_alert env required snapshot spells p)
  unfolding spells_alert spell_alert
  spells_alert-Moves required none p = Moves-refl env snapshot p
  spells_alert-Moves required (some ids) p =
      Moves-trans env (Moves-quiet env snapshot p _ refl refl refl refl)
        (for_each-Moves env snapshot _ (λ x q. set_condition-Moves env snapshot _ _ _ _ q) _ _)

  spell_alerts-Moves :
      (profile : Profile) (p : Pass) → Moves env snapshot p (spell_alerts env profile snapshot p)
  unfolding spell_alerts
  spell_alerts-Moves profile p = unless-Moves env snapshot _ p _ (spells_alert-Moves _ _ p)

  -- The other way round.
  when-Moves :
      (b : Bool) (p q : Pass) → Moves env snapshot p q → Moves env snapshot p (if b then q else p)
  when-Moves true p q m = m
  when-Moves false p q m = Moves-refl env snapshot p

  forget_quiet-Moves :
      (ids : List String) (p : Pass) → Moves env snapshot p (forget_quiet env ids p)
  unfolding forget_quiet
  forget_quiet-Moves [] p = Moves-refl env snapshot p
  forget_quiet-Moves (i ∷ ids) p =
      Moves-trans env
        (unless-Moves env snapshot _ p _ (Moves-quiet env snapshot p _ refl refl refl refl))
        (forget_quiet-Moves ids _)

  forget_absent-Moves :
      (here ids : List String) (p : Pass) → Moves env snapshot p (forget_absent env here ids p)
  unfolding forget_absent
  forget_absent-Moves here [] p = Moves-refl env snapshot p
  forget_absent-Moves here (i ∷ ids) p =
      Moves-trans env
        (unless-Moves env snapshot _ p _ (Moves-quiet env snapshot p _ refl refl refl refl))
        (forget_absent-Moves here ids _)

  corpse_alert-Moves :
      (corpse : Corpse) (p : Pass) → Moves env snapshot p (corpse_alert env snapshot corpse p)
  unfolding corpse_alert
  corpse_alert-Moves corpse p =
      Moves-trans env (Moves-quiet env snapshot p _ refl refl refl refl)
        (set_condition-Moves env snapshot _ _ _ _ _)

  absent_alert-Moves :
      (here : List String) (code : String) (p : Pass)
      → Moves env snapshot p (absent_alert env snapshot here code p)
  unfolding absent_alert
  absent_alert-Moves here code p =
      when-Moves _ p _
        (unless-Moves env snapshot _ p _ (set_condition-Moves env snapshot _ _ _ _ p))

  corpse_alerts-Moves :
      (corpses : Option (List Corpse)) (p : Pass)
      → Moves env snapshot p (corpse_alerts env snapshot corpses p)
  unfolding corpse_alerts
  corpse_alerts-Moves none p = forget_quiet-Moves (keys_of p.session.corpse_counts) p
  corpse_alerts-Moves (some corpses) p =
      Moves-trans env (forget_absent-Moves (ids_of env corpses) (keys_of p.session.corpse_counts) p)
        (Moves-trans env (for_each-Moves env snapshot _ corpse_alert-Moves corpses _)
          (for_each-Moves env snapshot _ (absent_alert-Moves _) _ _))

  lane_alert_of-Moves :
      (o : Option String) (scripts : List String) (current : Option String) (lane : String)
      (p : Pass)
      → Moves env snapshot p (lane_alert_of env o snapshot scripts current lane p)
  unfolding lane_alert_of
  lane_alert_of-Moves none scripts current lane p = Moves-refl env snapshot p
  lane_alert_of-Moves (some owner) scripts current lane p =
      set_condition-Moves env snapshot _ _ _ _ p

  released_alert-Moves :
      (current : List String) (code : String) (p : Pass)
      → Moves env snapshot p (released_alert env snapshot current code p)
  unfolding released_alert
  released_alert-Moves current code p =
      when-Moves _ p _ (set_condition-Moves env snapshot _ _ _ _ p)

  known_script_alerts-Moves :
      (owners : Option (List (String × Option String))) (scripts : Option (List String)) (p : Pass)
      → Moves env snapshot p (known_script_alerts env snapshot owners scripts p)
  unfolding known_script_alerts lane_alert
  known_script_alerts-Moves none scripts p = Moves-refl env snapshot p
  known_script_alerts-Moves (some owners) none p = Moves-refl env snapshot p
  known_script_alerts-Moves (some owners) (some scripts) p =
      Moves-trans env
        (for_each-Moves env snapshot _ (λ lane q. lane_alert_of-Moves _ scripts _ lane q) _ p)
        (for_each-Moves env snapshot _ (released_alert-Moves _) _ _)

  script_alerts-Moves : (p : Pass) → Moves env snapshot p (script_alerts env snapshot p)
  unfolding script_alerts
  script_alerts-Moves p = known_script_alerts-Moves _ _ p

  later_rules-Moves :
      (profile : Profile) (p : Pass) → Moves env snapshot p (later_rules env profile snapshot p)
  unfolding later_rules
  later_rules-Moves profile p = Moves-trans env (boolean_alerts-Moves p) (
      Moves-trans env (wound_alert-Moves profile _) (
        Moves-trans env (spell_alerts-Moves profile _)
          (Moves-trans env (script_alerts-Moves _) (corpse_alerts-Moves _ _))))

  rules_from-Moves :
      (profile : Profile) (weapon : Pass) (r : Result Pass)
      → encumbrance_alert env profile snapshot weapon ≡ r
      → Moves env snapshot weapon (rules_from env profile snapshot weapon r).1
  unfolding rules_from
  rules_from-Moves profile weapon (err e) h = Moves-refl env snapshot weapon
  rules_from-Moves profile weapon (ok p) h =
      Moves-trans env (encumbrance_alert-Moves profile weapon p h) (later_rules-Moves profile p)

  -- All rules together only move on, as far as they come.
  pub run_rules-Moves :
      (profile : Profile) (p : Pass) → Moves env snapshot p (run_rules env profile snapshot p).1
  unfolding run_rules
  run_rules-Moves profile p =
      Moves-trans env (weapon_alert-Moves profile p) (rules_from-Moves profile _ _ refl)
