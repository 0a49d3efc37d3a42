-- ===== src/Watchers/Unknown.antt =====
-- Fields of a snapshot that are not known.
use lich_agent_bridge.Base.{
  String, Bool, true, false, ◌≡◌, ◌≢◌, refl, Option, none, some, List, [], ◌∷◌, if◌then◌else◌, ◌⊎◌,
  inl, inr, is_some, ap,
}
use Prim.Native.String.{◌++◌ as ◌<>◌}
use lich_agent_bridge.Base.Dict.{lookup, remove}
use lich_agent_bridge.Watchers.Types.{
  Env, Pass, Profile, Refusal, Result, ok, err, Session, Snapshot,
}
use lich_agent_bridge.Watchers.Conditions.{alert_at, set_condition}
use lich_agent_bridge.Watchers.Rules.{
  boolean_alerts, corpse_alerts, encumbrance_alert, forget_quiet, load_alert, spell_alerts,
  spells_alert, weapon_alert, wound_alert, keys_of,
}
use lich_agent_bridge.Watchers.Transitions.{replay}
use lich_agent_bridge.Watchers.Alerts.{alerts_before, key_of, reduce_tells}
use lich_agent_bridge.Watchers.Names.{encumbrance_level}
use lich_agent_bridge.Watchers.Reducer.{
  end_reduce, known_script_alerts, later_rules, reduce, reduce_entered, rules_from, reduce_profiled,
  run_rules, script_alerts,
}

-- A snapshot that knows nothing that the rules read.
pub record IsUnknown (s : Snapshot) : Type 0 where
  pub hands : s.hands ≡ none
  pub encumbrance : s.encumbrance ≡ none
  pub dead : s.dead ≡ none
  pub stunned : s.stunned ≡ none
  pub wounds : s.wounds ≡ none
  pub active_spells : s.active_spells ≡ none
  pub owners : s.owners ≡ none
  pub corpses : s.corpses ≡ none

module _ (env : Env) (snapshot : Snapshot) where
  if_same : {A : Type 0} (b : Bool) (p q : A) → q ≡ p → (if b then p else q) ≡ p
  if_same true p q h = refl
  if_same false p q h = h

  weapon_unknown :
      (profile : Profile) (p : Pass)
      → snapshot.hands ≡ none
      → weapon_alert env profile snapshot p ≡ p
  unfolding weapon_alert set_condition
  weapon_unknown profile p h = rw h (if_same _ p p refl)

  load_unknown :
      (profile : Profile) (p : Pass)
      → snapshot.encumbrance ≡ none
      → encumbrance_alert env profile snapshot p ≡ ok p
  unfolding encumbrance_alert load_alert encumbrance_level set_condition
  load_unknown profile p h = rw h (if_same _ (ok p) (ok p) refl)

  flags_unknown :
      (p : Pass)
      → snapshot.dead ≡ none
      → snapshot.stunned ≡ none
      → boolean_alerts env snapshot p ≡ p
  unfolding boolean_alerts set_condition
  flags_unknown p h k = rw (h, k) refl

  wounds_unknown :
      (profile : Profile) (p : Pass)
      → snapshot.wounds ≡ none
      → wound_alert env snapshot profile p ≡ p
  unfolding wound_alert set_condition
  wounds_unknown profile p h = rw h refl

  spells_unknown :
      (profile : Profile) (p : Pass)
      → snapshot.active_spells ≡ none
      → spell_alerts env profile snapshot p ≡ p
  unfolding spell_alerts spells_alert
  spells_unknown profile p h = rw h (if_same _ p p refl)

  scripts_unknown : (p : Pass) → snapshot.owners ≡ none → script_alerts env snapshot p ≡ p
  unfolding script_alerts known_script_alerts
  scripts_unknown p h = rw h refl

  either : (b : Bool) (p q : Pass) (P : Pass → Type 0) → P p → P q → P (if b then p else q)
  either true p q P h k = h
  either false p q P h k = k

  -- Forgetting counts changes no alert.
  forget_emits_nothing :
      (ids : List String) (p : Pass)
      → ((forget_quiet env ids p).emitted ≡ p.emitted)
        × ((forget_quiet env ids p).session.active ≡ p.session.active)
  unfolding forget_quiet
  forget_emits_nothing [] p = (refl, refl)
  forget_emits_nothing (i ∷ ids) p =
      let q = record p {
        session = record (p.session) {
          corpse_counts = remove i p.session.corpse_counts;
          corpse_evidence = remove i p.session.corpse_evidence;
        };
      } in
      either (is_some (alert_at ("unlooted_corpse:" <> i) p.session.active)) p q
        (λ r.
          ((forget_quiet env ids r).emitted ≡ p.emitted)
          × ((forget_quiet env ids r).session.active ≡ p.session.active))
        (forget_emits_nothing ids p) (forget_emits_nothing ids q)

  later_unknown :
      (profile : Profile) (p : Pass)
      → IsUnknown snapshot
      → (later_rules env profile snapshot p).emitted ≡ p.emitted
  unfolding later_rules corpse_alerts
  later_unknown profile p u =
      rw
        (
          flags_unknown p u.dead u.stunned,
          wounds_unknown profile p u.wounds,
          spells_unknown profile p u.active_spells,
          scripts_unknown p u.owners,
          u.corpses,
        )
        (forget_emits_nothing (keys_of p.session.corpse_counts) p).0

  rules_unknown :
      (profile : Profile) (p : Pass)
      → IsUnknown snapshot
      → ((run_rules env profile snapshot p).0 ≡ none)
        × ((run_rules env profile snapshot p).1.emitted ≡ p.emitted)
  unfolding run_rules rules_from
  rules_unknown profile p u =
      rw (weapon_unknown profile p u.hands)
        (rw (load_unknown profile p u.encumbrance) (refl, later_unknown profile p u))

  ended_quietly :
      (states : List (String × Session)) (raised : Option Refusal) (p : Pass)
      → raised ≡ none
      → p.emitted ≡ []
      → (end_reduce env snapshot states raised p).0 ≡ ok []
  unfolding end_reduce
  ended_quietly states none p r e = ap ok e
  ended_quietly states (some x) p r e = cc

  entered_unknown :
      (profile : Profile) (states : List (String × Session)) (r : Result Session)
      → IsUnknown snapshot
      → ((reduce_entered env profile snapshot states r).0 ≡ ok [])
        ⊎ ((e : Refusal) × (reduce_entered env profile snapshot states r ≡ (err e, states)))
  unfolding reduce_entered
  entered_unknown profile states (err e) u = inr (e, refl)
  entered_unknown profile states (ok s) u =
      let (raised, quiet) = rules_unknown profile (record { session = s; emitted = [] }) u in
      inl (ended_quietly states _ _ raised quiet)

  profiled_unknown :
      (o : Option Profile) (states : List (String × Session))
      → IsUnknown snapshot
      → ((reduce_profiled env o snapshot states).0 ≡ ok [])
        ⊎ ((e : Refusal) × (reduce_profiled env o snapshot states ≡ (err e, states)))
  unfolding reduce_profiled
  profiled_unknown none states u = inr (_, refl)
  profiled_unknown (some profile) states u = entered_unknown profile states _ u

  reduced_unknown :
      (states : List (String × Session))
      → IsUnknown snapshot
      → ((reduce env snapshot states).0 ≡ ok [])
        ⊎ ((e : Refusal) × (reduce env snapshot states ≡ (err e, states)))
  unfolding reduce
  reduced_unknown states u = profiled_unknown _ states u

  -- An accepted snapshot that leaves the alerts of its character as they were, or without any if it
  -- starts a session, and the other states too.
  pub record IsQuiet (states after : List (String × Session)) : Type 0 where
    pub accepted : reduce env snapshot states ≡ (ok [], after)
    pub session : Session
    pub kept : lookup (key_of env snapshot) after ≡ some session
    pub active :
        session.active ≡ alerts_before env (lookup (key_of env snapshot) states) snapshot.generation
    pub others : (k : String) → k ≢ key_of env snapshot → lookup k after ≡ lookup k states

  accepted-IsQuiet :
      (states : List (String × Session))
      → (reduce env snapshot states).0 ≡ ok []
      → IsQuiet states (reduce env snapshot states).1
  unfolding replay
  accepted-IsQuiet states h =
      let whole : reduce env snapshot states ≡ (ok [], (reduce env snapshot states).1) =
        ap (λ x. (x, (reduce env snapshot states).1)) h in
      let told = reduce_tells env snapshot states _ [] whole in
      record {
        accepted = whole;
        session = told.session;
        kept = told.kept;
        active = told.reduced.told;
        others = told.others;
      }

  -- A snapshot that knows nothing that the rules read neither starts nor ends an alert: it is
  -- accepted, with nothing emitted, with the active alerts of its character as they were in that
  -- session (none, if it starts one) and the other states unchanged; or refused, and then no state
  -- changes.
  pub unknown-IsQuiet :
      (states : List (String × Session))
      → IsUnknown snapshot
      → IsQuiet states (reduce env snapshot states).1
        ⊎ ((e : Refusal) × (reduce env snapshot states ≡ (err e, states)))
  unknown-IsQuiet states u = elim (reduced_unknown states u) [
    | inl h ↦ inl (accepted-IsQuiet states h)
    | inr h ↦ inr h
  ]
