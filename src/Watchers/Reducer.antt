-- ===== src/Watchers/Reducer.antt =====
-- `_script_alerts` and `reduce` of src/lich_agent_bridge/watchers.py.
use Prim.Native.String.{◌++◌ as ◌<>◌}
use lich_agent_bridge.Base.{
  ℕ, String, Bool, false, ◌&&◌, not, Option, none, some, List, [], ◌∷◌, ◌++◌, leb, map,
  if◌then◌else◌, str_eq, is_some,
}
use lich_agent_bridge.Base.Dict.{lookup, insert, member}
use lich_agent_bridge.Base.Sort.{sorted}
use lich_agent_bridge.Watchers.Types.{
  Alert, Env, Evidence, Pass, Profile, no_profile, sequence_not_increasing, Refusal, Result, ok,
  err, Session, warning, Snapshot,
}
use lich_agent_bridge.Watchers.Names.{after_prefix}
use lich_agent_bridge.Watchers.Conditions.{alert_at, set_condition}
use lich_agent_bridge.Watchers.Rules.{
  add_all, boolean_alerts, codes_of, corpse_alerts, encumbrance_alert, for_each, keys_of, or_else,
  owner_at, spell_alerts, weapon_alert, wound_alert,
}

abbrev pub owners_of : Option Snapshot → Option (List (String × Option String))
owners_of none = none
owners_of (some s) = s.owners

abbrev pub scripts_of : Option Snapshot → Option (List String)
scripts_of none = none
scripts_of (some s) = s.scripts

abbrev pub lanes_of : Option (List (String × Option String)) → List String
lanes_of none = []
lanes_of (some owners) = keys_of owners

module _ (env : Env) where
  open env use {casefold, profiles, set_order}

  abbrev pub script_code : String → String → String
  script_code lane owner_key = "owning_script_missing:" <> (lane <> (":" <> owner_key))

  abbrev pub runs : String → Option (List String) → Bool
  runs owner_key none = false
  runs owner_key (some scripts) = member owner_key (map casefold scripts)

  abbrev pub is_owner : String → Option String → Bool
  is_owner owner_key none = false
  is_owner owner_key (some owner) = str_eq (casefold owner) owner_key

  -- The condition of one lane: a running owner is gone, or an alert's owner still is.
  unfoldable pub is_missing :
      Option Snapshot → List String → Option String → String → String → Bool → Bool
  is_missing previous scripts current_owner lane owner_key alerted =
      let here = member owner_key (map casefold scripts) in
      if alerted
      then is_some current_owner && not here
      else is_owner owner_key (owner_at lane (owners_of previous))
        && runs owner_key (scripts_of previous)
        && not here

  unfoldable pub lane_alert_of :
      Option String → Snapshot → List String → Option String → String → Pass → Pass
  unfolding is_missing
  lane_alert_of none snapshot scripts current_owner lane p = p
  lane_alert_of (some owner) snapshot scripts current_owner lane p =
      let code = script_code lane (casefold owner) in
      set_condition env snapshot code
        (some (
          is_missing p.session.previous scripts current_owner lane (casefold owner)
            (is_some (alert_at code p.session.active))))
        warning (Evidence.script lane owner (sorted scripts)) p

  abbrev pub lane_owner : Option Snapshot → Snapshot → String → Option String
  lane_owner previous snapshot lane =
      or_else (owner_at lane snapshot.owners) (owner_at lane (owners_of previous))

  -- One round of the loop over the lanes.
  unfoldable pub lane_alert : Snapshot → List String → String → Pass → Pass
  unfolding lane_alert_of
  lane_alert snapshot scripts lane p =
      lane_alert_of (lane_owner p.session.previous snapshot lane) snapshot scripts
        (owner_at lane snapshot.owners) lane p

  abbrev code_for : String → Option String → List String
  code_for lane none = []
  code_for lane (some owner) = script_code lane (casefold owner) ∷ []

  -- `current_keys`
  unfoldable pub current_keys : Option Snapshot → Snapshot → List String → List String
  current_keys previous snapshot [] = []
  current_keys previous snapshot (lane ∷ rest) =
      code_for lane (lane_owner previous snapshot lane) ++ current_keys previous snapshot rest

  -- One round of the loop over the alerts whose owner is gone.
  unfoldable pub released_alert : Snapshot → List String → String → Pass → Pass
  released_alert snapshot current code p =
      if is_some (after_prefix "owning_script_missing:" code) && not (member code current)
      then set_condition env snapshot code (some false) warning Evidence.owner_released p
      else p

  unfoldable pub known_script_alerts :
      Snapshot → Option (List (String × Option String)) → Option (List String) → Pass → Pass
  unfolding lane_alert released_alert current_keys
  known_script_alerts snapshot none scripts p = p
  known_script_alerts snapshot (some owners) none p = p
  known_script_alerts snapshot (some owners) (some scripts) p =
      let lanes =
        set_order
          (add_all (keys_of owners) (add_all (lanes_of (owners_of p.session.previous)) [])) in
      let q = for_each (lane_alert snapshot scripts) lanes p in
      for_each (released_alert snapshot (current_keys p.session.previous snapshot lanes))
        (codes_of q.session.active) q

  -- `_script_alerts`
  unfoldable pub script_alerts : Snapshot → Pass → Pass
  unfolding known_script_alerts
  script_alerts snapshot p = known_script_alerts snapshot snapshot.owners snapshot.scripts p

  -- `_new_state`
  abbrev pub new_state : String → Session
  new_state generation = record {
    generation = generation;
    sequence = none;
    active = [];
    history = [];
    corpse_counts = [];
    corpse_evidence = [];
    seen_required_spells = [];
    previous = none;
  }

  abbrev pub is_late : Option ℕ → ℕ → Bool
  is_late none n = false
  is_late (some last) n = leb n last

  -- The state that a snapshot is compared with.
  unfoldable pub enter : Option Session → Snapshot → Result Session
  enter none snapshot = ok (new_state snapshot.generation)
  enter (some s) snapshot =
      if not (str_eq s.generation snapshot.generation)
      then ok (new_state snapshot.generation)
      else if is_late s.sequence snapshot.sequence
      then err sequence_not_increasing
      else ok s

  -- The rules after `_encumbrance_alert`, in their order.
  unfoldable pub later_rules : Profile → Snapshot → Pass → Pass
  later_rules profile snapshot p = corpse_alerts env snapshot snapshot.corpses (
      script_alerts snapshot (
        spell_alerts env profile snapshot
          (wound_alert env snapshot profile (boolean_alerts env snapshot p))))

  unfoldable pub rules_from : Profile → Snapshot → Pass → Result Pass → Option Refusal × Pass
  rules_from profile snapshot weapon (err e) = (some e, weapon)
  rules_from profile snapshot weapon (ok p) = (none, later_rules profile snapshot p)

  -- The rules, in their order, and what one of them raises: the changes of those before it stay.
  unfoldable pub run_rules : Profile → Snapshot → Pass → Option Refusal × Pass
  run_rules profile snapshot p =
      let weapon = weapon_alert env profile snapshot p in
      rules_from profile snapshot weapon (encumbrance_alert env profile snapshot weapon)

  abbrev pub finish : Snapshot → Pass → Session
  finish snapshot p = record (p.session) {
    sequence = some snapshot.sequence;
    previous = some snapshot;
  }

  -- The end of `reduce`, where the rules have raised or not.
  unfoldable pub end_reduce :
      Snapshot
      → List (String × Session)
      → Option Refusal
      → Pass
      → Result (List Alert) × List (String × Session)
  end_reduce snapshot states (some e) p =
      (err e, insert (casefold snapshot.character) p.session states)
  end_reduce snapshot states none p =
      (ok p.emitted, insert (casefold snapshot.character) (finish snapshot p) states)

  unfoldable pub reduce_entered :
      Profile
      → Snapshot
      → List (String × Session)
      → Result Session
      → Result (List Alert) × List (String × Session)
  unfolding run_rules rules_from later_rules end_reduce
  reduce_entered profile snapshot states (err e) = (err e, states)
  reduce_entered profile snapshot states (ok s) =
      let (raised, p) = run_rules profile snapshot (record { session = s; emitted = [] }) in
      end_reduce snapshot states raised p

  unfoldable pub reduce_profiled :
      Option Profile
      → Snapshot
      → List (String × Session)
      → Result (List Alert) × List (String × Session)
  unfolding reduce_entered
  reduce_profiled none snapshot states = (err no_profile, states)
  reduce_profiled (some profile) snapshot states =
      reduce_entered profile snapshot states
        (enter (lookup (casefold snapshot.character) states) snapshot)

  -- `reduce`, on `_states`
  unfoldable pub reduce :
      Snapshot → List (String × Session) → Result (List Alert) × List (String × Session)
  unfolding reduce_profiled
  reduce snapshot states =
      reduce_profiled (lookup (casefold snapshot.character) profiles) snapshot states
