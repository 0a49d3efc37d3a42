-- ===== src/Watchers/Examples.antt =====
-- The theorems on the watcher at concrete inputs, and a run of it.
use lich_agent_bridge.Base.{All, ◌≤◌, ℕ, true, ◌≡◌, refl, none, some, [], ◌∷◌, ◌⊎◌}
use lich_agent_bridge.Base.Dict.{lookup, insert, member}
use lich_agent_bridge.Watchers.Types.{
  unreadable, words, bad_number, not_digits, Alert, Corpse, Env, Evidence, Profile, Refusal, ok,
  err, Session, critical, warning, info, Snapshot, active, cleared,
}
use lich_agent_bridge.Watchers.Conditions.{
  alert_at, clear_alert, raise_alert, remember, set_condition, set_failing, set_holding, without,
}
use lich_agent_bridge.Watchers.Names.{encumbrance_level, after_prefix, last_part}
use lich_agent_bridge.Watchers.Rules.{
  held, absent_alert, boolean_alerts, codes_of, corpse_alert, corpse_alerts, encumbrance_alert,
  for_each, forget_absent, forget_quiet, ids_of, keys_of, spell_alerts, weapon_alert, wound_alert,
}
use lich_agent_bridge.Watchers.Reducer.{
  rules_from, later_rules, end_reduce, enter, known_script_alerts, reduce, reduce_entered,
  reduce_profiled, run_rules, script_alerts,
}
use lich_agent_bridge.Watchers.Alerts.{IsTold, reduce_tells}
use lich_agent_bridge.Watchers.Bounds.{AreBounded, reduce_all, reduce_all-AreBounded}
use lich_agent_bridge.Watchers.Profiles.{select_from, select_profiles, select_profiles-holds}
use lich_agent_bridge.Watchers.Unknown.{IsQuiet, IsUnknown, unknown-IsQuiet}

abbrev aria : Profile
aria = record {
  character = "Aria";
  expected_hand_item_names = [];
  expected_hand_item_label = "weapon";
  encumbrance_warning = none;
  encumbrance_emergency = none;
  required_defensive_spell_ids = [];
  severe_wound_level = 2;
}

-- A corpse counts from its first snapshot on.
abbrev desk : Env
desk = record {
  casefold = λ s. s;
  decimal = λ s. not_digits;
  set_order = λ l. l;
  profiles = ("Aria", aria) ∷ [];
  corpse_persistence_snapshots = 1;
  active_limit = 2;
  history_limit = 3;
}

abbrev blank : ℕ → Snapshot
blank n = record {
  character = "Aria";
  generation = "g1";
  sequence = n;
  hands = none;
  encumbrance = none;
  dead = none;
  stunned = none;
  wounds = none;
  active_spells = none;
  scripts = none;
  owners = none;
  corpses = none;
}

abbrev died : Snapshot
died = record (blank 1) { dead = some true }

abbrev death : Alert
death = record {
  code = "dead";
  severity = critical;
  status = active;
  character = "Aria";
  generation = "g1";
  snapshot_sequence = 1;
  evidence = Evidence.flag (some true);
}

abbrev dead_aria : Session
dead_aria = record {
  generation = "g1";
  sequence = some 1;
  active = death ∷ [];
  history = death ∷ [];
  corpse_counts = [];
  corpse_evidence = [];
  seen_required_spells = [];
  previous = some died;
}

died_reduced : reduce desk died [] ≡ (ok (death ∷ []), ("Aria", dead_aria) ∷ [])
unfolding reduce reduce_profiled reduce_entered enter run_rules rules_from later_rules end_reduce
    weapon_alert encumbrance_alert boolean_alerts wound_alert spell_alerts script_alerts
    known_script_alerts corpse_alerts forget_quiet set_condition set_holding set_failing raise_alert
    remember without alert_at lookup insert keys_of
died_reduced = refl

blank_reduced :
    reduce desk (blank 2) (("Aria", dead_aria) ∷ [])
    ≡ (ok [], ("Aria", record dead_aria { sequence = some 2; previous = some (blank 2) }) ∷ [])
unfolding reduce reduce_profiled reduce_entered enter run_rules rules_from later_rules end_reduce
    weapon_alert encumbrance_alert boolean_alerts wound_alert spell_alerts script_alerts
    known_script_alerts corpse_alerts forget_quiet set_condition set_holding set_failing raise_alert
    remember without alert_at lookup insert keys_of
blank_reduced = refl

reduce_tells_example : IsTold desk died [] (death ∷ []) (("Aria", dead_aria) ∷ [])
reduce_tells_example =
    reduce_tells desk died [] (("Aria", dead_aria) ∷ []) (death ∷ []) died_reduced

reduce_all-AreBounded_example : AreBounded desk (reduce_all desk (died ∷ blank 2 ∷ []) [])
reduce_all-AreBounded_example = reduce_all-AreBounded desk (died ∷ blank 2 ∷ [])

blank-IsUnknown : IsUnknown (blank 2)
blank-IsUnknown = record {
  hands = refl;
  encumbrance = refl;
  dead = refl;
  stunned = refl;
  wounds = refl;
  active_spells = refl;
  owners = refl;
  corpses = refl;
}

unknown-IsQuiet_example :
    IsQuiet desk
      (blank 2)
      (("Aria", dead_aria) ∷ [])
      (reduce desk (blank 2) (("Aria", dead_aria) ∷ [])).1
    ⊎ ((e : Refusal) × (reduce desk (blank 2) (("Aria", dead_aria) ∷ [])
          ≡ (err e, ("Aria", dead_aria) ∷ [])))
unknown-IsQuiet_example = unknown-IsQuiet desk (blank 2) (("Aria", dead_aria) ∷ []) blank-IsUnknown

-- A corpse whose id has a colon: its alert is raised and ended in the same pass.
abbrev colon_corpse : Corpse
colon_corpse = record { id = "a:b"; texts = [] }

abbrev found : Alert
found = record {
  code = "unlooted_corpse:a:b";
  severity = warning;
  status = active;
  character = "Aria";
  generation = "g1";
  snapshot_sequence = 1;
  evidence = Evidence.corpse colon_corpse 1;
}

abbrev lost : Alert
lost = record {
  code = "unlooted_corpse:a:b";
  severity = info;
  status = cleared;
  character = "Aria";
  generation = "g1";
  snapshot_sequence = 1;
  evidence = Evidence.corpse_absent "b";
}

colon_corpse_flaps :
    (reduce desk (record (blank 1) { corpses = some (colon_corpse ∷ []) }) []).0
    ≡ ok (found ∷ lost ∷ [])
unfolding reduce reduce_profiled reduce_entered enter run_rules rules_from later_rules end_reduce
    weapon_alert encumbrance_alert boolean_alerts wound_alert spell_alerts script_alerts
    known_script_alerts corpse_alerts forget_quiet set_condition set_holding set_failing raise_alert
    clear_alert remember without alert_at lookup insert keys_of forget_absent for_each corpse_alert
    absent_alert codes_of ids_of member after_prefix last_part
colon_corpse_flaps = refl

select_profiles-holds_example :
    All (λ p. lookup p.character (("Aria", aria) ∷ []) ≡ some p) (aria ∷ [])
    × (1 ≤ 3)
    × (1 ≤ 64)
    × (1 ≤ 256)
unfolding select_profiles select_from lookup insert
select_profiles-holds_example =
    select_profiles-holds (λ s. s) 3 64 256 (aria ∷ []) (("Aria", aria) ∷ []) refl

-- A load that is digits, but that `int` cannot read: the pass stops behind the weapon alert, which is
-- active then and in no answer.
abbrev swordsman : Profile
swordsman = record aria { expected_hand_item_names = "sword" ∷ []; encumbrance_warning = some 1 }

abbrev strange : Env
strange = record desk { decimal = λ s. unreadable; profiles = ("Aria", swordsman) ∷ [] }

abbrev unarmed : Alert
unarmed = record {
  code = "expected_weapon_missing";
  severity = critical;
  status = active;
  character = "Aria";
  generation = "g1";
  snapshot_sequence = 1;
  evidence = Evidence.hands "weapon" [];
}

strange_load_raises :
    reduce strange
      (record (blank 1) { hands = some (none ∷ none ∷ []); encumbrance = some (words "2") })
      []
    ≡ (
      err bad_number,
      (
        "Aria",
        record dead_aria {
          sequence = none;
          active = unarmed ∷ [];
          history = unarmed ∷ [];
          previous = none;
        },
      )
          ∷ [],
    )
unfolding reduce reduce_profiled reduce_entered enter run_rules rules_from later_rules end_reduce
    weapon_alert encumbrance_alert encumbrance_level held set_condition set_holding set_failing
    raise_alert remember without alert_at lookup insert
strange_load_raises = refl
