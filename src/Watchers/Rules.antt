-- ===== src/Watchers/Rules.antt =====
-- The alert rules of `WatcherReducer` in src/lich_agent_bridge/watchers.py.
use Prim.Native.String.{◌++◌ as ◌<>◌}
use lich_agent_bridge.Base.{
  ℕ, ◌+◌, String, Bool, true, false, ◌&&◌, not, Option, none, some, List, [], ◌∷◌, leb, map,
  if◌then◌else◌, is_some,
}
use lich_agent_bridge.Base.Dict.{lookup, insert, remove, member, add}
use lich_agent_bridge.Base.Sort.{sorted}
use lich_agent_bridge.Base.Text.{is_blank}
use lich_agent_bridge.Watchers.Types.{
  Result, ok, err, Alert, Corpse, Env, Evidence, Pass, Profile, Severity, warning, critical,
  Snapshot,
}
use lich_agent_bridge.Watchers.Names.{
  after_prefix, encumbrance_level, last_part, normalize_item_name,
}
use lich_agent_bridge.Watchers.Conditions.{alert_at, set_condition}

-- A loop over a list.
unfoldable pub for_each : {A : Type 0} → (A → Pass → Pass) → List A → Pass → Pass
for_each f [] p = p
for_each f (x ∷ rest) p = for_each f rest (f x p)

-- `for code in tuple(state.active)`: the keys before the loop starts.
unfoldable pub codes_of : List Alert → List String
codes_of [] = []
codes_of (a ∷ rest) = a.code ∷ codes_of rest

-- `[str(item["name"]) for item in snapshot.hands.values() if item is not None]`
unfoldable pub held : List (Option String) → List String
held [] = []
held (none ∷ rest) = held rest
held (some name ∷ rest) = name ∷ held rest

unfoldable pub keys_of : {A : Type 0} → List (String × A) → List String
keys_of [] = []
keys_of ((key, value) ∷ rest) = key ∷ keys_of rest

abbrev is_empty : {A : Type 0} → List A → Bool
is_empty [] = true
is_empty (x ∷ rest) = false

abbrev pub at_least : ℕ → Option ℕ → Bool
at_least level none = false
at_least level (some threshold) = leb threshold level

abbrev first_of : Option ℕ → Option ℕ → Option ℕ
first_of none o = o
first_of (some n) o = some n

-- The parts whose wound is severe.
unfoldable pub severe_wounds : ℕ → List (String × Option ℕ) → List (String × ℕ)
severe_wounds minimum [] = []
severe_wounds minimum ((part, none) ∷ rest) = severe_wounds minimum rest
severe_wounds minimum ((part, some wound) ∷ rest) =
    let others = severe_wounds minimum rest in
    if leb minimum wound then (part, wound) ∷ others else others

-- `set.update` and `union`
unfoldable pub add_all : List String → List String → List String
add_all [] s = s
add_all (x ∷ rest) s = add_all rest (add x s)

-- `active.intersection(required)`
unfoldable pub common : List String → List String → List String
common [] t = []
common (x ∷ rest) t = let others = common rest t in if member x t then x ∷ others else others

-- `mapping.get(lane)` where a value may be `None`
abbrev pub owner_at : String → Option (List (String × Option String)) → Option String
owner_at lane none = none
owner_at lane (some owners) = elim (lookup lane owners) [ none ↦ none | some o ↦ o ]

-- `a or b`, where an empty text is false
abbrev pub or_else : Option String → Option String → Option String
or_else none o = o
or_else (some s) o = if is_blank s then o else some s

module _ (env : Env) where
  open env use {casefold, set_order, corpse_persistence_snapshots}

  abbrev is_expected : List String → String → Bool
  is_expected expected name =
      member (normalize_item_name env name) (map (normalize_item_name env) expected)

  none_expected : List String → List String → Bool
  none_expected expected [] = true
  none_expected expected (name ∷ rest) =
      not (is_expected expected name) && none_expected expected rest

  abbrev weapon_missing : Profile → Option (List (Option String)) → Option Bool
  weapon_missing profile none = none
  weapon_missing profile (some hands) =
      some (none_expected profile.expected_hand_item_names (held hands))

  abbrev observed_hands : Option (List (Option String)) → List String
  observed_hands none = []
  observed_hands (some hands) = held hands

  -- `_weapon_alert`
  unfoldable pub weapon_alert : Profile → Snapshot → Pass → Pass
  unfolding none_expected
  weapon_alert profile snapshot p =
      if is_empty profile.expected_hand_item_names
      then p
      else set_condition env snapshot "expected_weapon_missing"
          (weapon_missing profile snapshot.hands) critical
          (Evidence.hands profile.expected_hand_item_label (observed_hands snapshot.hands)) p

  -- The severity, the threshold and the condition of a known level.
  unfoldable pub weigh_load : Profile → ℕ → Severity × Option ℕ × Bool
  weigh_load profile level =
      if at_least level profile.encumbrance_emergency
      then (critical, profile.encumbrance_emergency, true)
      else if at_least level profile.encumbrance_warning
      then (warning, profile.encumbrance_warning, true)
      else (warning, first_of profile.encumbrance_warning profile.encumbrance_emergency, false)

  unfoldable pub load_alert : Profile → Snapshot → Option ℕ → Pass → Pass
  unfolding weigh_load
  load_alert profile snapshot none p =
      set_condition env snapshot "encumbrance" none warning
        (Evidence.load snapshot.encumbrance none none) p
  load_alert profile snapshot (some level) p =
      let (severity, threshold, condition) = weigh_load profile level in
      set_condition env snapshot "encumbrance" (some condition) severity
        (Evidence.load snapshot.encumbrance (some level) threshold) p

  abbrev pub load_alert_of : Profile → Snapshot → Result (Option ℕ) → Pass → Result Pass
  load_alert_of profile snapshot (err e) p = err e
  load_alert_of profile snapshot (ok level) p = ok (load_alert profile snapshot level p)

  -- `_encumbrance_alert`, which raises where the level cannot be read.
  unfoldable pub encumbrance_alert : Profile → Snapshot → Pass → Result Pass
  unfolding load_alert
  encumbrance_alert profile snapshot p =
      if not (is_some profile.encumbrance_warning) && not (is_some profile.encumbrance_emergency)
      then ok p
      else load_alert_of profile snapshot (encumbrance_level env snapshot.encumbrance) p

  -- `_boolean_alerts`
  unfoldable pub boolean_alerts : Snapshot → Pass → Pass
  boolean_alerts snapshot p =
      set_condition env snapshot "stunned" snapshot.stunned warning (Evidence.flag snapshot.stunned)
        (set_condition env snapshot "dead" snapshot.dead critical (Evidence.flag snapshot.dead) p)

  abbrev severe_of : ℕ → Option (List (String × Option ℕ)) → List (String × ℕ)
  severe_of minimum none = []
  severe_of minimum (some parts) = severe_wounds minimum parts

  abbrev is_wounded : ℕ → Option (List (String × Option ℕ)) → Option Bool
  is_wounded minimum none = none
  is_wounded minimum (some parts) = some (not (is_empty (severe_wounds minimum parts)))

  -- `_wound_alert`
  unfoldable pub wound_alert : Snapshot → Profile → Pass → Pass
  wound_alert snapshot profile p =
      let minimum = profile.severe_wound_level in
      set_condition env snapshot "severe_wounds" (is_wounded minimum snapshot.wounds) critical
        (Evidence.wounds minimum (severe_of minimum snapshot.wounds)) p

  -- One round of the loop of `_spell_alerts`.
  unfoldable pub spell_alert : Snapshot → List String → String → Pass → Pass
  spell_alert snapshot spells spell p =
      let condition = member spell p.session.seen_required_spells && not (member spell spells) in
      set_condition env snapshot ("defensive_spell_dropped:" <> spell) (some condition) warning
        (Evidence.spell spell (sorted spells)) p

  unfoldable pub spells_alert : List String → Snapshot → Option (List String) → Pass → Pass
  unfolding spell_alert
  spells_alert required snapshot none p = p
  spells_alert required snapshot (some ids) p =
      let spells = add_all ids [] in
      let seen = add_all (common spells required) p.session.seen_required_spells in
      for_each (spell_alert snapshot spells) (sorted required)
        (record p { session = record (p.session) { seen_required_spells = seen } })

  -- `_spell_alerts`
  unfoldable pub spell_alerts : Profile → Snapshot → Pass → Pass
  unfolding spells_alert
  spell_alerts profile snapshot p =
      if is_empty profile.required_defensive_spell_ids
      then p
      else spells_alert (add_all profile.required_defensive_spell_ids []) snapshot
          snapshot.active_spells p

  -- `_corpse_alerts`, where corpses are not known: what has not led to an alert is forgotten.
  unfoldable pub forget_quiet : List String → Pass → Pass
  forget_quiet [] p = p
  forget_quiet (i ∷ rest) p = forget_quiet rest (
      if is_some (alert_at ("unlooted_corpse:" <> i) p.session.active) then p else record p {
        session = record (p.session) {
          corpse_counts = remove i p.session.corpse_counts;
          corpse_evidence = remove i p.session.corpse_evidence;
        };
      })

  -- What is no longer there is forgotten.
  unfoldable pub forget_absent : List String → List String → Pass → Pass
  forget_absent here [] p = p
  forget_absent here (i ∷ rest) p = forget_absent here rest (
      if member i here then p else record p {
        session = record (p.session) {
          corpse_counts = remove i p.session.corpse_counts;
          corpse_evidence = remove i p.session.corpse_evidence;
        };
      })

  abbrev pub count_of : Option ℕ → ℕ
  count_of none = 0
  count_of (some n) = n

  -- One round of the loop over the corpses.
  unfoldable pub corpse_alert : Snapshot → Corpse → Pass → Pass
  corpse_alert snapshot corpse p =
      let count = count_of (lookup corpse.id p.session.corpse_counts) + 1 in
      set_condition env snapshot ("unlooted_corpse:" <> corpse.id)
        (some (leb corpse_persistence_snapshots count)) warning (Evidence.corpse corpse count)
        (record p {
          session = record (p.session) {
            corpse_counts = insert corpse.id count p.session.corpse_counts;
            corpse_evidence = insert corpse.id corpse p.session.corpse_evidence;
          };
        })

  -- One round of the last loop of `_corpse_alerts`.
  unfoldable pub absent_alert : Snapshot → List String → String → Pass → Pass
  absent_alert snapshot here code p =
      if is_some (after_prefix "unlooted_corpse:" code)
      then if member (last_part code) here
        then p
        else set_condition env snapshot code (some false) warning
            (Evidence.corpse_absent (last_part code)) p
      else p

  unfoldable pub ids_of : List Corpse → List String
  ids_of [] = []
  ids_of (c ∷ rest) = c.id ∷ ids_of rest

  -- `_corpse_alerts`
  unfoldable pub corpse_alerts : Snapshot → Option (List Corpse) → Pass → Pass
  unfolding corpse_alert absent_alert forget_absent forget_quiet
  corpse_alerts snapshot none p = forget_quiet (keys_of p.session.corpse_counts) p
  corpse_alerts snapshot (some corpses) p =
      let here = ids_of corpses in
      let q =
        for_each (corpse_alert snapshot) corpses
          (forget_absent here (keys_of p.session.corpse_counts) p) in
      for_each (absent_alert snapshot here) (codes_of q.session.active) q
