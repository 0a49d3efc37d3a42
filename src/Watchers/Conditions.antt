-- ===== src/Watchers/Conditions.antt =====
-- `_set_condition` of src/lich_agent_bridge/watchers.py, the only place where alerts change.
use lich_agent_bridge.Base.{
  String, Bool, true, false, Option, none, some, List, [], ◌∷◌, ◌++◌, ltb, leb, if◌then◌else◌,
  str_eq, length,
}
use lich_agent_bridge.Watchers.Types.{
  Alert, Env, Evidence, Pass, Severity, info, warning, critical, Snapshot, Status, cleared,
}

abbrev pub same_severity : Severity → Severity → Bool
same_severity info info = true
same_severity warning warning = true
same_severity critical critical = true
same_severity _ _ = false

-- `state.active.get(code)`
unfoldable pub alert_at : String → List Alert → Option Alert
alert_at code [] = none
alert_at code (a ∷ rest) =
    let found = alert_at code rest in if str_eq a.code code then some a else found

-- `state.active.pop(code, None)`
unfoldable pub without : String → List Alert → List Alert
without code [] = []
without code (a ∷ rest) =
    let others = without code rest in if str_eq a.code code then others else a ∷ others

module _ (env : Env) where
  open env use {active_limit, history_limit}

  -- `history.append`, on a deque with a maximal length
  abbrev pub trim : List Alert → List Alert
  trim [] = []
  trim (a ∷ rest) = if ltb history_limit (length (a ∷ rest)) then rest else a ∷ rest

  unfoldable pub remember : Alert → List Alert → List Alert
  remember a history = trim (history ++ a ∷ [])

  -- The alert that starts, or changes its severity: it moves to the end of the dict.
  unfoldable pub raise_alert : Snapshot → String → Severity → Evidence → Pass → Pass
  unfolding remember
  raise_alert snapshot code severity evidence p =
      let alert : Alert = record {
        code = code;
        severity = severity;
        status = Status.active;
        character = snapshot.character;
        generation = snapshot.generation;
        snapshot_sequence = snapshot.sequence;
        evidence = evidence;
      } in
      record {
        session = record (p.session) {
          active = without code p.session.active ++ alert ∷ [];
          history = remember alert p.session.history;
        };
        emitted = p.emitted ++ alert ∷ [];
      }

  unfoldable pub clear_alert : Snapshot → String → Evidence → Pass → Pass
  unfolding remember
  clear_alert snapshot code evidence p =
      let alert : Alert = record {
        code = code;
        severity = info;
        status = cleared;
        character = snapshot.character;
        generation = snapshot.generation;
        snapshot_sequence = snapshot.sequence;
        evidence = evidence;
      } in
      record {
        session = record (p.session) {
          active = without code p.session.active;
          history = remember alert p.session.history;
        };
        emitted = p.emitted ++ alert ∷ [];
      }

  -- The branch of a condition that holds, for the alert that is there.
  unfoldable pub set_holding : Option Alert → Snapshot → String → Severity → Evidence → Pass → Pass
  set_holding (some existing) snapshot code severity evidence p =
      if same_severity existing.severity severity
      then p
      else raise_alert snapshot code severity evidence p
  set_holding none snapshot code severity evidence p =
      if leb active_limit (length p.session.active)
      then p
      else raise_alert snapshot code severity evidence p

  unfoldable pub set_failing : Option Alert → Snapshot → String → Evidence → Pass → Pass
  set_failing none snapshot code evidence p = p
  set_failing (some existing) snapshot code evidence p = clear_alert snapshot code evidence p

  -- `_set_condition`; a condition that is `None` is unknown.
  unfoldable pub set_condition : Snapshot → String → Option Bool → Severity → Evidence → Pass → Pass
  unfolding set_holding set_failing
  set_condition snapshot code none severity evidence p = p
  set_condition snapshot code (some true) severity evidence p =
      set_holding (alert_at code p.session.active) snapshot code severity evidence p
  set_condition snapshot code (some false) severity evidence p =
      set_failing (alert_at code p.session.active) snapshot code evidence p
