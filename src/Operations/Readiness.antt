-- ===== src/Operations/Readiness.antt =====
-- What src/lich_agent_bridge/operations.py demands of a session before and after it starts a script.
use lich_agent_bridge.Base.{String, ◌&&◌, not, Option, List, [], ◌∷◌}
use lich_agent_bridge.Base.Dict.{lookup, member}
use lich_agent_bridge.Base.Text.{concat}
use lich_agent_bridge.Watchers.Types.{Profile}
use lich_agent_bridge.Operations.Types.{Session}
use lich_agent_bridge.Operations.Host.{Texts}
use lich_agent_bridge.Operations.Monad.{M, demand, pure, require, ◌>>=◌, ◌>>◌}
use lich_agent_bridge.Operations.Scripts.{
  Adapter, intersects, no_duplicate, is_nil, any_unknown, any_severe, is_false, is_below,
  is_running, normal, held, lanes_free, lanes_owned, is_clean, same_set, is_completed, eloot,
}

module _ {W : Type 0} (py : Texts) where
  -- `_require_no_owner_conflicts`; the source names the first lane in conflict.
  unfoldable pub require_no_owner_conflicts : Session → Adapter → M W (Unit {0})
  require_no_owner_conflicts s a = do
    owners ← demand s.owners "known ownership state is required"
    require (lanes_free py a.name a.ownership_lanes owners) "ownership conflict"

  -- `_verify_script_owns_lanes`
  unfoldable pub verify_script_owns_lanes : Session → Adapter → M W (Unit {0})
  verify_script_owns_lanes s a = do
    scripts ← demand s.scripts "post-state script ownership is unknown"
    owners ← demand s.owners "post-state script ownership is unknown"
    require (is_running py a.name scripts) (concat (a.name ∷ " is not verified running" ∷ []))
    require (lanes_owned py a.name a.ownership_lanes owners)
        (concat (a.name ∷ " does not own its lanes in post-state" ∷ []))

  -- `_validate_hunt_readiness`
  unfoldable pub validate_hunt_readiness : Session → Profile → Adapter → M W (Unit {0})
  validate_hunt_readiness s profile a = do
    require (is_false s.dead) "known alive state is required"
    require (is_false s.stunned) "known unstunned state is required"
    wounds ← demand s.wounds "known wound state is required"
    require (not (any_unknown wounds)) "wound severity is unknown"
    require (not (any_severe profile.severe_wound_level wounds)) "severe wounds prevent hunting"
    hands ← demand s.hands "known hand state is required"
    require (intersects (normal py (held hands)) (normal py profile.expected_hand_item_names))
        (concat ("expected " ∷ profile.expected_hand_item_label ∷ " is not in hand" ∷ []))
    require (is_below profile.encumbrance_emergency s.encumbrance)
        "known encumbrance below the configured emergency threshold is required"
    require_no_owner_conflicts s a

  -- `_validate_room_loot_start`: the ids of the corpses
  unfoldable pub validate_room_loot_start : Session → Option (List String) → M W (List String)
  validate_room_loot_start s expected_corpse_ids = do
    creatures ← demand s.nearby_creatures "known nearby creature state is required"
    require (is_nil creatures) "live creatures prevent room.loot"
    corpses ← demand s.nearby_corpses "known nearby corpse state is required"
    scripts ← demand s.scripts "known script execution state is required"
    statuses ← demand s.script_status "known script execution state is required"
    require (not (is_running py eloot.name scripts) && is_clean py (lookup eloot.name statuses))
        "a clean ELoot execution baseline is required"
    require (not (is_nil corpses) && not (member "" corpses) && no_duplicate corpses)
        "room.loot requires exact corpse IDs"
    require (same_set expected_corpse_ids corpses) "starting exact corpse set changed"
    pure corpses

  -- `_verify_room_loot_end`
  unfoldable pub verify_room_loot_end : Session → List String → String → M W (Unit {0})
  verify_room_loot_end s starting i = do
    creatures ← demand s.nearby_creatures "post-state is unknown or live creatures are present"
    require (is_nil creatures) "post-state is unknown or live creatures are present"
    corpses ← demand s.nearby_corpses "post-state corpse IDs are unknown"
    require (not (intersects starting corpses)) "starting corpse IDs remain after ELoot"
    statuses ← demand s.script_status "ELoot completion state is unknown"
    require (is_completed py i (lookup eloot.name statuses)) "ELoot completion was not verified"
    scripts ← demand s.scripts "post-state running scripts are unknown"
    require (not (is_running py eloot.name scripts)) "ELoot has not finished"
