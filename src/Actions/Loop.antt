-- ===== src/Actions/Loop.antt =====
-- The broker's dict of actions: lookup by id, the write of one action, and the loop over its values.
use lich_agent_bridge.Base.{String, Option, none, some, List, [], ◌∷◌, ◌++◌, if◌then◌else◌, str_eq}
use lich_agent_bridge.Actions.Types.{Action, Event}

-- `_actions.get(action_id)`
unfoldable pub find : String → List Action → Option Action
find i [] = none
find i (a ∷ rest) = if str_eq a.action_id i then some a else find i rest

-- `_actions[action.action_id] = action`. Python mutates the action that the dict holds; here the
-- changed action is stored back under its id.
unfoldable pub store : Action → List Action → List Action
store a [] = a ∷ []
store a (x ∷ rest) = if str_eq x.action_id a.action_id then a ∷ rest else x ∷ store a rest

-- `for action in self._actions.values(): ...`. The body gives the changed action, the events that
-- it audits, and what the loop returns early, if it does.
module _ {R : Type 0} where
  unfoldable pub walk :
      (Action → Action × List Event × Option R) → List Action → List Action × List Event × Option R
  walk f [] = ([], [], none)
  walk f (a ∷ rest) =
      let (a', es, r) = f a in
      let (rest', es', r') = walk f rest in
      elim r [ none ↦ (a' ∷ rest', es ++ es', r') | some x ↦ (a' ∷ rest, es, some x) ]
