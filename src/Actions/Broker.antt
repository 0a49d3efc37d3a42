-- ===== src/Actions/Broker.antt =====
-- `ActionBroker` of src/lich_agent_bridge/actions.py: sessions, the kill switch, expiry and delivery.
use lich_agent_bridge.Base.{
  ℕ, String, Bool, true, false, ◌&&◌, not, Option, none, some, List, [], ◌∷◌, ◌++◌, leb,
  if◌then◌else◌, str_eq,
}
use lich_agent_bridge.Base.Dict.{lookup, insert, member, add, discard}
use lich_agent_bridge.Actions.Types.{
  Action, Status, dispatched, cancelled, expired, denied_stale_room, is_pending, is_launched,
  is_queued, is_awaiting, Admission, Broker, Context, Control, Env, Event, generation_replaced,
  execution_enabled, kill_switch, confirmation_requested, action_expired, action_denied,
  action_dispatched, stale_room, Instruction, PublicAction, ok, no_active_generation,
  inactive_generation, not_found,
}
use lich_agent_bridge.Actions.Exec.{Exec, ◌>>=◌, ◌>>◌, pure, raise, lift, check, log, get_broker}
use lich_agent_bridge.Actions.Fields.{character_name, generation_name, is_stoppable, public}
use lich_agent_bridge.Actions.Loop.{find, walk}

-- `ActionBroker.__init__`
abbrev pub init : Broker
init = record { enabled = []; active_generations = []; actions = []; audit = [] }

-- A room that the action is not bound to.
abbrev pub is_stale_room : Option String → String → Bool
is_stale_room none room = false
is_stale_room (some expected) room = not (str_eq expected room)

module _ (env : Env) where
  open env use {casefold}

  -- `a.casefold() == b.casefold()`
  abbrev pub same_name : String → String → Bool
  same_name a b = str_eq (casefold a) (casefold b)

  -- The body of the loop of `_expire_locked`.
  abbrev pub expire_action : ℕ → Action → Action × List Event × Option (Unit {0})
  expire_action now a =
      let gone = record a { status = expired } in
      if is_pending a.status && leb a.expires_at now
      then (gone, action_expired gone ∷ [], none)
      else (a, [], none)

  -- Run a loop over the actions, and audit its events.
  abbrev pub for_actions :
      {R : Type 0} → (Action → Action × List Event × Option R) → Exec (Option R)
  for_actions f b =
      let (actions, events, r) = walk f b.actions in
      (ok r, record b { actions = actions; audit = b.audit ++ events })

  unfoldable pub expire_locked : ℕ → Exec (Unit {0})
  expire_locked now = do for_actions (expire_action now); pure tt

  abbrev pub found : Option Action → Exec Action
  found none = raise not_found
  found (some a) = pure a

  unfoldable pub find_locked : String → Exec Action
  find_locked i b = found (find i b.actions) b

  abbrev pub active_is : String → Option String → Exec (Unit {0})
  active_is generation none = raise no_active_generation
  active_is generation (some active) = check (str_eq active generation) inactive_generation

  unfoldable pub require_active_generation_locked : String → String → Exec (Unit {0})
  require_active_generation_locked character generation b =
      active_is generation (lookup (casefold character) b.active_generations) b

  -- The body of the loop of `admit_generation`: a run of the replaced session is told to stop, and
  -- a pending action of it is cancelled, its id returned beside it.
  abbrev pub retire : String → String → Action → Action × List Event × Option (Unit {0})
  retire character_key generation a =
      let ours =
        str_eq (casefold a.character) character_key && not (str_eq a.generation generation) in
      let stop = is_stoppable a && ours && is_launched a.status in
      let a1 = record a { stop_requested = if stop then true else a.stop_requested } in
      let a2 = if ours && is_pending a1.status then record a1 { status = cancelled } else a1 in
      (a2, [], none)

  -- The ids that this loop appends to `cancelled`.
  unfoldable pub retired_ids : String → String → List Action → List String
  retired_ids character_key generation [] = []
  retired_ids character_key generation (a ∷ rest) =
      let ids = retired_ids character_key generation rest in
      if str_eq (casefold a.character) character_key
        && not (str_eq a.generation generation)
        && is_pending a.status
      then a.action_id ∷ ids
      else ids

  abbrev pub replaced_by : String → Option String → Option String
  replaced_by generation none = none
  replaced_by generation (some previous) =
      if str_eq previous generation then none else some previous

  -- What `admit_generation` does when the generation `previous` is replaced, and otherwise.
  unfoldable pub replace_generation : String → String → Option String → Exec (List String)
  replace_generation display_name generation none = pure []
  replace_generation display_name generation (some previous) = do
    b ← get_broker
    let key = casefold display_name
    let ids = retired_ids key generation b.actions
    for_actions (retire key generation)
    log (generation_replaced display_name previous generation ids ∷ [])
    pure ids

  -- `self._active_generations[character_key] = admitted_generation`
  abbrev pub activate : String → String → Exec (Unit {0})
  activate key generation b =
      (ok tt, record b { active_generations = insert key generation b.active_generations })

  unfoldable pub admit_generation : String → String → Exec Admission
  unfolding replace_generation
  admit_generation character generation = do
    display_name ← lift (character_name character)
    admitted ← lift (generation_name generation)
    b ← get_broker
    let key = casefold display_name
    let replaced = replaced_by admitted (lookup key b.active_generations)
    activate key admitted
    ids ← replace_generation display_name admitted replaced
    pure (record {
      character = display_name;
      generation = admitted;
      replaced_generation = replaced;
      cancelled_action_ids = ids;
    })

  -- The body of the loop of `control` when it disables a character.
  abbrev pub shut_off : String → Action → Action × List Event × Option (Unit {0})
  shut_off character_key a =
      let ours = str_eq (casefold a.character) character_key in
      let stop = is_stoppable a && ours && is_launched a.status in
      let a1 = record a { stop_requested = if stop then true else a.stop_requested } in
      let a2 = if ours && is_pending a1.status then record a1 { status = cancelled } else a1 in
      (a2, [], none)

  unfoldable pub set_enabled : Bool → String → Exec (Unit {0})
  set_enabled true key b = (ok tt, record b { enabled = add key b.enabled })
  set_enabled false key b =
      (do for_actions (shut_off key); pure tt) (record b { enabled = discard key b.enabled })

  unfoldable pub control : Control → Exec Control
  unfolding set_enabled
  control request = do
    require_active_generation_locked request.character request.generation
    log (
        if request.enabled
        then execution_enabled request.character request.generation ∷ []
        else kill_switch request.character request.generation ∷ [])
    set_enabled request.enabled (casefold request.character)
    pure request

  -- The body of the loop of `_poll_locked` for an action of this character and generation.
  abbrev pub offer : Context → Action → Action × List Event × Option PublicAction
  offer context a =
      let seen = record a { notified = true } in
      let denied = record a { status = denied_stale_room } in
      let sent = record a { status = dispatched } in
      if is_awaiting a.status && not a.notified
      then (
        seen,
        confirmation_requested seen ∷ [],
        some (public seen (Instruction.status Status.confirmation_required)),
      )
      else if not (is_queued a.status)
      then (a, [], none)
      else if is_stale_room a.expected_room_id context.room_id
      then (denied, action_denied stale_room denied (some context.room_id) ∷ [], none)
      else (
        sent,
        action_dispatched sent context.room_id ∷ [],
        some (public sent Instruction.execute),
      )

  -- The body of the loop of `_poll_locked`.
  abbrev pub deliver : Context → Action → Action × List Event × Option PublicAction
  deliver context a =
      if not (same_name a.character context.character)
      then (a, [], none)
      else if not (str_eq a.generation context.generation)
      then (a, [], none)
      else offer context a

  unfoldable pub deliver_first : Bool → Context → Exec (Option PublicAction)
  deliver_first false context = pure none
  deliver_first true context = for_actions (deliver context)

  -- `poll`, which is `_poll_locked` under the lock; `poll_wait` repeats it until it returns an
  -- instruction or its time is over.
  unfoldable pub poll : ℕ → Context → Exec (Option PublicAction)
  unfolding deliver_first
  poll now context = do
    expire_locked now
    require_active_generation_locked context.character context.generation
    b ← get_broker
    deliver_first (member (casefold context.character) b.enabled) context
