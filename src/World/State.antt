-- ===== src/World/State.antt =====
-- `publish_snapshot` and `publish_event` of `WorldState`.
use lich_agent_bridge.Base.{
  ℕ, ◌+◌, String, Bool, true, false, not, Option, none, some, List, [], ◌∷◌, ◌++◌, ltb, leb,
  if◌then◌else◌, str_eq, length, is_some,
}
use lich_agent_bridge.Base.Dict.{lookup, insert, member, add}
use lich_agent_bridge.World.Types.{
  CharacterState, stale_snapshot_generation, sequence_not_increasing, no_active_generation,
  stale_event_generation, Env, Event, EventReceipt, changed, Receipt, Result, ok, err, Snapshot,
  Stored, World,
}
use lich_agent_bridge.World.Fields.{changed_fields, same_meaning}

module _ {V : Type 0} (env : Env V) where
  open env use {casefold, event_capacity}

  -- `deque(maxlen=event_capacity)`: the oldest event falls out of a full queue.
  abbrev pub trim : List (Stored V) → List (Stored V)
  trim [] = []
  trim (e ∷ rest) = if ltb event_capacity (length (e ∷ rest)) then rest else e ∷ rest

  -- `_append_event_locked`
  unfoldable pub append_event : CharacterState V → Event V → CharacterState V
  append_event s event =
      let next = s.cursor + 1 in
      let stored : Stored V = record { cursor = next; event = event } in
      record s { cursor = next; events = trim (s.events ++ stored ∷ []) }

  abbrev pub fresh : Snapshot V → CharacterState V
  fresh snapshot = record {
    display_name = snapshot.character;
    generation = none;
    sequence = none;
    snapshot = none;
    retired_generations = [];
    cursor = 0;
    events = [];
  }

  abbrev pub or_fresh : Snapshot V → Option (CharacterState V) → CharacterState V
  or_fresh snapshot none = fresh snapshot
  or_fresh snapshot (some s) = s

  -- The state under the generation of the snapshot, and the generation that it replaced.
  unfoldable pub enter_from :
      Option String → CharacterState V → Snapshot V → Result (CharacterState V × Option String)
  enter_from none s snapshot = ok (record s { generation = some snapshot.generation }, none)
  enter_from (some active) s snapshot =
      if str_eq snapshot.generation active
      then ok (s, none)
      else if member snapshot.generation s.retired_generations
      then err stale_snapshot_generation
      else ok (
        record s {
          retired_generations = add active s.retired_generations;
          generation = some snapshot.generation;
          sequence = none;
          snapshot = none;
        },
        some active,
      )

  abbrev pub is_late : Option ℕ → ℕ → Bool
  is_late none n = false
  is_late (some last) n = leb n last

  abbrev pub is_changed : Option (Snapshot V) → Snapshot V → Bool
  is_changed none b = true
  is_changed (some a) b = not (same_meaning env a b)

  -- The event of an admitted snapshot.
  unfoldable pub snapshot_event : Option (Snapshot V) → Snapshot V → Option String → Event V
  snapshot_event previous snapshot replaced = record {
    character = snapshot.character;
    generation = snapshot.generation;
    observed_at = snapshot.observed_at;
    kind = "snapshot";
    summary = if is_some previous then "session snapshot changed" else "session snapshot admitted";
    payload = changed (changed_fields env previous snapshot) replaced;
  }

  -- The state with the snapshot admitted.
  unfoldable pub admit : CharacterState V → Snapshot V → Option String → CharacterState V
  unfolding snapshot_event
  admit s snapshot replaced =
      let event = snapshot_event s.snapshot snapshot replaced in
      let t = record s {
        display_name = snapshot.character;
        sequence = some snapshot.sequence;
        snapshot = some snapshot;
      } in
      if is_changed s.snapshot snapshot then append_event t event else t

  -- The test of the sequence, and the admission.
  unfoldable pub admit_unless :
      Bool
      → CharacterState V
      → Snapshot V
      → Option String
      → Result (CharacterState V × Option String)
  admit_unless true s snapshot replaced = err sequence_not_increasing
  admit_unless false s snapshot replaced = ok (admit s snapshot replaced, replaced)

  unfoldable pub admit_entered :
      Snapshot V
      → Result (CharacterState V × Option String)
      → Result (CharacterState V × Option String)
  unfolding admit_unless
  admit_entered snapshot (err e) = err e
  admit_entered snapshot (ok (s, replaced)) =
      admit_unless (is_late s.sequence snapshot.sequence) s snapshot replaced

  -- `publish_snapshot` on the state of the character.
  unfoldable pub publish_snapshot_to :
      CharacterState V → Snapshot V → Result (CharacterState V × Option String)
  unfolding enter_from admit admit_entered
  publish_snapshot_to s snapshot = admit_entered snapshot (enter_from s.generation s snapshot)

  unfoldable pub receipt : Snapshot V → CharacterState V → Option String → Receipt
  receipt snapshot s replaced = record {
    character = snapshot.character;
    generation = snapshot.generation;
    sequence = snapshot.sequence;
    cursor = s.cursor;
    replaced_generation = replaced;
  }

  -- What the outcome does to the dict. Where the call raises, the dict is as it was: a state that it
  -- has just created raises nothing.
  unfoldable pub keep_snapshot :
      String
      → Snapshot V
      → World V
      → Result (CharacterState V × Option String)
      → Result Receipt × World V
  unfolding receipt
  keep_snapshot key snapshot w (err e) = (err e, w)
  keep_snapshot key snapshot w (ok (s, replaced)) =
      (ok (receipt snapshot s replaced), insert key s w)

  -- `publish_snapshot`
  unfoldable pub publish_snapshot : Snapshot V → World V → Result Receipt × World V
  unfolding keep_snapshot
  publish_snapshot snapshot w =
      let key = casefold snapshot.character in
      keep_snapshot key snapshot w (publish_snapshot_to (or_fresh snapshot (lookup key w)) snapshot)

  -- The tests of `publish_event` on the active generation, and what it appends.
  unfoldable pub append_if_active :
      Option String → CharacterState V → Event V → Result (CharacterState V)
  append_if_active none s event = err no_active_generation
  append_if_active (some active) s event =
      if str_eq event.generation active
      then ok (append_event s event)
      else err stale_event_generation

  -- `publish_event` on the state of the character.
  unfoldable pub publish_event_to : Option (CharacterState V) → Event V → Result (CharacterState V)
  unfolding append_if_active
  publish_event_to none event = err no_active_generation
  publish_event_to (some s) event = append_if_active s.generation s event

  unfoldable pub event_receipt : Event V → CharacterState V → EventReceipt
  event_receipt event s = record {
    character = s.display_name;
    generation = event.generation;
    cursor = s.cursor;
  }

  unfoldable pub keep_event :
      String → Event V → World V → Result (CharacterState V) → Result EventReceipt × World V
  unfolding event_receipt
  keep_event key event w (err e) = (err e, w)
  keep_event key event w (ok s) = (ok (event_receipt event s), insert key s w)

  unfoldable pub publish_event : Event V → World V → Result EventReceipt × World V
  unfolding keep_event
  publish_event event w =
      let key = casefold event.character in
      keep_event key event w (publish_event_to (lookup key w) event)
