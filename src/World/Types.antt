-- ===== src/World/Types.antt =====
-- The data of src/lich_agent_bridge/world_state.py. `V` is the type of the JSON values that a
-- snapshot's fields and a client's events hold.
use lich_agent_bridge.Base.{ℕ, String, Bool, Option, List}

-- `CharacterSnapshot`: the four required fields, and the entries that `to_mapping` writes for
-- `game` and for each optional field that is not `None`.
pub record Snapshot (V : Type 0) : Type 0 where
  pub character : String
  pub generation : String
  pub sequence : ℕ
  pub observed_at : String
  pub fields : List (String × V)

-- `MeaningfulEvent.data`: what a client sent, or what `publish_snapshot` records.
pub data Payload (V : Type 0) : Type 0 where
  observed : V → Payload V
  changed : List String → Option String → Payload V

-- `MeaningfulEvent`
pub record Event (V : Type 0) : Type 0 where
  pub character : String
  pub generation : String
  pub observed_at : String
  pub kind : String
  pub summary : String
  pub payload : Payload V

-- `_StoredEvent`
pub record Stored (V : Type 0) : Type 0 where
  pub cursor : ℕ
  pub event : Event V

-- `_CharacterState`. `sequence` and `snapshot` are set and reset together with `generation`.
pub record CharacterState (V : Type 0) : Type 0 where
  pub display_name : String
  pub generation : Option String
  pub sequence : Option ℕ
  pub snapshot : Option (Snapshot V)
  pub retired_generations : List String
  pub cursor : ℕ
  pub events : List (Stored V)

-- `StateConflict`, and the `ValidationError`s of a character's name and of the arguments of `watch`.
pub data Conflict : Type 0 where
  blank_character long_character : Conflict
  bad_cursor bad_timeout timeout_range : Conflict
  stale_snapshot_generation sequence_not_increasing no_active_generation stale_event_generation :
      Conflict

pub data Result {ℓ} (A : Type ℓ) : Type ℓ where
  ok : A → Result A
  err : Conflict → Result A

-- What `publish_snapshot` returns.
pub record Receipt : Type 0 where
  pub character : String
  pub generation : String
  pub sequence : ℕ
  pub cursor : ℕ
  pub replaced_generation : Option String

-- What `publish_event` returns.
pub record EventReceipt : Type 0 where
  pub character : String
  pub generation : String
  pub cursor : ℕ

-- A `timeout` argument: what is not a number, a number that is negative or not finite, or ticks of
-- the clock.
pub data Timeout : Type 0 where
  bad_type outside : Timeout
  ticks : ℕ → Timeout

-- What `watch` returns.
pub record Batch (V : Type 0) : Type 0 where
  pub character : String
  pub cursor : ℕ
  pub events : List (Stored V)
  pub timed_out : Bool
  pub truncated : Bool

-- What the state is given: case folding, the capacity of an event queue, and `==` on JSON values.
pub record Env (V : Type 0) : Type 0 where
  pub casefold : String → String
  pub event_capacity : ℕ
  pub same : V → V → Bool

-- `_characters`
abbrev pub World : Type 0 → Type 0
World V = List (String × CharacterState V)
