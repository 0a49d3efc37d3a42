-- ===== src/Operations/Types.antt =====
-- The data of src/lich_agent_bridge/operations.py.
use lich_agent_bridge.Base.{ℕ, String, Bool, true, false, Option, List}

-- `OperationRecord.status`
pub data Status : Type 0 where
  requested admitted running succeeded failed timed_out interrupted : Status

-- `TERMINAL_OPERATION_STATES`
abbrev pub is_terminal : Status → Bool
is_terminal succeeded = true
is_terminal failed = true
is_terminal timed_out = true
is_terminal interrupted = true
is_terminal _ = false

-- `OwnedLocation`
pub record Location : Type 0 where
  pub location_id : String
  pub kind : String
  pub owner : String
  pub verified_owned : Bool
  pub safety_rank : ℕ
  pub restore_command : Option String

-- `ItemState`
pub record Item : Type 0 where
  pub object_id : String
  pub dossier_id : String
  pub fingerprint : String
  pub location : Location

-- `SessionState`. The level of each part of `wounds` is `none` where it is no integer; a hand is
-- `none` where it is empty, and holds the name of its item otherwise; of the objects nearby only
-- the ids are read.
pub record Session : Type 0 where
  pub character : String
  pub generation : String
  pub room_id : String
  pub items : List Item
  pub fresh : Bool
  pub sequence : Option ℕ
  pub dead : Option Bool
  pub stunned : Option Bool
  pub wounds : Option (List (String × Option ℕ))
  pub encumbrance : Option ℕ
  pub hands : Option (List (Option String))
  pub scripts : Option (List String)
  pub owners : Option (List (String × Option String))
  pub nearby_creatures : Option (List String)
  pub nearby_corpses : Option (List String)
  pub script_status : Option (List (String × String))

-- `ItemBinding`
pub record Binding : Type 0 where
  pub character : String
  pub generation : String
  pub object_id : String
  pub dossier_id : String
  pub fingerprint : String
  pub original_location : Location

-- `SUPPORTED_ITEM_AUDIT_METHODS`
pub data Method : Type 0 where
  look inspect spell_405 spell_735 : Method

-- `EvidenceRecord`, without its facts, which the runner only keeps.
pub record Evidence : Type 0 where
  pub method : Method
  pub generation : String
  pub object_id : String
  pub detail : String

-- `OperationEvent`; its operation is the one that holds it.
pub record Event : Type 0 where
  pub cursor : ℕ
  pub status : Status
  pub detail : String
  pub timestamp : ℕ

-- The arguments of an operation, as far as the handlers tell them apart.
pub data Argument : Type 0 where
  text : String → Argument
  number : ℕ → Argument
  texts : List String → Argument
  other : Argument

-- `OperationRecord`
pub record Operation : Type 0 where
  pub operation_id : String
  pub capability : String
  pub character : String
  pub arguments : List (String × Argument)
  pub status : Status
  pub requested_at : ℕ
  pub deadline : ℕ
  pub admitted_at : Option ℕ
  pub started_at : Option ℕ
  pub ended_at : Option ℕ
  pub start_state : Option Session
  pub end_state : Option Session
  pub binding : Option Binding
  pub evidence : List Evidence
  pub alerts : List String
  pub events : List Event
  pub explanation : String
  pub expected_generation : Option String

-- `allowed` of `_transition`
abbrev pub may_follow : Status → Status → Bool
may_follow requested admitted = true
may_follow requested running = false
may_follow requested succeeded = false
may_follow requested t = is_terminal t
may_follow admitted running = true
may_follow admitted succeeded = false
may_follow admitted t = is_terminal t
may_follow running t = is_terminal t
may_follow _ t = false
