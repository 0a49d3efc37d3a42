-- ===== src/Actions/Types.antt =====
-- The data of src/lich_agent_bridge/actions.py: actions, requests, audit events and errors.
-- A time is a number of ticks of the injected clock; `Env.second` ticks make a second.
use lich_agent_bridge.Base.{ℕ, String, Bool, true, false, Option, List}

-- One constructor for each message of `ValidationError` that the broker raises.
pub data Error : Type 0 where
  blank_text long_text bad_action_id bad_command : Error
  not_exactly_one_command bad_command_count commands_too_long control_batched kind_batched : Error
  no_active_generation inactive_generation proposal_generation actions_disabled : Error
  bad_controlled_launch unexpected_controller_deadline operation_deadline : Error
  not_found other_character other_generation not_awaiting_confirmation room_changed : Error
  not_dispatched other_test_owner not_test_launch other_control_owner : Error
  not_refuge_launch not_authorized other_run_owner bad_timeout timeout_range : Error

pub data Result {ℓ} (A : Type ℓ) : Type ℓ where
  ok : A → Result A
  err : Error → Result A

-- `_Action.status`
pub data Status : Type 0 where
  confirmation_required queued dispatched completed failed cancelled expired denied_stale_room :
      Status

-- `status in {"confirmation_required", "queued"}`
abbrev pub is_pending : Status → Bool
is_pending confirmation_required = true
is_pending queued = true
is_pending _ = false

-- `status in {"dispatched", "completed", "failed"}`
abbrev pub is_launched : Status → Bool
is_launched dispatched = true
is_launched completed = true
is_launched failed = true
is_launched _ = false

abbrev pub is_queued : Status → Bool
is_queued queued = true
is_queued _ = false

abbrev pub is_awaiting : Status → Bool
is_awaiting confirmation_required = true
is_awaiting _ = false

abbrev pub is_dispatched : Status → Bool
is_dispatched dispatched = true
is_dispatched _ = false

abbrev pub is_completed : Status → Bool
is_completed completed = true
is_completed _ = false

-- `_Action.completion`, which the source leaves `None` until a result is recorded.
pub data Completion : Type 0 where
  has_failed has_succeeded sent_unverified : Completion

pub record Action : Type 0 where
  pub action_id : String
  pub character : String
  pub generation : String
  pub commands : List String
  pub kind : String
  pub status : Status
  pub expected_room_id : Option String
  pub created_at : ℕ
  pub expires_at : ℕ
  pub confirmation_required : Bool
  pub notified : Bool
  pub completion : Option Completion
  pub detail : Option String
  pub test_run : Bool
  pub controller_control : Bool
  pub controller_deadline : Option ℕ
  pub stop_requested : Bool
  pub return_requested : Bool

-- A deadline as the caller passes it: a `bool` or another non-number, an infinity or a NaN, or a
-- finite number.
pub data Deadline : Type 0 where
  not_a_number not_finite : Deadline
  at : ℕ → Deadline

-- A `timeout` argument: what is not a number, a number that is negative or not finite, or ticks of
-- the clock.
pub data Timeout : Type 0 where
  bad_type outside : Timeout
  ticks : ℕ → Timeout

-- `ActionProposal`
pub record Proposal : Type 0 where
  pub character : String
  pub command : Option String
  pub commands : List String
  pub expected_room_id : Option String
  pub expected_generation : Option String
  pub ttl_seconds : ℕ
  pub deadline : Option Deadline
  pub controller_deadline : Option Deadline

-- `ActionContext`
pub record Context : Type 0 where
  pub character : String
  pub room_id : String
  pub generation : String

-- `ActionApproval`
pub record Approval : Type 0 where
  pub action_id : String
  pub character : String
  pub room_id : String
  pub approval_mode : String
  pub generation : String

-- `ActionControl`
pub record Control : Type 0 where
  pub character : String
  pub enabled : Bool
  pub generation : String

pub data Outcome : Type 0 where
  completed failed sent_unverified succeeded : Outcome

-- `ActionResult`
pub record Report : Type 0 where
  pub action_id : String
  pub character : String
  pub outcome : Outcome
  pub detail : String
  pub generation : String

-- `PolicyDecision`, with the normalized command that `CommandPolicy.evaluate` returns beside it.
pub record Decision : Type 0 where
  pub command : String
  pub kind : String
  pub confirmation_required : Bool

pub data Reason : Type 0 where
  stale_room_at_approval stale_room : Reason

-- The events handed to `self._audit`.
pub data Event : Type 0 where
  generation_replaced : String → String → String → List String → Event
  execution_enabled kill_switch : String → String → Event
  action_proposed : Action → Event
  confirmation_requested action_expired : Action → Event
  action_denied : Reason → Action → Option String → Event
  action_dispatched : Action → String → Event
  action_approved : Action → String → String → Event
  action_result : Action → Outcome → Event
  travel_stop_requested action_cancelled test_stop_requested controller_control_revoked :
      Action → Event
  controller_return_requested controller_run_revoked : Action → Event

-- The `status` entry of a public mapping: the action's status, or "execute" on delivery.
pub data Instruction : Type 0 where
  execute : Instruction
  status : Status → Instruction

-- `_Action.public(...)`: `command` and `commands` are one list here, and an entry that the source
-- leaves out is `none`.
pub record PublicAction : Type 0 where
  pub action_id : String
  pub character : String
  pub generation : String
  pub kind : String
  pub instruction : Instruction
  pub expected_room_id : Option String
  pub expires_at : ℕ
  pub commands : List String
  pub completion : Option Completion
  pub detail : Option String
  pub controller_deadline : Option ℕ
  pub return_requested : Option Bool
  pub stop_requested : Option Bool

-- What `admit_generation` returns.
pub record Admission : Type 0 where
  pub character : String
  pub generation : String
  pub replaced_generation : Option String
  pub cancelled_action_ids : List String

-- The state that `ActionBroker.__init__` sets up, and the events that were audited. `actions` is
-- the dict `_actions` in insertion order; its key is `action_id`.
pub record Broker : Type 0 where
  pub enabled : List String
  pub active_generations : List (String × String)
  pub actions : List Action
  pub audit : List Event

-- What the broker takes from elsewhere: Unicode case folding, the length of a second in ticks of
-- the clock, and the command policy with its questions to the controller manifest.
pub record Env : Type 0 where
  pub casefold : String → String
  pub second : ℕ
  pub evaluate : String → Result Decision
  pub is_test_launch : String → Bool
  pub is_controller_control : String → Bool
  pub is_controlled_launch : String → Bool
  pub is_refuge_launch : String → Bool
