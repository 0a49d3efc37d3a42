-- ===== src/Operations/Registry.antt =====
-- The operations that `CapabilityRunner` of src/lich_agent_bridge/operations.py owns. Each function
-- is a section that runs under the runner's lock; the capability handlers are in Operations/Machine.
use lich_agent_bridge.Base.{
  ℕ, ◌+◌, String, Bool, false, ◌&&◌, ◌||◌, not, Option, none, some, List, [], ◌∷◌, ◌++◌, ltb, leb,
  if◌then◌else◌, str_eq, length,
}
use lich_agent_bridge.Base.Dict.{add, discard}
use lich_agent_bridge.Base.Text.{is_blank, strip}
use lich_agent_bridge.Operations.Types.{
  Argument, Event, Operation, Status, requested, failed, is_terminal, may_follow,
}

-- `CapabilityRunner`, without what only controllers, recon and travel use. The key of an operation
-- in `_operations` is its id.
pub record Runner : Type 0 where
  pub operations : List Operation
  pub interruptions : List String
  pub cursor : ℕ

abbrev pub init : Runner
init = record { operations = []; interruptions = []; cursor = 0 }

-- The messages of the `ValidationError`s.
pub data Refusal : Type 0 where
  blank_character blank_capability blank_generation not_positive : Refusal
  already_owned history_full not_found : Refusal

pub data Result {ℓ} (A : Type ℓ) : Type ℓ where
  ok : A → Result A
  err : Refusal → Result A

-- What `perform` and `start` are called with; `duration` is `none` where the timeout is no finite
-- number.
pub record Call : Type 0 where
  pub character : String
  pub capability : String
  pub arguments : List (String × Argument)
  pub duration : Option ℕ
  pub expected_generation : Option String

-- `_emit_locked`, on the operation
unfoldable pub emit : ℕ → ℕ → Status → String → Operation → Operation
emit cursor now status detail o = record o {
  events =
      o.events
      ++ record { cursor = cursor; status = status; detail = detail; timestamp = now } ∷ [];
}

-- `self._operations[operation_id]`
unfoldable pub find : String → List Operation → Option Operation
find i [] = none
find i (o ∷ rest) = if str_eq o.operation_id i then some o else find i rest

-- The operation that the dict holds under its id has changed.
unfoldable pub store : Operation → List Operation → List Operation
store o [] = []
store o (x ∷ rest) = if str_eq x.operation_id o.operation_id then o ∷ rest else x ∷ store o rest

-- `self._operations.pop(...)`
unfoldable pub remove : String → List Operation → List Operation
remove i [] = []
remove i (o ∷ rest) = if str_eq o.operation_id i then rest else o ∷ remove i rest

-- The first operation that has ended.
unfoldable pub first_ended : List Operation → Option String
first_ended [] = none
first_ended (o ∷ rest) = if is_terminal o.status then some o.operation_id else first_ended rest

abbrev pub ended_or_full : Option String → Result (Option String)
ended_or_full none = err history_full
ended_or_full (some i) = ok (some i)

-- What `wait` returns of the operation and its newer events, if it returns.
abbrev pub answer : List Event → Bool → Operation → Option (List Event × Operation)
answer (e ∷ es) late o = some (e ∷ es, o)
answer [] late o = if is_terminal o.status || late then some ([], o) else none

module _ (casefold : String → String) (history_limit : ℕ) where
  -- A nonterminal operation of the character.
  unfoldable pub is_owned : String → List Operation → Bool
  is_owned key [] = false
  is_owned key (o ∷ rest) =
      (str_eq (casefold o.character) key && not (is_terminal o.status)) || is_owned key rest

  -- The test that the history has room: the id to evict, if it is full.
  unfoldable pub room_for : List Operation → Result (Option String)
  room_for l = if leb history_limit (length l) then ended_or_full (first_ended l) else ok none

  abbrev pub evict : Option String → Runner → Runner
  evict none r = r
  evict (some i) r = record r {
    operations = remove i r.operations;
    interruptions = discard i r.interruptions;
  }

  -- The new operation in the dict, with its first event.
  unfoldable pub enroll : ℕ → Operation → Runner → Runner
  enroll now o r = record r {
    operations = r.operations ++ emit (r.cursor + 1) now requested "operation requested" o ∷ [];
    cursor = r.cursor + 1;
  }

  abbrev pub admitted_or : Result (Option String) → ℕ → Operation → Runner → Result String × Runner
  admitted_or (err e) now o r = (err e, r)
  admitted_or (ok i) now o r = (ok o.operation_id, enroll now o (evict i r))

  -- The record that `_create_operation` makes.
  abbrev pub new_operation : String → ℕ → ℕ → Call → Operation
  new_operation token now duration c = record {
    operation_id = token;
    capability = strip c.capability;
    character = strip c.character;
    arguments = c.arguments;
    status = requested;
    requested_at = now;
    deadline = now + duration;
    admitted_at = none;
    started_at = none;
    ended_at = none;
    start_state = none;
    end_state = none;
    binding = none;
    evidence = [];
    alerts = [];
    events = [];
    explanation = "";
    expected_generation = c.expected_generation;
  }

  -- The locked part of `_create_operation`.
  unfoldable pub admit : ℕ → Operation → Runner → Result String × Runner
  admit now o r =
      if is_owned (casefold o.character) r.operations
      then (err already_owned, r)
      else admitted_or (room_for r.operations) now o r

  abbrev pub is_blank_option : Option String → Bool
  is_blank_option none = false
  is_blank_option (some s) = is_blank (strip s)

  abbrev pub create_for : String → ℕ → ℕ → Option ℕ → Call → Runner → Result String × Runner
  create_for token now later none c r = (err not_positive, r)
  create_for token now later (some duration) c r =
      if leb duration 0
      then (err not_positive, r)
      else admit later (new_operation token now duration c) r

  -- `_create_operation`; the clock is read for the request and for its event.
  unfoldable pub create : String → ℕ → ℕ → Call → Runner → Result String × Runner
  unfolding strip
  create token now later c r =
      if is_blank (strip c.character)
      then (err blank_character, r)
      else if is_blank (strip c.capability)
      then (err blank_capability, r)
      else if is_blank_option c.expected_generation
      then (err blank_generation, r)
      else create_for token now later c.duration c r

  -- Change the operation, if it is there.
  abbrev pub change : Option Operation → (Operation → Operation) → Runner → Runner
  change none f r = r
  change (some o) f r = record r { operations = store (f o) r.operations; cursor = r.cursor + 1 }

  -- `_progress`
  unfoldable pub progress : String → ℕ → String → Runner → Runner
  progress i now detail r =
      change (find i r.operations) (λ o. emit (r.cursor + 1) now o.status detail o) r

  -- `_transition`, on the operation that was found; it raises where the status may not follow.
  abbrev pub transition_of : Option Operation → ℕ → Status → String → Runner → Runner
  transition_of none now status detail r = r
  transition_of (some o) now status detail r =
      if may_follow o.status status
      then change (some o)
          (λ p. emit (r.cursor + 1) now status detail (record p { status = status })) r
      else r

  unfoldable pub transition : String → ℕ → Status → String → Runner → Runner
  transition i now status detail r = transition_of (find i r.operations) now status detail r

  abbrev pub fail_of : Option Operation → ℕ → String → Runner → Runner
  fail_of none now detail r = r
  fail_of (some o) now detail r =
      if is_terminal o.status
      then r
      else change (some o)
          (λ p.
            emit (r.cursor + 1) now failed detail
              (record p { explanation = detail; ended_at = some now; status = failed }))
          r

  -- `_fail_unexpected`, where the clock and the event do not raise.
  unfoldable pub fail_unexpected : String → ℕ → String → Runner → Runner
  fail_unexpected i now detail r = fail_of (find i r.operations) now detail r

  abbrev pub interrupt_of : Option Operation → String → Runner → Result (Unit {0}) × Runner
  interrupt_of none i r = (err not_found, r)
  interrupt_of (some o) i r =
      if is_terminal o.status
      then (ok tt, r)
      else (ok tt, record r { interruptions = add i r.interruptions })

  -- `interrupt` of an operation that owns no action of its own.
  unfoldable pub interrupt : String → Runner → Result (Unit {0}) × Runner
  interrupt i r = interrupt_of (find i r.operations) i r

  -- `get`
  unfoldable pub get : String → Runner → Result Operation
  get i r = elim (find i r.operations) [ none ↦ err not_found | some o ↦ ok o ]

  -- `[event for event in operation.events if event.cursor > after_cursor]`
  unfoldable pub after : ℕ → List Event → List Event
  after cursor [] = []
  after cursor (e ∷ rest) =
      let later = after cursor rest in if ltb cursor e.cursor then e ∷ later else later

  of_character : String → List Operation → List Operation
  of_character key [] = []
  of_character key (o ∷ rest) =
      let others = of_character key rest in
      if str_eq (casefold o.character) key then o ∷ others else others

  -- `history`
  unfoldable pub history : Option String → Runner → List Operation
  unfolding of_character
  history none r = r.operations
  history (some character) r = of_character (casefold character) r.operations

  -- `wait`: at each wake-up the runner as the others have left it, and whether the deadline has
  -- passed by then. With no wake-up left it is still waiting.
  unfoldable pub wait : String → ℕ → List (Runner × Bool) → Option (Result (List Event × Operation))
  unfolding after
  wait i cursor [] = none
  wait i cursor ((r, late) ∷ rest) =
      let again = wait i cursor rest in
      elim (find i r.operations) [
        | none ↦ some (err not_found)
        | some o ↦ elim (answer (after cursor o.events) late o) [
          | some x ↦ some (ok x)
          | none ↦ again
        ]
      ]
