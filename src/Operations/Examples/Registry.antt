-- ===== src/Operations/Examples/Registry.antt =====
-- Tests and examples of the runner's registry.
use lich_agent_bridge.Base.{String, none, some, [], ◌∷◌, ◌≡◌, refl, arith}
use lich_agent_bridge.Operations.Types.{Operation, requested, text}
use lich_agent_bridge.Operations.Registry.{
  Call, admit, enroll, is_owned, room_for, err, Runner, create, find, init,
}
use lich_agent_bridge.Operations.Acts.{IsFresh, Reach, act, begin, start as begun, after}
use lich_agent_bridge.Operations.Registry
use lich_agent_bridge.Operations.Ownership.{IsRunner}
use lich_agent_bridge.Operations.Reached.{Reach-IsRunner}
use lich_agent_bridge.Operations.Registry.{emit}
use lich_agent_bridge.Base.Text.{is_space, strip, lstrip, rstrip}
use lich_agent_bridge.Operations.Registry.{new_operation}
use lich_agent_bridge.Operations.Fates.{Fate, act-Fate}

abbrev same : String → String
same s = s

abbrev call_one : Call
call_one = record {
  character = "Ann";
  capability = "session.command";
  arguments = ("command", text "look") ∷ [];
  duration = some 20;
  expected_generation = none;
}

abbrev one_operation : Runner
one_operation = act same 2 (begin "op-1" 100 101 call_one) init

-- A second operation of the character is refused, and one with a blank name.
second_refused :
    create same 2 "op-2" 102 103 call_one one_operation
    ≡ (err Registry.already_owned, one_operation)
unfolding act create admit is_owned enroll emit room_for find strip lstrip rstrip is_space
second_refused = refl

fresh_id : find "op-1" init.operations ≡ none
unfolding find
fresh_id = refl

one_reached : Reach same 2 one_operation
one_reached = after (begin "op-1" 100 101 call_one) begun fresh_id

Reach-IsRunner_example : IsRunner same 2 (omega arith) one_operation
Reach-IsRunner_example = Reach-IsRunner same 2 (omega arith) one_reached

abbrev first_operation : Operation
first_operation =
    emit 1 101 requested "operation requested" (new_operation same 2 "op-1" 100 20 call_one)

first_found : find "op-1" one_operation.operations ≡ some first_operation
unfolding act create admit is_owned enroll emit room_for find strip lstrip rstrip is_space
first_found = refl

second-IsFresh : IsFresh same 2 (begin "op-2" 102 103 call_one) one_operation
unfolding act create admit is_owned enroll emit room_for find strip lstrip rstrip is_space
second-IsFresh = refl

act-Fate_example :
    Fate "op-1" first_operation
      (act same 2 (begin "op-2" 102 103 call_one) one_operation).operations
act-Fate_example =
    act-Fate same 2 (omega arith) (begin "op-2" 102 103 call_one) one_operation "op-1"
      first_operation (Reach-IsRunner same 2 (omega arith) one_reached) second-IsFresh first_found
