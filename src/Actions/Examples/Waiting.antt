-- ===== src/Actions/Examples/Waiting.antt =====
-- A run of `poll_wait`: the action is proposed and approved while the bridge waits.
use lich_agent_bridge.Base.{
  ℕ, ◌+◌, ◌*◌, ◌≤◌, ◌≡◌, refl, Option, some, List, [], ◌∷◌, inl, inr, arith,
}
use lich_agent_bridge.Actions.Types.{PublicAction, Instruction, Result, ok, ticks}
use lich_agent_bridge.Actions.Fields.{public}
use lich_agent_bridge.Actions.Reach.{propose, confirm}
use lich_agent_bridge.Actions.Waiting.{
  Round, end_round, handle_all, poll_wait, poll_wait_ends, poll_wait_safe, returned, wait_limit,
  wait_until, Waits,
}
use lich_agent_bridge.Actions.Examples.{
  bridge, desk, dispatched_action, opened, order, permit, run, sent, token,
}

abbrev rounds : List Round
rounds =
    record { now = 0; clock = 50; others = propose token 0 order ∷ confirm 1 permit ∷ [] }
    ∷ record { now = 2; clock = 60; others = [] }
    ∷ []

served_late :
    poll_wait desk bridge (ticks 15) 50 rounds opened
    ≡ (returned (ok (some (public dispatched_action Instruction.execute))), sent)
unfolding run poll_wait wait_limit wait_until handle_all end_round
served_late = refl

poll_wait_safe_example :
    (t : ℕ) × (ticks 15 ≡ ticks t)
    × (t ≤ 30 * desk.second)
    × Waits desk bridge (50 + t) rounds (some (public dispatched_action Instruction.execute)) sent
poll_wait_safe_example =
    poll_wait_safe desk bridge (ticks 15) 50 rounds opened sent
      (some (public dispatched_action Instruction.execute)) served_late

poll_wait_ends_example :
    (x : Result (Option PublicAction)) × ((poll_wait desk bridge (ticks 10) 50 rounds opened).0
      ≡ returned x)
poll_wait_ends_example = poll_wait_ends desk bridge 10 50 rounds opened (inr (inl (omega arith)))
