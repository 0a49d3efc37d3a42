-- ===== src/Operations/Sound/Handlers.antt =====
-- Every handler of src/lich_agent_bridge/operations.py that is modelled ends in time: Operations/Handlers.
use lich_agent_bridge.Base.{
  ◌<◌, refl, ◌<◌, ℕ, String, Bool, true, false, Option, none, some, List, if◌then◌else◌,
}
use lich_agent_bridge.Watchers.Types.{Profile}
use lich_agent_bridge.Operations.Types.{Argument, Session, text, texts, number, other}
use lich_agent_bridge.Operations.Host.{Host, Texts}
use lich_agent_bridge.Operations.Monad.{M}
use lich_agent_bridge.Operations.Steps.{run_broker_step}
use lich_agent_bridge.Operations.Direct.{Direct, accepted, refused}
use lich_agent_bridge.Operations.Scripts.{Adapter}
use lich_agent_bridge.Operations.Readiness.{
  require_no_owner_conflicts, validate_hunt_readiness, validate_room_loot_start,
  verify_room_loot_end, verify_script_owns_lanes,
}
use lich_agent_bridge.Operations.Handlers.{
  after_start, after_sweep, after_delivery, accept, command_given, execute_hunt_prepare,
  execute_room_loot, execute_session_command, handler_of, require_empty_arguments, set_start,
  set_end,
}
use lich_agent_bridge.Operations.Sound.Items.{Sound-execute_item_audit}
use lich_agent_bridge.Operations.Sound.{
  Advances, Sound, Sound-give_out, Sound-pure, Sound-update, sound_rules,
}
use lich_agent_bridge.Operations.Sound.Steps.{
  Sound-admit_and_start, Sound-require_fresh_session, Sound-run_broker_step,
}

module _ {W R : Type 0} (py : Texts) (host : Host W R) (limit : ℕ) (adv : Advances host) (fuel : ℕ)
    (enough : limit < fuel) where
  broker_step :
      (s : Session) (c d : String) (b : Bool)
      → Sound host limit (run_broker_step py host fuel s c d b)
  broker_step s c d b = Sound-run_broker_step py host limit adv fuel s c d b enough

  starts : (s : Session) → Sound host limit (set_start py host s)
  starts s = Sound-update _ _ _ (λ o h. h) (λ o. refl)

  stops : (s : Session) → Sound host limit (set_end py host s)
  stops s = Sound-update _ _ _ (λ o h. h) (λ o. refl)

  Sound-require_empty_arguments : Sound host limit (require_empty_arguments py host)
  unfolding require_empty_arguments
  Sound-require_empty_arguments = search sound_rules

  Sound-conflicts :
      (s : Session) (a : Adapter) → Sound host limit (require_no_owner_conflicts py s a)
  unfolding require_no_owner_conflicts
  Sound-conflicts s a = search sound_rules

  Sound-owns : (s : Session) (a : Adapter) → Sound host limit (verify_script_owns_lanes py s a)
  unfolding verify_script_owns_lanes
  Sound-owns s a = search sound_rules depth 20

  Sound-ready :
      (s : Session) (p : Profile) (a : Adapter)
      → Sound host limit (validate_hunt_readiness py s p a)
  unfolding validate_hunt_readiness
  Sound-ready s p a = search (sound_rules, Sound-conflicts) depth 40

  Sound-loot_start :
      (s : Session) (l : Option (List String)) → Sound host limit (validate_room_loot_start py s l)
  unfolding validate_room_loot_start
  Sound-loot_start s l = search sound_rules depth 40

  Sound-loot_end :
      (s : Session) (l : List String) (i : String)
      → Sound host limit (verify_room_loot_end py s l i)
  unfolding verify_room_loot_end
  Sound-loot_end s l i = search sound_rules depth 40

  Sound-after_start :
      (s : Session) (n : ℕ) (p : Profile) → Sound host limit (after_start py host s n p)
  unfolding after_start
  Sound-after_start s n p =
      search (sound_rules, adv, Sound-require_fresh_session, Sound-ready, Sound-owns, stops) depth
        40

  Sound-after_sweep :
      (s : Session) (n : ℕ) (l : List String) (i : String)
      → Sound host limit (after_sweep py host s n l i)
  unfolding after_sweep
  Sound-after_sweep s n l i =
      search (sound_rules, adv, Sound-require_fresh_session, Sound-loot_end, stops) depth 40

  Sound-execute_hunt_prepare :
      (p : Option Profile) → Sound host limit (execute_hunt_prepare py host fuel p)
  unfolding execute_hunt_prepare
  Sound-execute_hunt_prepare p =
      search
        (
          sound_rules, adv, Sound-require_empty_arguments, Sound-require_fresh_session, starts,
          Sound-ready, Sound-admit_and_start, broker_step, Sound-after_start,
        )
        depth 80

  Sound-execute_room_loot : Sound host limit (execute_room_loot py host fuel)
  unfolding execute_room_loot
  Sound-execute_room_loot =
      search
        (
          sound_rules, adv, Sound-require_empty_arguments, Sound-require_fresh_session, starts,
          Sound-loot_start, Sound-conflicts, Sound-admit_and_start, broker_step, Sound-after_sweep,
        )
        depth 80

  Sound-accept : (d : Direct) → Sound host limit (accept py host d)
  Sound-accept (refused e) = Sound-give_out _ _ _ _ refl
  Sound-accept (accepted s) = Sound-pure _ _ _

  Sound-command_given : (a : Option Argument) → Sound host limit (command_given py host a)
  Sound-command_given none = Sound-give_out _ _ _ _ refl
  Sound-command_given (some (text c)) = Sound-accept _
  Sound-command_given (some (number n)) = Sound-give_out _ _ _ _ refl
  Sound-command_given (some (texts l)) = Sound-give_out _ _ _ _ refl
  Sound-command_given (some other) = Sound-give_out _ _ _ _ refl

  Sound-after_delivery :
      (s : Session) (n : ℕ) (i : String) → Sound host limit (after_delivery py host s n i)
  unfolding after_delivery
  Sound-after_delivery s n i =
      search (sound_rules, adv, Sound-require_fresh_session, stops) depth 40

  Sound-execute_session_command : Sound host limit (execute_session_command py host fuel)
  unfolding execute_session_command
  Sound-execute_session_command =
      search
        (
          sound_rules, adv, Sound-require_fresh_session, starts, Sound-command_given,
          Sound-admit_and_start, broker_step, Sound-after_delivery,
        )
        depth 80

  abbrev pub SoundHandler : Option (M W String) → Type 0
  SoundHandler none = Unit
  SoundHandler (some m) = Sound host limit m

  SoundHandler-if :
      (b : Bool) (m n : Option (M W String))
      → SoundHandler m
      → SoundHandler n
      → SoundHandler (if b then m else n)
  SoundHandler-if true m n h k = h
  SoundHandler-if false m n h k = k

  pub Sound-handler_of :
      (p : Option Profile) (capability : String)
      → SoundHandler (handler_of py host fuel p capability)
  unfolding handler_of
  Sound-handler_of p capability = search (
    SoundHandler-if, Sound-execute_item_audit, Sound-execute_hunt_prepare, Sound-execute_room_loot,
    Sound-execute_session_command, enough, adv, tt,
  )
