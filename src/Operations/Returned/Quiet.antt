-- ===== src/Operations/Returned/Quiet.antt =====
-- The parts of the handlers of src/lich_agent_bridge/operations.py that give nothing to the broker,
-- and those that leave the world as it is too.
use lich_agent_bridge.Base.{ℕ, String, Option, none, some, List, refl}
use lich_agent_bridge.Base.Dict.{insert}
use lich_agent_bridge.Watchers.Types.{Profile}
use lich_agent_bridge.Operations.Types.{Argument, Session, number, other, text, texts}
use lich_agent_bridge.Operations.Host.{Host, Texts}
use lich_agent_bridge.Operations.Monad.{fail, give_out}
use lich_agent_bridge.Operations.Direct.{Direct, accepted, refused, normalize_full_access_command}
use lich_agent_bridge.Operations.Scripts.{Adapter}
use lich_agent_bridge.Operations.Readiness.{
  require_no_owner_conflicts, validate_hunt_readiness, validate_room_loot_start,
  verify_room_loot_end, verify_script_owns_lanes,
}
use lich_agent_bridge.Operations.Items.{
  methods_given, parse_item_audit_arguments, set_item, set_number,
}
use lich_agent_bridge.Operations.Handlers.{
  accept, after_delivery, after_start, after_sweep, command_given, require_empty_arguments,
}
use lich_agent_bridge.Operations.Submissions.{keeps_rules, Keeps-require_fresh_session}
use lich_agent_bridge.Operations.Returned.Sent.{Quiet}
use lich_agent_bridge.Operations.Returned.Still.{Still, Still-pure, Still-update, still_rules}

module _ {W : Type 0} (py : Texts) where
  pub Quiet-conflicts :
      (x : Session) (a : Adapter) → Quiet {W = W} (require_no_owner_conflicts py x a)
  unfolding require_no_owner_conflicts
  Quiet-conflicts x a l = search keeps_rules depth 20

  pub Quiet-owns : (x : Session) (a : Adapter) → Quiet {W = W} (verify_script_owns_lanes py x a)
  unfolding verify_script_owns_lanes
  Quiet-owns x a l = search keeps_rules depth 20

  pub Quiet-readiness :
      (x : Session) (p : Profile) (a : Adapter) → Quiet {W = W} (validate_hunt_readiness py x p a)
  unfolding validate_hunt_readiness
  Quiet-readiness x p a l = search (keeps_rules, Quiet-conflicts) depth 30

  pub Quiet-loot_start :
      (x : Session) (o : Option (List String)) → Quiet {W = W} (validate_room_loot_start py x o)
  unfolding validate_room_loot_start
  Quiet-loot_start x o l = search keeps_rules depth 30

  pub Quiet-loot_end :
      (x : Session) (k : List String) (i : String) → Quiet {W = W} (verify_room_loot_end py x k i)
  unfolding verify_room_loot_end
  Quiet-loot_end x k i l = search keeps_rules depth 30

module _ {W R : Type 0} (py : Texts) (host : Host W R) where
  pub Quiet-no_arguments : Quiet {W = W} (require_empty_arguments py host)
  unfolding require_empty_arguments
  Quiet-no_arguments l = search keeps_rules

  pub Quiet-after_delivery :
      (x : Session) (n : ℕ) (i : String) → Quiet {W = W} (after_delivery py host x n i)
  unfolding after_delivery
  Quiet-after_delivery x n i l = search (keeps_rules, Keeps-require_fresh_session) depth 20

  pub Quiet-after_start :
      (x : Session) (n : ℕ) (p : Profile) → Quiet {W = W} (after_start py host x n p)
  unfolding after_start
  Quiet-after_start x n p l =
      search (keeps_rules, Keeps-require_fresh_session, Quiet-readiness, Quiet-owns) depth 20

  pub Quiet-after_sweep :
      (x : Session) (n : ℕ) (k : List String) (i : String)
      → Quiet {W = W} (after_sweep py host x n k i)
  unfolding after_sweep
  Quiet-after_sweep x n k i l =
      search (keeps_rules, Keeps-require_fresh_session, Quiet-loot_end) depth 20

  Quiet-accept : (d : Direct) → Quiet {W = W} (accept py host d)
  Quiet-accept (refused e) l = search keeps_rules
  Quiet-accept (accepted c) l = search keeps_rules

  pub Quiet-command_given : (a : Option Argument) → Quiet {W = W} (command_given py host a)
  Quiet-command_given none l = search keeps_rules
  Quiet-command_given (some (number n)) l = search keeps_rules
  Quiet-command_given (some (texts k)) l = search keeps_rules
  Quiet-command_given (some other) l = search keeps_rules
  Quiet-command_given (some (text c)) l =
      Quiet-accept (normalize_full_access_command py.casefold c) l

  pub Still-no_arguments : Still {W = W} (require_empty_arguments py host)
  unfolding require_empty_arguments
  Still-no_arguments = search still_rules

  Still-fail : {A : Type 0} (d : String) → Still {W = W} {A = A} (fail d)
  unfolding give_out
  Still-fail d = record { world = λ s. refl; character = λ s. refl }

  Still-accept : (d : Direct) → Still {W = W} (accept py host d)
  Still-accept (refused e) = Still-fail _
  Still-accept (accepted c) = Still-pure c

  pub Still-command_given : (a : Option Argument) → Still {W = W} (command_given py host a)
  Still-command_given none = Still-fail _
  Still-command_given (some (number n)) = Still-fail _
  Still-command_given (some (texts k)) = Still-fail _
  Still-command_given (some other) = Still-fail _
  Still-command_given (some (text c)) = Still-accept (normalize_full_access_command py.casefold c)

  Still-set_item : (i : String) → Still {W = W} (set_item py host i)
  Still-set_item i =
      Still-update (λ o. record o { arguments = insert "item_id" (text i) o.arguments }) (λ o. refl)

  Still-set_number : (a : Option Argument) → Still {W = W} (set_number py host a)
  Still-set_number none = Still-pure tt
  Still-set_number (some (number n)) = Still-set_item _
  Still-set_number (some (texts k)) = Still-pure tt
  Still-set_number (some other) = Still-pure tt
  Still-set_number (some (text c)) = Still-pure tt

  Still-methods_given : (a : Option Argument) → Still {W = W} (methods_given py host a)
  Still-methods_given none = Still-pure _
  Still-methods_given (some (number n)) = Still-fail _
  Still-methods_given (some (texts k)) = Still-pure k
  Still-methods_given (some other) = Still-fail _
  Still-methods_given (some (text c)) = Still-fail _

  pub Still-parse : Still {W = W} (parse_item_audit_arguments py host)
  unfolding parse_item_audit_arguments
  Still-parse = search (still_rules, Still-set_number, Still-set_item, Still-methods_given) depth 30
