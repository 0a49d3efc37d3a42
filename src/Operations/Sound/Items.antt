-- ===== src/Operations/Sound/Items.antt =====
-- The steps of `item.audit` end in time: Operations/Items.

use lich_agent_bridge.Base.{
  ◌≡◌, ◌<◌, refl, ℕ, String, Bool, true, Option, none, some, List, [], ◌∷◌, ◌++◌,
}
use lich_agent_bridge.Operations.Types.{
  Argument, Binding, Evidence, Location, Method, Session, Status, text, number, texts, other,
}
use lich_agent_bridge.Operations.Host.{Host, Texts}
use lich_agent_bridge.Operations.Monad.{call, update}
use lich_agent_bridge.Operations.Steps.{run_broker_step}
use lich_agent_bridge.Operations.Items.{
  conclude, bind_item, bring_back, exact_item, execute_item_audit, fresh_bound_item, methods_given,
  parse_item_audit_arguments, require_owned_location, restore_failed, restore_original,
  run_action_step, run_diagnostic, run_diagnostics, run_item_audit, run_spells, set_item,
  set_number, take_in_hand, verify_binding,
}
use lich_agent_bridge.Operations.Sound.{
  Advances, Sound, Sound-bind, Sound-call, Sound-catch_abort, Sound-give_out, Sound-pure,
  Sound-require, Sound-update, is_failure, sound_rules,
}
use lich_agent_bridge.Operations.Sound.Steps.{
  Sound-admit_and_start, Sound-progress, Sound-run_broker_step, Sound-snapshot,
  Sound-unless_cleanup,
}

module _ {W R : Type 0} (py : Texts) (host : Host W R) (limit : ℕ) (adv : Advances host) where
  set_arguments : (i : String) → Sound host limit (set_item py host i)
  set_arguments i = Sound-update _ _ _ (λ o h. h) (λ o. refl)

  Sound-set_number : (a : Option Argument) → Sound host limit (set_number py host a)
  Sound-set_number none = Sound-pure _ _ _
  Sound-set_number (some (text s)) = Sound-pure _ _ _
  Sound-set_number (some (number n)) = set_arguments _
  Sound-set_number (some (texts l)) = Sound-pure _ _ _
  Sound-set_number (some other) = Sound-pure _ _ _

  Sound-methods_given : (a : Option Argument) → Sound host limit (methods_given py host a)
  Sound-methods_given none = Sound-pure _ _ _
  Sound-methods_given (some (texts l)) = Sound-pure _ _ _
  Sound-methods_given (some (text s)) = Sound-give_out _ _ _ _ refl
  Sound-methods_given (some (number n)) = Sound-give_out _ _ _ _ refl
  Sound-methods_given (some other) = Sound-give_out _ _ _ _ refl

  pub Sound-parse : Sound host limit (parse_item_audit_arguments py host)
  unfolding parse_item_audit_arguments
  Sound-parse = search (sound_rules, Sound-set_number, Sound-methods_given, set_arguments) depth 40

  pub Sound-exact_item : (s : Session) (b : Binding) → Sound host limit (exact_item py host s b)
  unfolding exact_item
  Sound-exact_item s b = search sound_rules

  Sound-require_owned_location :
      (c : String) (l : Location) → Sound host limit (require_owned_location py host c l)
  unfolding require_owned_location
  Sound-require_owned_location c l = Sound-require _ _ _ _

  pub Sound-verify_binding :
      (s : Session) (b : Binding) → Sound host limit (verify_binding py host s b)
  unfolding verify_binding
  Sound-verify_binding s b =
      search (sound_rules, Sound-exact_item, Sound-require_owned_location) depth 20

  pub Sound-fresh_bound_item : (b : Binding) → Sound host limit (fresh_bound_item py host b)
  unfolding fresh_bound_item
  Sound-fresh_bound_item b =
      search (sound_rules, Sound-snapshot, adv, Sound-verify_binding, Sound-exact_item) depth 20

  pub Sound-bind_item : (c i : String) (s : Session) → Sound host limit (bind_item py host c i s)
  unfolding bind_item
  Sound-bind_item c i s = search (sound_rules, Sound-require_owned_location) depth 20

  module _ (fuel : ℕ) (enough : limit < fuel) where
    broker_step :
        (s : Session) (c d : String) (b : Bool)
        → Sound host limit (run_broker_step py host fuel s c d b)
    broker_step s c d b = Sound-run_broker_step py host limit adv fuel s c d b enough

    pub Sound-run_action_step :
        (b : Binding) (c d : String) (u : Bool)
        → Sound host limit (run_action_step py host fuel b c d u)
    unfolding run_action_step
    Sound-run_action_step b c d u =
        search
          (
            sound_rules, adv, Sound-unless_cleanup, Sound-snapshot, Sound-verify_binding,
            broker_step,
          )
          depth 20

    Sound-registered :
        (i : String) (m : Method) (b : Binding) → Sound host limit (call (host.register i m b))
    Sound-registered i m b = Sound-call _ _ _ (adv.registrations i m b)

    Sound-verified : (r : R) (i : String) → Sound host limit (call (host.verify r i))
    Sound-verified r i = Sound-call _ _ _ (adv.verifications r i)

    add_evidence :
        (e : Evidence)
        → Sound host limit (update (λ p. record p { evidence = p.evidence ++ e ∷ [] }))
    add_evidence e = Sound-update _ _ _ (λ o h. h) (λ o. refl)

    Sound-run_diagnostic :
        (b : Binding) (m : Method) → Sound host limit (run_diagnostic py host fuel b m)
    unfolding run_diagnostic
    Sound-run_diagnostic b m =
        search
          (
            sound_rules, adv, Sound-registered, Sound-verified, add_evidence, Sound-progress,
            Sound-run_action_step, Sound-fresh_bound_item,
          )
          depth 40

    Sound-run_diagnostics :
        (b : Binding) (ms : List Method) → Sound host limit (run_diagnostics py host fuel b ms)
    unfolding run_diagnostics
    Sound-run_diagnostics b [] = Sound-pure _ _ _
    Sound-run_diagnostics b (m ∷ ms) =
        Sound-bind _ _ _ _ (Sound-run_diagnostic b m) (λ _. Sound-run_diagnostics b ms)

    Sound-take_in_hand : (b : Binding) → Sound host limit (take_in_hand py host fuel b)
    unfolding take_in_hand
    Sound-take_in_hand b =
        search (sound_rules, Sound-run_action_step, Sound-fresh_bound_item) depth 20

    Sound-run_spells :
        (b : Binding) (ms : List Method) → Sound host limit (run_spells py host fuel b ms)
    unfolding run_spells
    Sound-run_spells b [] = Sound-pure _ _ _
    Sound-run_spells b (m ∷ ms) =
        search (sound_rules, Sound-fresh_bound_item, Sound-take_in_hand, Sound-run_diagnostics)
          depth 20

    Sound-restore_failed :
        (t : Status) (d : String)
        → is_failure t ≡ true
        → Sound host limit (restore_failed py host t d)
    unfolding restore_failed
    Sound-restore_failed t d h = Sound-give_out _ _ _ _ refl

    Sound-bring_back : (b : Binding) (c : String) → Sound host limit (bring_back py host fuel b c)
    unfolding bring_back
    Sound-bring_back b c =
        search
          (
            sound_rules, adv, Sound-catch_abort, Sound-restore_failed, Sound-run_action_step,
            Sound-fresh_bound_item, Sound-progress,
          )
          depth 20

    Sound-restore_original : (b : Binding) → Sound host limit (restore_original py host fuel b)
    unfolding restore_original
    Sound-restore_original b =
        search (sound_rules, adv, Sound-fresh_bound_item, Sound-progress, Sound-bring_back) depth 20

    Sound-run_item_audit :
        (b : Binding) (ms : List Method) → Sound host limit (run_item_audit py host fuel b ms)
    unfolding run_item_audit
    Sound-run_item_audit b ms =
        search (sound_rules, Sound-run_diagnostics, Sound-run_spells, Sound-restore_original) depth
          20

    set_start : (s : Session) → Sound host limit (update (λ o. record o { start_state = some s }))
    set_start s = Sound-update _ _ _ (λ o h. h) (λ o. refl)

    set_end : (s : Session) → Sound host limit (update (λ o. record o { end_state = some s }))
    set_end s = Sound-update _ _ _ (λ o h. h) (λ o. refl)

    set_binding : (b : Binding) → Sound host limit (update (λ o. record o { binding = some b }))
    set_binding b = Sound-update _ _ _ (λ o h. h) (λ o. refl)

    Sound-conclude : (b : Binding) → Sound host limit (conclude py host b)
    unfolding conclude
    Sound-conclude b =
        search (sound_rules, adv, Sound-snapshot, set_end, Sound-verify_binding, Sound-exact_item)
          depth 40

    pub Sound-execute_item_audit : Sound host limit (execute_item_audit py host fuel)
    unfolding execute_item_audit
    Sound-execute_item_audit =
        search
          (
            sound_rules, adv, Sound-parse, Sound-snapshot, set_start, set_binding, Sound-bind_item,
            Sound-admit_and_start, Sound-run_item_audit, Sound-conclude,
          )
          depth 60
