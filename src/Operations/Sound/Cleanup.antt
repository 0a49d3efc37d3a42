-- ===== src/Operations/Sound/Cleanup.antt =====
-- The clean-up after a failure ends in time: `_safe_cleanup`.
use lich_agent_bridge.Base.{◌≡◌, ◌<◌, ◌<◌, ℕ, String, Bool, true, Option, none, some, List, [], ◌∷◌}
use lich_agent_bridge.Operations.Types.{Binding, Item, Location, Session, Status}
use lich_agent_bridge.Operations.Host.{Host, Texts}
use lich_agent_bridge.Operations.Monad.{call}
use lich_agent_bridge.Operations.Items.{run_action_step}
use lich_agent_bridge.Operations.Execution.{
  bound_item, choose, clean_up, clean_up_bound, cleanup_blocked, cleanup_failed, move_to, place,
  safe_cleanup, secure, settle, settle_if,
}
use lich_agent_bridge.Operations.Sound.Items.{
  Sound-exact_item, Sound-fresh_bound_item, Sound-run_action_step, Sound-verify_binding,
}
use lich_agent_bridge.Operations.Sound.{
  Advances, Sound, Sound-bind, Sound-call, Sound-catch_abort, Sound-pure, is_failure, sound_rules,
}
use lich_agent_bridge.Operations.Sound.Steps.{Sound-raise_alert, Sound-safe_snapshot}

module _ {W R : Type 0} (py : Texts) (host : Host W R) (limit : ℕ) (adv : Advances host) (fuel : ℕ)
    (enough : limit < fuel) where
  action_step :
      (b : Binding) (c d : String) (u : Bool)
      → Sound host limit (run_action_step py host fuel b c d u)
  action_step = Sound-run_action_step py host limit adv fuel enough

  Sound-cleanup_failed :
      (t : Status) (d : String)
      → is_failure t ≡ true
      → Sound host limit (cleanup_failed py host t d)
  unfolding cleanup_failed
  Sound-cleanup_failed t d h = Sound-raise_alert py host limit adv _

  Sound-secure :
      (b : Binding) (l : Location) (c : String) → Sound host limit (secure py host fuel b l c)
  unfolding secure
  Sound-secure b l c =
      search (sound_rules, adv, action_step, Sound-fresh_bound_item, Sound-raise_alert) depth 20

  Sound-place :
      (b : Binding) (l : Location) (c : Option String) → Sound host limit (place py host fuel b l c)
  unfolding place
  Sound-place b l none = Sound-raise_alert py host limit adv _
  Sound-place b l (some c) = Sound-catch_abort _ _ _ _ (Sound-secure b l c) Sound-cleanup_failed

  Sound-move_to :
      (a : Bool) (b : Binding) (x : Item) (l : Location)
      → Sound host limit (move_to py host fuel a b x l)
  unfolding move_to
  Sound-move_to a b x l = search (sound_rules, adv, Sound-raise_alert, Sound-place) depth 20

  Sound-choose :
      (a : Bool) (b : Binding) (x : Item) (l : List Location)
      → Sound host limit (choose py host fuel a b x l)
  unfolding choose
  Sound-choose a b x [] = Sound-raise_alert py host limit adv _
  Sound-choose a b x (l ∷ rest) = Sound-move_to a b x _

  Sound-places : (c i : String) → Sound host limit (call (host.safest_owned_locations c i))
  Sound-places c i = Sound-call _ _ _ (adv.locations c i)

  Sound-settle : (a : Bool) (b : Binding) (x : Item) → Sound host limit (settle py host fuel a b x)
  unfolding settle
  Sound-settle a b x =
      search (sound_rules, adv, Sound-raise_alert, Sound-places, Sound-choose) depth 20

  Sound-cleanup_blocked :
      (t : Status) (d : String)
      → is_failure t ≡ true
      → Sound host limit (cleanup_blocked py host t d)
  unfolding cleanup_blocked
  Sound-cleanup_blocked t d h = search (sound_rules, adv, Sound-raise_alert)

  Sound-bound_item : (s : Session) (b : Binding) → Sound host limit (bound_item py host s b)
  unfolding bound_item
  Sound-bound_item s b = search (sound_rules, adv, Sound-verify_binding, Sound-exact_item) depth 20

  Sound-settle_if :
      (a : Bool) (b : Binding) (x : Option Item) → Sound host limit (settle_if py host fuel a b x)
  unfolding settle_if
  Sound-settle_if a b none = Sound-pure _ _ _
  Sound-settle_if a b (some x) = Sound-settle a b x

  Sound-clean_up :
      (a : Bool) (b : Binding) (s : Option Session) → Sound host limit (clean_up py host fuel a b s)
  unfolding clean_up
  Sound-clean_up a b none = Sound-raise_alert py host limit adv _
  Sound-clean_up a b (some s) =
      Sound-bind _ _ _ _ (Sound-catch_abort _ _ _ _ (Sound-bound_item s b) Sound-cleanup_blocked)
        (λ x. Sound-settle_if a b x)

  Sound-clean_up_bound :
      (a : Bool) (b : Option Binding) → Sound host limit (clean_up_bound py host fuel a b)
  unfolding clean_up_bound
  Sound-clean_up_bound a none = Sound-pure _ _ _
  Sound-clean_up_bound a (some b) =
      Sound-bind _ _ _ _ (Sound-safe_snapshot py host limit adv) (λ s. Sound-clean_up a b s)

  pub Sound-safe_cleanup : (a : Bool) → Sound host limit (safe_cleanup py host fuel a)
  unfolding safe_cleanup
  Sound-safe_cleanup a = search (sound_rules, Sound-clean_up_bound)
