-- ===== src/Operations/Submissions/Cleanup.antt =====
-- What `_safe_cleanup` gives to the broker: nothing after a timeout, and otherwise commands for the
-- exact object in the bound session.
use lich_agent_bridge.Base.{
  subst, sym, ◌≡◌, refl, ℕ, String, Bool, true, false, not, Option, none, some, List, [], ◌∷◌,
  if◌then◌else◌,
}
use lich_agent_bridge.Operations.Types.{Method, Binding, Item, Location, Session, Status, timed_out}
use lich_agent_bridge.Operations.Host.{Host, Texts}
use lich_agent_bridge.Operations.Monad.{
  M, Machine, Outcome, abort, catch, done, failure, unfinished, get_operation, ◌>>=◌,
}
use lich_agent_bridge.Operations.Items.{run_item_audit, run_action_step}
use lich_agent_bridge.Operations.Execution.{
  after_failure, attempt, cleanup_raised, execute_operation, finish, give_up, bound_item, choose,
  clean_up, clean_up_bound, cleanup_blocked, cleanup_failed, move_to, place, safe_cleanup, secure,
  settle, settle_if,
}
use lich_agent_bridge.Operations.Submissions.{
  Keeps, Keeps-bind, Keeps-clock, Keeps-get_operation, Keeps-transition, Keeps-if, Keeps-pure,
  Keeps-raise_alert, Keeps-safe_snapshot, keeps_rules, Keeps-catch_abort,
}
use lich_agent_bridge.Actions.Types.{Proposal}
use lich_agent_bridge.Operations.Submissions.Items.{
  AllBound, Keeps-exact_item, Keeps-fresh_bound_item, Keeps-run_action_step, Keeps-run_item_audit,
  Keeps-verify_binding,
}

-- Whether commands are allowed, and then what a step keeps.
module _ {W R : Type 0} (P : List Proposal → Type 0) (py : Texts) (host : Host W R) (fuel : ℕ)
    (b : Binding) (allowed : Bool)
    (steps : (c d : String)
      → allowed ≡ true
      → Keeps {W = W} P (run_action_step py host fuel b c d true)) where
  Keeps-cleanup_failed : (t : Status) (d : String) → Keeps {W = W} P (cleanup_failed py host t d)
  unfolding cleanup_failed
  Keeps-cleanup_failed t d = Keeps-raise_alert P py host _

  Keeps-secure :
      (l : Location) (c : String) → allowed ≡ true → Keeps {W = W} P (secure py host fuel b l c)
  unfolding secure
  Keeps-secure l c h =
      search (keeps_rules, steps, Keeps-fresh_bound_item, Keeps-raise_alert) depth 20

  Keeps-place :
      (l : Location) (c : Option String)
      → allowed ≡ true
      → Keeps {W = W} P (place py host fuel b l c)
  unfolding place
  Keeps-place l none h = Keeps-raise_alert P py host _
  Keeps-place l (some c) h = Keeps-catch_abort _ _ _ (Keeps-secure l c h) Keeps-cleanup_failed

  Keeps-if_allowed :
      (a : Bool) (m n : M W (Unit {0}))
      → allowed ≡ a
      → Keeps {W = W} P m
      → (allowed ≡ true → Keeps {W = W} P n)
      → Keeps {W = W} P (if not a then m else n)
  Keeps-if_allowed true m n e h k = k e
  Keeps-if_allowed false m n e h k = h

  Keeps-move_to : (x : Item) (l : Location) → Keeps {W = W} P (move_to py host fuel allowed b x l)
  unfolding move_to
  Keeps-move_to x l =
      Keeps-if P _ _ _ (Keeps-raise_alert P py host _)
        (Keeps-if_allowed allowed _ _ refl (Keeps-raise_alert P py host _) (λ h. Keeps-place l _ h))

  Keeps-choose :
      (x : Item) (l : List Location) → Keeps {W = W} P (choose py host fuel allowed b x l)
  unfolding choose
  Keeps-choose x [] = Keeps-raise_alert P py host _
  Keeps-choose x (l ∷ rest) = Keeps-move_to x _

  Keeps-settle : (x : Item) → Keeps {W = W} P (settle py host fuel allowed b x)
  unfolding settle
  Keeps-settle x = search (keeps_rules, Keeps-raise_alert, Keeps-choose) depth 20

  Keeps-cleanup_blocked : (t : Status) (d : String) → Keeps {W = W} P (cleanup_blocked py host t d)
  unfolding cleanup_blocked
  Keeps-cleanup_blocked t d = search (keeps_rules, Keeps-raise_alert)

  Keeps-bound_item : (s : Session) → Keeps {W = W} P (bound_item py host s b)
  unfolding bound_item
  Keeps-bound_item s = search (keeps_rules, Keeps-verify_binding, Keeps-exact_item) depth 20

  Keeps-settle_if : (x : Option Item) → Keeps {W = W} P (settle_if py host fuel allowed b x)
  unfolding settle_if
  Keeps-settle_if none = Keeps-pure P _
  Keeps-settle_if (some x) = Keeps-settle x

  Keeps-clean_up : (s : Option Session) → Keeps {W = W} P (clean_up py host fuel allowed b s)
  unfolding clean_up
  Keeps-clean_up none = Keeps-raise_alert P py host _
  Keeps-clean_up (some s) =
      Keeps-bind P _ _ (Keeps-catch_abort _ _ _ (Keeps-bound_item s) Keeps-cleanup_blocked)
        (λ x. Keeps-settle_if x)

  pub Keeps-clean_up_bound : Keeps {W = W} P (clean_up_bound py host fuel allowed (some b))
  unfolding clean_up_bound
  Keeps-clean_up_bound = Keeps-bind P _ _ (Keeps-safe_snapshot P py host) (λ s. Keeps-clean_up s)

clean_up_bound-none :
    {W R : Type 0} (P : List Proposal → Type 0) (py : Texts) (host : Host W R) (fuel : ℕ) (a : Bool)
    → Keeps {W = W} P (clean_up_bound py host fuel a none)
unfolding clean_up_bound
clean_up_bound-none P py host fuel a = Keeps-pure P _

-- What follows a timeout.
module _ {W R : Type 0} (P : List Proposal → Type 0) (py : Texts) (host : Host W R) where
  Keeps-late_bound :
      (fuel : ℕ) (o : Option Binding) → Keeps {W = W} P (clean_up_bound py host fuel false o)
  Keeps-late_bound fuel none = clean_up_bound-none P py host fuel false
  Keeps-late_bound fuel (some b) = Keeps-clean_up_bound P py host fuel b false (λ c d h. cc)

  Keeps-late_cleanup : (fuel : ℕ) → Keeps {W = W} P (safe_cleanup py host fuel false)
  unfolding safe_cleanup
  Keeps-late_cleanup fuel =
      Keeps-bind P _ _ (Keeps-get_operation P) (λ o. Keeps-late_bound fuel o.binding)

  Keeps-cleanup_raised : (x : Outcome (Unit {0})) → Keeps {W = W} P (cleanup_raised py host x)
  unfolding cleanup_raised
  Keeps-cleanup_raised unfinished = record { kept = λ s h. h }
  Keeps-cleanup_raised (abort t d) = record {
    kept = λ s h. (Keeps-raise_alert P py host _).kept s h;
  }
  Keeps-cleanup_raised (failure x) = record {
    kept = λ s h. (Keeps-raise_alert P py host _).kept s h;
  }
  Keeps-cleanup_raised (done a) = record { kept = λ s h. h }

  Keeps-finish : (t : Status) (d : String) → Keeps {W = W} P (finish py host t d)
  unfolding finish
  Keeps-finish t d = search (keeps_rules, Keeps-clock, Keeps-transition) depth 20

  Keeps-give_up : (fuel : ℕ) (d : String) → Keeps {W = W} P (give_up py host fuel timed_out d)
  unfolding give_up
  Keeps-give_up fuel d =
      search
        (keeps_rules, Keeps-late_cleanup, Keeps-cleanup_raised, Keeps-safe_snapshot, Keeps-finish)
        depth 20

-- After a timeout no command goes to the broker: where the handler of an operation has ended with a
-- timeout, what is done until the operation ends, its clean-up included, gives the broker nothing,
-- wherever the item is.
pub execute_operation-late :
    {W R : Type 0} (py : Texts) (host : Host W R) (fuel : ℕ) (handler : Option (M W String))
    (d : String) (s t : Machine W)
    → attempt py host handler s ≡ (abort timed_out d, t)
    → (execute_operation py host fuel handler s).1.submitted ≡ t.submitted
unfolding execute_operation after_failure catch
execute_operation-late py host fuel handler d s t h =
    rw h ((Keeps-give_up (λ l. l ≡ t.submitted) py host fuel d).kept t refl)

-- An audit and the clean-up after it act on one exact object only: all the proposals that the
-- diagnostics, the restoration and the clean-up give to the broker carry a command that names the
-- bound object's id, and not a longer number, and the generation of the bound session, provided
-- that those given before do.
pub audit-AllBound :
    {W R : Type 0} (py : Texts) (host : Host W R) (fuel : ℕ) (b : Binding) (methods : List Method)
    (allowed : Bool) (s t : Machine W)
    → AllBound b s.submitted
    → t ≡ (run_item_audit py host fuel b methods s).1
    → t.operation.binding ≡ some b
    → AllBound b (safe_cleanup py host fuel allowed t).1.submitted
unfolding safe_cleanup get_operation ◌>>=◌
audit-AllBound {W = W} py host fuel b methods allowed s t h e bound =
    (kept t.operation.binding bound).kept t (
      subst (λ u. AllBound b u.submitted) (sym e)
        ((Keeps-run_item_audit py host b fuel methods).kept s h))
  where
    kept :
        (o : Option Binding)
        → o ≡ some b
        → Keeps {W = W} (AllBound b) (clean_up_bound py host fuel allowed o)
    kept none f = cc
    kept (some c) f =
        subst (λ o. Keeps {W = W} (AllBound b) (clean_up_bound py host fuel allowed o)) (sym f)
          (Keeps-clean_up_bound _ py host fuel b allowed
            (λ c d g. Keeps-run_action_step py host b fuel c d true))
