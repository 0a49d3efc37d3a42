-- ===== src/Operations/Submissions/Items.antt =====
-- What `item.audit` gives to the broker: commands for its one exact object, in its one session.

use lich_agent_bridge.Base.{
  All, Bool-cases, inl, inr, eq_iff, ap, ◌≡◌, refl, arith, ℕ, String, Bool, true, some, List, [],
  ◌∷◌, ◌++◌, str_eq,
}
use lich_agent_bridge.Actions.Types.{Proposal}
use lich_agent_bridge.Operations.Types.{Binding, Location, Method, Session, Status}
use lich_agent_bridge.Operations.Host.{Host, Texts}
use lich_agent_bridge.Operations.Monad.{M, Machine, done, require, ◌>>=◌}
use lich_agent_bridge.Operations.Objects.{refers_to}
use lich_agent_bridge.Operations.Items.{
  bring_back, exact_item, fresh_bound_item, require_owned_location, restore_failed,
  restore_original, run_action_step, run_diagnostic, run_diagnostics, run_item_audit, run_spells,
  take_in_hand, verify_binding,
}
use lich_agent_bridge.Operations.Submissions.{
  Keeps, Keeps-bind, Keeps-give_out, Keeps-progress, Keeps-pure, Keeps-require, Keeps-require_then,
  Keeps-run_broker_step, Keeps-snapshot, Keeps-unless_cleanup, chained-kept, keeps_rules,
}

-- The proposal names the bound object exactly, and asks for the bound session.
pub record IsBound (b : Binding) (p : Proposal) : Type 0 where
  pub command : String
  pub given : p.command ≡ some command
  pub exact : refers_to b.object_id command ≡ true
  pub session : p.expected_generation ≡ some b.generation

abbrev pub AllBound : Binding → List Proposal → Type 0
AllBound b l = All (IsBound b) l

All-append {ℓ κ} : {A : Type ℓ} (Q : A → Type κ) (l m : List A) → All Q l → All Q m → All Q (l ++ m)
All-append Q [] m h k = k
All-append Q (x ∷ l) m h k = (h.0, All-append Q l m h.1 k)

module _ {W R : Type 0} (P : List Proposal → Type 0) (py : Texts) (host : Host W R) where
  pub Keeps-exact_item : (s : Session) (c : Binding) → Keeps {W = W} P (exact_item py host s c)
  unfolding exact_item
  Keeps-exact_item s c = search keeps_rules

  Keeps-require_owned_location :
      (c : String) (l : Location) → Keeps {W = W} P (require_owned_location py host c l)
  unfolding require_owned_location
  Keeps-require_owned_location c l = Keeps-require _ _ _

  pub Keeps-verify_binding :
      (s : Session) (c : Binding) → Keeps {W = W} P (verify_binding py host s c)
  unfolding verify_binding
  Keeps-verify_binding s c =
      search (keeps_rules, Keeps-exact_item, Keeps-require_owned_location) depth 20

  pub Keeps-fresh_bound_item : (c : Binding) → Keeps {W = W} P (fresh_bound_item py host c)
  unfolding fresh_bound_item
  Keeps-fresh_bound_item c =
      search (keeps_rules, Keeps-snapshot, Keeps-verify_binding, Keeps-exact_item) depth 20

module _ {W R : Type 0} (py : Texts) (host : Host W R) (b : Binding) where
  verified-generation :
      (s : Session) (x : Unit) (t u : Machine W)
      → verify_binding py host s b t ≡ (done x, u)
      → s.generation ≡ b.generation
  unfolding verify_binding require ◌>>=◌
  verified-generation s x t u h = elim (Bool-cases (str_eq s.generation b.generation)) [
    | inl e ↦ ground (arith, e, eq_iff s.generation b.generation)
    | inr e ↦ elim (Bool-cases (str_eq (py.casefold s.character) (py.casefold b.character))) [
      | inl f ↦ cc (rw (f, e) at h)
      | inr f ↦ cc (rw f at h)
    ]
  ]

  Keeps-verified :
      {A : Type 0} (s : Session) (m : M W A)
      → (s.generation ≡ b.generation → Keeps (AllBound b) m)
      → Keeps (AllBound b) (verify_binding py host s b >>= λ _. m)
  unfolding ◌>>=◌
  Keeps-verified s m h = record {
    kept = λ t p.
        chained-kept (AllBound b) (verify_binding py host s b t) _
          ((Keeps-verify_binding (AllBound b) py host s b).kept t p)
          (λ x u e q. (h (verified-generation s x t u e)).kept u q);
  }

  pub Keeps-run_action_step :
      (fuel : ℕ) (c d : String) (u : Bool)
      → Keeps {W = W} (AllBound b) (run_action_step py host fuel b c d u)
  unfolding run_action_step
  Keeps-run_action_step fuel c d u = Keeps-bind _ _ _ (Keeps-unless_cleanup _ py host u) (λ _.
      Keeps-require_then _ _ _ _ (λ exact. Keeps-bind _ _ _ (Keeps-snapshot _ py host) (λ s.
        Keeps-verified s _ (λ same.
          Keeps-run_broker_step _ py host s c
            (λ o n l h.
              All-append (IsBound b) l _ h
                (record { command = c; given = refl; exact = exact; session = ap some same }, tt))
            fuel d u))))

  Keeps-run_diagnostic :
      (fuel : ℕ) (m : Method) → Keeps {W = W} (AllBound b) (run_diagnostic py host fuel b m)
  unfolding run_diagnostic
  Keeps-run_diagnostic fuel m =
      search (keeps_rules, Keeps-progress, Keeps-run_action_step, Keeps-fresh_bound_item) depth 40

  Keeps-run_diagnostics :
      (fuel : ℕ) (ms : List Method) → Keeps {W = W} (AllBound b) (run_diagnostics py host fuel b ms)
  unfolding run_diagnostics
  Keeps-run_diagnostics fuel [] = Keeps-pure _ _
  Keeps-run_diagnostics fuel (m ∷ ms) =
      Keeps-bind _ _ _ (Keeps-run_diagnostic fuel m) (λ _. Keeps-run_diagnostics fuel ms)

  Keeps-take_in_hand : (fuel : ℕ) → Keeps {W = W} (AllBound b) (take_in_hand py host fuel b)
  unfolding take_in_hand
  Keeps-take_in_hand fuel =
      search (keeps_rules, Keeps-run_action_step, Keeps-fresh_bound_item) depth 20

  Keeps-run_spells :
      (fuel : ℕ) (ms : List Method) → Keeps {W = W} (AllBound b) (run_spells py host fuel b ms)
  unfolding run_spells
  Keeps-run_spells fuel [] = Keeps-pure _ _
  Keeps-run_spells fuel (m ∷ ms) =
      search (keeps_rules, Keeps-fresh_bound_item, Keeps-take_in_hand, Keeps-run_diagnostics) depth
        20

  Keeps-restore_failed :
      (t : Status) (d : String) → Keeps {W = W} (AllBound b) (restore_failed py host t d)
  unfolding restore_failed
  Keeps-restore_failed t d = Keeps-give_out _ _ _

  Keeps-bring_back :
      (fuel : ℕ) (c : String) → Keeps {W = W} (AllBound b) (bring_back py host fuel b c)
  unfolding bring_back
  Keeps-bring_back fuel c =
      search
        (
          keeps_rules, Keeps-restore_failed, Keeps-run_action_step, Keeps-fresh_bound_item,
          Keeps-progress,
        )
        depth 20

  Keeps-restore_original : (fuel : ℕ) → Keeps {W = W} (AllBound b) (restore_original py host fuel b)
  unfolding restore_original
  Keeps-restore_original fuel =
      search (keeps_rules, Keeps-fresh_bound_item, Keeps-progress, Keeps-bring_back) depth 20

  pub Keeps-run_item_audit :
      (fuel : ℕ) (ms : List Method) → Keeps {W = W} (AllBound b) (run_item_audit py host fuel b ms)
  unfolding run_item_audit
  Keeps-run_item_audit fuel ms =
      search (keeps_rules, Keeps-run_diagnostics, Keeps-run_spells, Keeps-restore_original) depth 20
