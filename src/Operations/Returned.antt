-- ===== src/Operations/Returned.antt =====
-- What a step that returned has done: one lemma for each way to build a step.
pub mod Items
pub mod Fresh
pub mod Still
pub mod Sent
pub mod Quiet
pub mod Hunt
pub mod Loot
pub mod Command
use lich_agent_bridge.Base.{
  Bool, true, false, String, ◌≡◌, refl, Option, none, some, arith, ◌∙◌, ap, sym,
}
use lich_agent_bridge.Operations.Types.{Operation}
use lich_agent_bridge.Operations.Types
use lich_agent_bridge.Operations.Host.{Host, Reply, Texts, returned, raised}
use lich_agent_bridge.Operations.Types.{Session}
use lich_agent_bridge.Operations.Monad.{
  M, Machine, Outcome, abort, call, chained, demand, done, failure, get_operation, outcome_of, pure,
  require, unfinished, update, ◌>>=◌,
}
use lich_agent_bridge.Operations.Steps.{snapshot}

module _ {W : Type 0} where
  -- Both steps returned.
  pub bind-done :
      {A B : Type 0} (m : M W A) (f : A → M W B) (s t : Machine W) (b : B)
      → (m >>= f) s ≡ (done b, t)
      → (a : A) × (u : Machine W) × (m s ≡ (done a, u)) × (f a u ≡ (done b, t))
  unfolding ◌>>=◌
  bind-done {A = A} {B = B} m f s t b = split (m s) refl
    where
      split :
          (r : Outcome A × Machine W)
          → m s ≡ r
          → chained r f ≡ (done b, t)
          → (a : A) × (u : Machine W) × (m s ≡ (done a, u)) × (f a u ≡ (done b, t))
      split (done a, u) e h = (a, u, e, h)
      split (abort k d, u) e h = cc
      split (failure x, u) e h = cc
      split (unfinished, u) e h = cc

  -- The same, with what follows from it.
  pub after-bind :
      {A B : Type 0} (m : M W A) (f : A → M W B) (s t : Machine W) (b : B) (G : Type 0)
      → (m >>= f) s ≡ (done b, t)
      → ((a : A) (u : Machine W) → m s ≡ (done a, u) → f a u ≡ (done b, t) → G)
      → G
  after-bind m f s t b G h k = let (a, u, g, e) = bind-done m f s t b h in k a u g e

  pub require-done :
      (b : Bool) (d : String) (s t : Machine W) (x : Unit {0})
      → require b d s ≡ (done x, t)
      → b ≡ true
  unfolding require
  require-done true d s t x h = refl
  require-done false d s t x h = cc

  pub demand-done :
      {A : Type 0} (o : Option A) (d : String) (s t : Machine W) (a : A)
      → demand o d s ≡ (done a, t)
      → o ≡ some a
  unfolding demand
  demand-done none d s t a h = cc
  demand-done (some x) d s t a h = cc

  pub pure-done :
      {A : Type 0} (a b : A) (s t : Machine W) → pure a s ≡ (done b, t) → (a ≡ b) × (s ≡ t)
  unfolding pure
  pure-done a b s t h = (cc, cc)

  pub get_operation-done :
      (o : Operation) (s t : Machine W)
      → get_operation s ≡ (done o, t)
      → (s.operation ≡ o) × (s ≡ t)
  unfolding get_operation
  get_operation-done o s t h = (cc, cc)

  pub update-done :
      (f : Operation → Operation) (x : Unit {0}) (s t : Machine W)
      → update f s ≡ (done x, t)
      → t.operation ≡ f s.operation
  unfolding update
  update-done f x s t h = ap (λ r. r.1.operation) (sym h)

  pub call-done :
      {A : Type 0} (f : W → Reply A × W) (s t : Machine W) (a : A)
      → call f s ≡ (done a, t)
      → f s.world ≡ (returned a, t.world)
  unfolding call
  call-done {A = A} f s t a = split (f s.world) refl
    where
      split :
          (r : Reply A × W)
          → f s.world ≡ r
          → ◌≡◌ {A = Outcome A × Machine W} (outcome_of r.0, record s { world = r.1 }) (done a, t)
          → f s.world ≡ (returned a, t.world)
      split (returned x, w) e h = let same : w ≡ t.world = ap (λ r. r.1.world) h in cc
      split (raised x, w) e h = cc

-- What the adapter returned for a snapshot that was taken.
pub snapshot-done :
    {W R : Type 0} (py : Texts) (host : Host W R) (s t : Machine W) (x : Session)
    → snapshot py host s ≡ (done x, t)
    → host.snapshot s.operation.character s.world ≡ (returned x, t.world)
unfolding snapshot get_operation ◌>>=◌
snapshot-done py host s t x h = call-done (host.snapshot s.operation.character) s t x h
