-- ===== src/Operations/Monad.antt =====
-- The steps of a capability handler: state, `_OperationAbort`, other exceptions, and fuel.
use lich_agent_bridge.Base.{String, Bool, true, false, Option, none, some, List, [], ◌∷◌, ◌++◌}
use lich_agent_bridge.Actions.Types.{Proposal}
use lich_agent_bridge.Operations.Types.{Operation, Status}
use lich_agent_bridge.Operations.Host.{Fault, Reply, returned, raised}

-- The operation that the handler owns, the world, and the proposals given to the broker, which the
-- source does not keep.
pub record Machine (W : Type 0) : Type 0 where
  pub operation : Operation
  pub world : W
  pub submitted : List Proposal

pub data Outcome (A : Type 0) : Type 0 where
  done : A → Outcome A
  abort : Status → String → Outcome A
  failure : Fault → Outcome A
  unfinished : Outcome A

abbrev pub M : Type 0 → Type 0 → Type 0
M W A = Machine W → Outcome A × Machine W

abbrev pub outcome_of : {A : Type 0} → Reply A → Outcome A
outcome_of (returned a) = done a
outcome_of (raised e) = failure e

module _ {W : Type 0} where
  -- The second step, on what the first came to.
  abbrev pub chained : {A B : Type 0} → Outcome A × Machine W → (A → M W B) → Outcome B × Machine W
  chained (done a, s) f = f a s
  chained (abort t d, s) f = (abort t d, s)
  chained (failure x, s) f = (failure x, s)
  chained (unfinished, s) f = (unfinished, s)

  unfoldable pub pure : {A : Type 0} → A → M W A
  pure a s = (done a, s)

  -- `raise _OperationAbort(...)`
  unfoldable pub give_out : {A : Type 0} → Status → String → M W A
  give_out t d s = (abort t d, s)

  abbrev pub fail : {A : Type 0} → String → M W A
  fail d = give_out Status.failed d

  -- Another exception.
  unfoldable pub break_off : {A : Type 0} → Fault → M W A
  break_off x s = (failure x, s)

  -- `raise _OperationAbort("failed", ...)` unless the test holds
  unfoldable pub require : Bool → String → M W (Unit {0})
  require true d s = (done tt, s)
  require false d s = (abort Status.failed d, s)

  unfoldable pub demand : {A : Type 0} → Option A → String → M W A
  demand none d s = (abort Status.failed d, s)
  demand (some a) d s = (done a, s)

  unfoldable pub get_operation : M W Operation
  get_operation s = (done s.operation, s)

  unfoldable pub update : (Operation → Operation) → M W (Unit {0})
  update f s = (done tt, record s { operation = f s.operation })

  -- A call that may raise.
  unfoldable pub call : {A : Type 0} → (W → Reply A × W) → M W A
  call f s = let (a, w) = f s.world in (outcome_of a, record s { world = w })

  -- A call that does not.
  unfoldable pub read : {A : Type 0} → (W → A × W) → M W A
  read f s = let (a, w) = f s.world in (done a, record s { world = w })

  unfoldable pub log_submitted : Proposal → M W (Unit {0})
  log_submitted p s = (done tt, record s { submitted = s.submitted ++ p ∷ [] })

  -- `except _OperationAbort as error`
  abbrev pub recovered_abort :
      {A : Type 0} → Outcome A × Machine W → (Status → String → M W A) → Outcome A × Machine W
  recovered_abort (done a, s) h = (done a, s)
  recovered_abort (abort t d, s) h = h t d s
  recovered_abort (failure x, s) h = (failure x, s)
  recovered_abort (unfinished, s) h = (unfinished, s)

  unfoldable pub catch_abort : {A : Type 0} → M W A → (Status → String → M W A) → M W A
  catch_abort m h s = recovered_abort (m s) h

  -- `except Exception as error`, which catches an `_OperationAbort` too
  abbrev pub recovered :
      {A : Type 0} → Outcome A × Machine W → (Outcome A → M W A) → Outcome A × Machine W
  recovered (done a, s) h = (done a, s)
  recovered (abort t d, s) h = h (abort t d) s
  recovered (failure x, s) h = h (failure x) s
  recovered (unfinished, s) h = (unfinished, s)

  unfoldable pub catch : {A : Type 0} → M W A → (Outcome A → M W A) → M W A
  catch m h s = recovered (m s) h

infixl 5 ◌>>=◌ ◌>>◌
unfoldable pub ◌>>=◌ : {W A B : Type 0} → M W A → (A → M W B) → M W B
◌>>=◌ m f s = chained (m s) f

abbrev pub ◌>>◌ : {W A B : Type 0} → M W A → M W B → M W B
m >> k = m >>= λ _. k
