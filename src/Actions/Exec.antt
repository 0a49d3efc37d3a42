-- ===== src/Actions/Exec.antt =====
-- Methods of the broker: each runs under the lock, changes the broker and may raise. What was
-- written before a raise stays written, so the broker comes back beside the error too.
use lich_agent_bridge.Base.{Bool, true, false, List, ◌++◌}
use lich_agent_bridge.Actions.Types.{Broker, Error, Event, Result, ok, err}

abbrev pub Exec : Type 0 → Type 0
Exec A = Broker → Result A × Broker

abbrev pub continue : {A B : Type 0} → Result A × Broker → (A → Exec B) → Result B × Broker
continue (ok a, b) f = f a b
continue (err e, b) f = (err e, b)

infixl 5 ◌>>=◌ ◌>>◌
unfoldable pub ◌>>=◌ : {A B : Type 0} → Exec A → (A → Exec B) → Exec B
◌>>=◌ m f b = continue (m b) f

abbrev pub ◌>>◌ : {A B : Type 0} → Exec A → Exec B → Exec B
m >> k = m >>= λ _. k

abbrev pub pure : {A : Type 0} → A → Exec A
pure a b = (ok a, b)

abbrev pub raise : {A : Type 0} → Error → Exec A
raise e b = (err e, b)

abbrev pub lift : {A : Type 0} → Result A → Exec A
lift r b = (r, b)

-- `if not test: raise ValidationError(...)`
abbrev pub check : Bool → Error → Exec (Unit {0})
check true e b = (ok tt, b)
check false e b = (err e, b)

abbrev pub log : List Event → Exec (Unit {0})
log es b = (ok tt, record b { audit = b.audit ++ es })

abbrev pub get_broker : Exec Broker
get_broker b = (ok b, b)
