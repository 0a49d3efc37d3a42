-- ===== src/Operations/Returned/Still.antt =====
-- Steps that leave the world and the owner of the operation as they are.
use lich_agent_bridge.Base.{
  ℕ, String, Bool, true, false, ◌≡◌, refl, Option, none, some, ap, ◌∙◌, sym, subst,
}
use lich_agent_bridge.Operations.Types.{Operation, Session}
use lich_agent_bridge.Operations.Host.{Host, Texts, returned}
use lich_agent_bridge.Operations.Monad.{
  M, Machine, Outcome, abort, chained, demand, done, failure, get_operation, pure, require,
  unfinished, update, ◌>>=◌,
}
use lich_agent_bridge.Operations.Steps.{require_fresh_session}
use lich_agent_bridge.Operations.Returned.{bind-done, get_operation-done, snapshot-done}
use lich_agent_bridge.Operations.Returned.Fresh.{require_fresh-sequence}

module _ {W : Type 0} where
  pub record Still {A : Type 0} (m : M W A) : Type 0 where
    pub world : (s : Machine W) → (m s).1.world ≡ s.world
    pub character : (s : Machine W) → (m s).1.operation.character ≡ s.operation.character

  pub Still-pure : {A : Type 0} (a : A) → Still (pure a)
  unfolding pure
  Still-pure a = record { world = λ s. refl; character = λ s. refl }

  pub Still-require : (b : Bool) (d : String) → Still (require b d)
  unfolding require
  Still-require true d = record { world = λ s. refl; character = λ s. refl }
  Still-require false d = record { world = λ s. refl; character = λ s. refl }

  pub Still-demand : {A : Type 0} (o : Option A) (d : String) → Still (demand o d)
  unfolding demand
  Still-demand none d = record { world = λ s. refl; character = λ s. refl }
  Still-demand (some a) d = record { world = λ s. refl; character = λ s. refl }

  pub Still-get_operation : Still get_operation
  unfolding get_operation
  Still-get_operation = record { world = λ s. refl; character = λ s. refl }

  pub Still-update :
      (f : Operation → Operation)
      → ((o : Operation) → (f o).character ≡ o.character)
      → Still (update f)
  unfolding update
  Still-update f h = record { world = λ s. refl; character = λ s. h s.operation }

  pub Still-bind :
      {A B : Type 0} (m : M W A) (f : A → M W B)
      → Still m
      → ((a : A) → Still (f a))
      → Still (m >>= f)
  unfolding ◌>>=◌
  Still-bind {A = A} {B = B} m f h g = record {
    world = λ s. on_world (m s) ∙ h.world s;
    character = λ s. on_character (m s) ∙ h.character s;
  }
    where
      on_world : (r : Outcome A × Machine W) → (chained r f).1.world ≡ r.1.world
      on_world (done a, t) = (g a).world t
      on_world (abort k d, t) = refl
      on_world (failure x, t) = refl
      on_world (unfinished, t) = refl

      on_character :
          (r : Outcome A × Machine W)
          → (chained r f).1.operation.character ≡ r.1.operation.character
      on_character (done a, t) = (g a).character t
      on_character (abort k d, t) = refl
      on_character (failure x, t) = refl
      on_character (unfinished, t) = refl

  -- Where the step returned.
  pub Still-world :
      {A : Type 0} {m : M W A} {s t : Machine W} {a : A}
      → Still m
      → m s ≡ (done a, t)
      → t.world ≡ s.world
  Still-world {s = s} h e = ap (λ r. r.1.world) (sym e) ∙ h.world s

  pub Still-character :
      {A : Type 0} {m : M W A} {s t : Machine W} {a : A}
      → Still m
      → m s ≡ (done a, t)
      → t.operation.character ≡ s.operation.character
  Still-character {s = s} h e = ap (λ r. r.1.operation.character) (sym e) ∙ h.character s

pub ruleset still_rules =
    (Still-pure, Still-require, Still-demand, Still-get_operation, Still-update, Still-bind)

-- What the state adapter shows of the operation's character in the world of this machine.
abbrev pub Shows : {W R : Type 0} → Host W R → Machine W → Session → Type 0
Shows {W} host s x = (v : W) × (host.snapshot s.operation.character s.world ≡ (returned x, v))

pub Shows-still :
    {W R : Type 0} (host : Host W R) (s t : Machine W) (x : Session)
    → t.world ≡ s.world
    → t.operation.character ≡ s.operation.character
    → Shows host t x
    → Shows host s x
Shows-still host s t x e f (v, h) = (
  v,
  ap (λ w. host.snapshot s.operation.character w) (sym e)
      ∙ ap (λ c. host.snapshot c t.world) (sym f)
      ∙ h,
)

pub fresh-Shows :
    {W R : Type 0} (py : Texts) (host : Host W R) (g : Option String) (m n : Option ℕ)
    (s t : Machine W) (x : Session × ℕ)
    → require_fresh_session py host g m n s ≡ (done x, t)
    → Shows host s x.0
unfolding require_fresh_session
fresh-Shows py host g m n s t x h =
    let (o, s1, g1, h1) = bind-done _ _ s t x h in
    let (y, s2, g2, h2) = bind-done _ _ s1 t x h1 in
    let (_, s3, _, h3) = bind-done _ _ s2 t x h2 in
    let (_, s4, _, h4) = bind-done _ _ s3 t x h3 in
    let (_, s5, _, h5) = bind-done _ _ s4 t x h4 in
    let (same, k) = require_fresh-sequence py host g m n y s5 t x h5 in
    let unchanged = (get_operation-done o s s1 g1).1 in
    subst (λ z. Shows host z x.0) (sym unchanged)
      (s2.world, snapshot-done py host s1 s2 y g2 ∙ ap (λ z. (returned z, s2.world)) same)
