-- ===== src/Actions/Session.antt =====
-- What the session check of the broker lets through.
use lich_agent_bridge.Base.{
  ℕ, String, Bool, true, false, ◌≡◌, refl, Option, none, some, str_eq, eq_iff, Bool-cases, inl, inr,
  ap,
}
use lich_agent_bridge.Base.Dict.{lookup}
use lich_agent_bridge.Actions.Types.{Broker, Env, Error, Result, ok, err, inactive_generation}
use lich_agent_bridge.Actions.Exec.{Exec, continue, ◌>>=◌, ◌>>◌, check, lift}
use lich_agent_bridge.Actions.Broker.{active_is, expire_locked, require_active_generation_locked}

module _ (env : Env) where
  -- The session `generation` is the active one of the character.
  abbrev pub IsActive : String → String → Broker → Type 0
  IsActive character generation b =
      lookup (env.casefold character) b.active_generations ≡ some generation

  active_passes :
      {A : Type 0} (g : String) (o : Option String) (k : Exec A) (b : Broker) (a : A)
      → (continue (active_is env g o b) (λ _. k)).0 ≡ ok a
      → (o ≡ some g) × ((k b).0 ≡ ok a)
  active_passes g none k b a h = cc
  active_passes g (some active) k b a h = elim (Bool-cases (str_eq active g)) [
    | inl e ↦ (ap some ((eq_iff active g).0 e), (rw e at h))
    | inr e ↦ absurd (fails (str_eq active g) e h)
  ]
    where
      fails :
          (t : Bool) → t ≡ false → (continue (check t inactive_generation b) (λ _. k)).0 ≡ ok a → ⊥
      fails true e h = cc
      fails false e h = cc

  -- A method that checks the session and succeeds was called for the active one, and the rest of it
  -- succeeded.
  pub require-IsActive-ok :
      {A : Type 0} (character g : String) (k : Exec A) (b : Broker) (a : A)
      → ((require_active_generation_locked env character g >> k) b).0 ≡ ok a
      → IsActive character g b × ((k b).0 ≡ ok a)
  unfolding require_active_generation_locked ◌>>=◌
  require-IsActive-ok character g k b a h =
      active_passes g (lookup (env.casefold character) b.active_generations) k b a h

  -- For the active session the rest of the method runs.
  pub require_active-run :
      {A : Type 0} (character g : String) (k : Exec A) (b : Broker)
      → IsActive character g b
      → (require_active_generation_locked env character g >> k) b ≡ k b
  unfolding require_active_generation_locked ◌>>=◌
  require_active-run character g k b h = rw h (rw ((eq_iff g g).1 refl))

  pub check-ok :
      {A : Type 0} (t : Bool) (e : Error) (k : Exec A) (b : Broker) (a : A)
      → ((check t e >> k) b).0 ≡ ok a
      → (t ≡ true) × ((k b).0 ≡ ok a)
  unfolding ◌>>=◌
  check-ok true e k b a h = (refl, h)
  check-ok false e k b a h = cc

  -- The expiry itself never fails.
  pub expire-run :
      {A : Type 0} (now : ℕ) (k : Exec A) (b : Broker)
      → (expire_locked env now >> k) b ≡ k (expire_locked env now b).1
  unfolding expire_locked ◌>>=◌
  expire-run now k b = refl

  pub sessions-expire :
      (now : ℕ) (b : Broker) → (expire_locked env now b).1.active_generations ≡ b.active_generations
  unfolding expire_locked ◌>>=◌
  sessions-expire now b = refl

  pub enabled-expire : (now : ℕ) (b : Broker) → (expire_locked env now b).1.enabled ≡ b.enabled
  unfolding expire_locked ◌>>=◌
  enabled-expire now b = refl

  -- What holds of the outcome of a successful method, by the parts of the method.
  pub lifted :
      {A B : Type 0} (r : Result A) (f : A → Exec B) (b : Broker) (x : B)
      (P : Result B × Broker → Type 0)
      → ((a : A) → r ≡ ok a → (f a b).0 ≡ ok x → P (f a b))
      → ((lift r >>= f) b).0 ≡ ok x
      → P ((lift r >>= f) b)
  unfolding ◌>>=◌
  lifted (ok a) f b x P k h = k a refl h
  lifted (err e) f b x P k h = cc

  pub checked :
      {B : Type 0} (t : Bool) (e : Error) (k : Exec B) (b : Broker) (x : B)
      (P : Result B × Broker → Type 0)
      → (t ≡ true → (k b).0 ≡ ok x → P (k b))
      → ((check t e >> k) b).0 ≡ ok x
      → P ((check t e >> k) b)
  unfolding ◌>>=◌
  checked true e k b x P f h = f refl h
  checked false e k b x P f h = cc
