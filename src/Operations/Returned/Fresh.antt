-- ===== src/Operations/Returned/Fresh.antt =====
-- Fresh snapshots that a handler has required: `_require_fresh_session`.
use lich_agent_bridge.Base.{
  ltb, sym, ap, subst, eq_iff, ◌∙◌, str_eq, ◌≡◌, ◌<◌, arith, ◌<◌, ℕ, String, true, Option, none,
  some, str_eq,
}
use lich_agent_bridge.Operations.Types.{Session}
use lich_agent_bridge.Operations.Host.{returned, Host, Texts}
use lich_agent_bridge.Operations.Monad.{Machine, done, pure}
use lich_agent_bridge.Operations.Steps.{require_fresh, require_fresh_session}
use lich_agent_bridge.Operations.Handlers.{set_end}
use lich_agent_bridge.Operations.Returned.{
  bind-done, demand-done, pure-done, require-done, snapshot-done, update-done,
}

module _ {W R : Type 0} (py : Texts) (host : Host W R) where
  -- A fresh snapshot of the generation, after the given sequence.
  pub record IsFreshAfter (g : String) (n : ℕ) (x : Session) (k : ℕ) : Type 0 where
    pub seen : (c : String) × (w : W) × (v : W) × (host.snapshot c w ≡ (returned x, v))
    pub generation : x.generation ≡ g
    pub fresh : x.fresh ≡ true
    pub sequence : x.sequence ≡ some k
    pub later : n < k

  -- What the last tests found.
  record PassedTests (g : String) (n : ℕ) (y : Session) (x : Session × ℕ) : Type 0 where
    same : y ≡ x.0
    generation : y.generation ≡ g
    fresh : y.fresh ≡ true
    sequence : y.sequence ≡ some x.1
    later : n < x.1

  require_fresh-PassedTests :
      (g : String) (n : ℕ) (y : Session) (s t : Machine W) (x : Session × ℕ)
      → require_fresh py host (some g) none (some n) y s ≡ (done x, t)
      → PassedTests g n y x
  unfolding require_fresh
  require_fresh-PassedTests g n y s t x h =
      let (a, s6, g6, h6) = bind-done _ _ s t x h in
      let (b, s7, g7, h7) = bind-done _ _ s6 t x h6 in
      let (k, s8, g8, h8) = bind-done _ _ s7 t x h7 in
      let (_, s9, _, h9) = bind-done _ _ s8 t x h8 in
      let (c, s10, g10, h10) = bind-done _ _ s9 t x h9 in
      let same = (pure-done (y, k) x s10 t h10).0 in
      record {
        same = ap (λ z. z.0) same;
        generation =
            ground (arith, require-done (str_eq y.generation g) _ s s6 a g6, eq_iff y.generation g);
        fresh = require-done _ _ s6 s7 b g7;
        sequence = demand-done y.sequence _ s7 s8 k g8 ∙ ap (λ z. some z.1) same;
        later = subst (λ z. n < z.1) same (ground (arith, require-done (ltb n k) _ s9 s10 c g10));
      }

  pub fresh-IsFreshAfter :
      (g : String) (n : ℕ) (s t : Machine W) (x : Session × ℕ)
      → require_fresh_session py host (some g) none (some n) s ≡ (done x, t)
      → IsFreshAfter g n x.0 x.1
  unfolding require_fresh_session
  fresh-IsFreshAfter g n s t x h =
      let (_, s1, _, h1) = bind-done _ _ s t x h in
      let (y, s2, g2, h2) = bind-done _ _ s1 t x h1 in
      let (_, s3, _, h3) = bind-done _ _ s2 t x h2 in
      let (_, s4, _, h4) = bind-done _ _ s3 t x h3 in
      let (_, s5, _, h5) = bind-done _ _ s4 t x h4 in
      let r = require_fresh-PassedTests g n y s5 t x h5 in
      record {
        seen = (
          s1.operation.character,
          s1.world,
          s2.world,
          snapshot-done py host s1 s2 y g2 ∙ ap (λ z. (returned z, s2.world)) r.same,
        );
        generation = ap (λ z. z.generation) (sym r.same) ∙ r.generation;
        fresh = ap (λ z. z.fresh) (sym r.same) ∙ r.fresh;
        sequence = ap (λ z. z.sequence) (sym r.same) ∙ r.sequence;
        later = r.later;
      }

  pub recorded-end :
      (x : Session) (e f : String) (s t u : Machine W) (r : Unit {0})
      → set_end py host x s ≡ (done r, t)
      → pure e t ≡ (done f, u)
      → u.operation.end_state ≡ some x
  recorded-end x e f s t u r g h =
      ap (λ m. m.operation.end_state) (sym (pure-done e f t u h).1)
      ∙ ap (λ o. o.end_state) (update-done (λ o. record o { end_state = some x }) r s t g)

  -- The recorded end state, and what holds of it.
  pub record EndsWith (g : String) (n : ℕ) (Q : Session → Type 0) (t : Machine W) : Type 0 where
    pub end : Session
    pub sequence : ℕ
    pub recorded : t.operation.end_state ≡ some end
    pub after : IsFreshAfter g n end sequence
    pub holds : Q end

  -- A snapshot that the state adapter returned, with its sequence.
  pub record IsSeen (x : Session) (k : ℕ) : Type 0 where
    pub seen : (c : String) × (w : W) × (v : W) × (host.snapshot c w ≡ (returned x, v))
    pub sequence : x.sequence ≡ some k

  pub require_fresh-sequence :
      (g : Option String) (m n : Option ℕ) (y : Session) (s t : Machine W) (x : Session × ℕ)
      → require_fresh py host g m n y s ≡ (done x, t)
      → (y ≡ x.0) × (y.sequence ≡ some x.1)
  unfolding require_fresh
  require_fresh-sequence g m n y s t x h =
      let (_, s6, _, h6) = bind-done _ _ s t x h in
      let (_, s7, _, h7) = bind-done _ _ s6 t x h6 in
      let (k, s8, g8, h8) = bind-done _ _ s7 t x h7 in
      let (_, s9, _, h9) = bind-done _ _ s8 t x h8 in
      let (_, s10, _, h10) = bind-done _ _ s9 t x h9 in
      let same = (pure-done (y, k) x s10 t h10).0 in
      (ap (λ z. z.0) same, demand-done y.sequence _ s7 s8 k g8 ∙ ap (λ z. some z.1) same)

  pub fresh-IsSeen :
      (g : Option String) (m n : Option ℕ) (s t : Machine W) (x : Session × ℕ)
      → require_fresh_session py host g m n s ≡ (done x, t)
      → IsSeen x.0 x.1
  unfolding require_fresh_session
  fresh-IsSeen g m n s t x h =
      let (_, s1, _, h1) = bind-done _ _ s t x h in
      let (y, s2, g2, h2) = bind-done _ _ s1 t x h1 in
      let (_, s3, _, h3) = bind-done _ _ s2 t x h2 in
      let (_, s4, _, h4) = bind-done _ _ s3 t x h3 in
      let (_, s5, _, h5) = bind-done _ _ s4 t x h4 in
      let (same, k) = require_fresh-sequence g m n y s5 t x h5 in
      record {
        seen = (
          s1.operation.character,
          s1.world,
          s2.world,
          snapshot-done py host s1 s2 y g2 ∙ ap (λ z. (returned z, s2.world)) same,
        );
        sequence = ap (λ z. z.sequence) (sym same) ∙ k;
      }
