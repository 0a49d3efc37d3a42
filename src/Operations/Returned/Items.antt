-- ===== src/Operations/Returned/Items.antt =====
-- What an audit that returned has seen: `_execute_item_audit`.

use lich_agent_bridge.Base.{
  sym, ap, subst, eq_iff, ◌∙◌, ◌≡◌, arith, ℕ, String, true, ◌&&◌, some, str_eq, List,
}
use lich_agent_bridge.Operations.Types.{Binding, Item, Method, Session}
use lich_agent_bridge.Operations.Host.{Host, Texts, returned}
use lich_agent_bridge.Operations.Monad.{Machine, done, pure, update}
use lich_agent_bridge.Operations.Objects.{without_hash, with_id, the_only, at_place}
use lich_agent_bridge.Operations.Items.{
  conclude, item_text, parse_item_audit_arguments, bind_item, exact_item, execute_item_audit,
  verify_binding,
}
use lich_agent_bridge.Operations.Returned.{
  after-bind, bind-done, demand-done, get_operation-done, pure-done, require-done, snapshot-done,
  update-done,
}
use lich_agent_bridge.Base.Dict.{lookup}
use lich_agent_bridge.Operations.Returned.Quiet.{Still-parse}
use lich_agent_bridge.Operations.Returned.Still.{Shows, Shows-still, Still-character, Still-world}

-- The two sessions show the same item, the only one with its id, in the same owned place, and
-- belong to one generation of the character's session.
pub record IsSameItem (py : Texts) (i : String) (start end : Session) : Type 0 where
  pub before : Item
  pub after : Item
  pub only_before : the_only (with_id i start.items) ≡ some before
  pub only_after : the_only (with_id i end.items) ≡ some after
  pub dossier : after.dossier_id ≡ before.dossier_id
  pub fingerprint : after.fingerprint ≡ before.fingerprint
  pub place : after.location.location_id ≡ before.location.location_id
  pub generation : end.generation ≡ start.generation

-- What the binding records of the session.
pub record Binds (i : String) (s : Session) (b : Binding) : Type 0 where
  pub item : Item
  pub unique : the_only (with_id i s.items) ≡ some item
  pub object : b.object_id ≡ i
  pub dossier : b.dossier_id ≡ item.dossier_id
  pub fingerprint : b.fingerprint ≡ item.fingerprint
  pub location : b.original_location ≡ item.location
  pub generation : b.generation ≡ s.generation

module _ {W R : Type 0} (py : Texts) (host : Host W R) where
  bind_item-Binds :
      (c i : String) (s : Session) (t u : Machine W) (b : Binding)
      → bind_item py host c i s t ≡ (done b, u)
      → Binds i s b
  unfolding bind_item
  bind_item-Binds c i s t u b h =
      let (_, t1, _, h1) = bind-done _ _ t u b h in
      let (_, t2, _, h2) = bind-done _ _ t1 u b h1 in
      let (x, t3, g3, h3) = bind-done _ _ t2 u b h2 in
      let (_, t4, _, h4) = bind-done _ _ t3 u b h3 in
      let (_, t5, _, h5) = bind-done _ _ t4 u b h4 in
      let (same, _) = pure-done _ b t5 u h5 in
      record {
        item = x;
        unique = demand-done _ _ t2 t3 x g3;
        object = ap (λ b. b.object_id) (sym same);
        dossier = ap (λ b. b.dossier_id) (sym same);
        fingerprint = ap (λ b. b.fingerprint) (sym same);
        location = ap (λ b. b.original_location) (sym same);
        generation = ap (λ b. b.generation) (sym same);
      }

  exact_item-done :
      (s : Session) (b : Binding) (t u : Machine W) (x : Item)
      → exact_item py host s b t ≡ (done x, u)
      → (the_only (with_id b.object_id s.items) ≡ some x)
        × (str_eq x.dossier_id b.dossier_id && str_eq x.fingerprint b.fingerprint ≡ true)
  unfolding exact_item
  exact_item-done s b t u x h =
      let (y, t1, g1, h1) = bind-done _ _ t u x h in
      let (_, t2, g2, h2) = bind-done _ _ t1 u x h1 in
      let (same, _) = pure-done y x t2 u h2 in
      let found = demand-done _ _ t t1 y g1 in
      let equal = require-done _ _ t1 t2 _ g2 in
      (
        cc,
        subst (λ z. str_eq z.dossier_id b.dossier_id && str_eq z.fingerprint b.fingerprint ≡ true)
            same equal,
      )

  verify_binding-generation :
      (s : Session) (b : Binding) (t u : Machine W) (x : Unit {0})
      → verify_binding py host s b t ≡ (done x, u)
      → s.generation ≡ b.generation
  unfolding verify_binding
  verify_binding-generation s b t u x h =
      let (_, t1, _, h1) = bind-done _ _ t u x h in
      let (y, t2, g2, _) = bind-done _ _ t1 u x h1 in
      ground (
        arith,
        require-done (str_eq s.generation b.generation) "stale session generation" t1 t2 y g2,
        eq_iff s.generation b.generation,
      )

  same_item :
      (i : String) (start end : Session) (b : Binding) (x : Item)
      → Binds i start b
      → end.generation ≡ b.generation
      → the_only (with_id b.object_id end.items) ≡ some x
      → str_eq x.dossier_id b.dossier_id && str_eq x.fingerprint b.fingerprint ≡ true
      → at_place x b.original_location ≡ true
      → IsSameItem py i start end
  same_item i start end b x bound g found equal there = record {
    before = bound.item;
    after = x;
    only_before = bound.unique;
    only_after = subst (λ j. the_only (with_id j end.items) ≡ some x) bound.object found;
    dossier = ground (arith, equal, eq_iff x.dossier_id b.dossier_id, bound.dossier);
    fingerprint = ground (arith, equal, eq_iff x.fingerprint b.fingerprint, bound.fingerprint);
    place =
        ground (arith, there, eq_iff x.location.location_id b.original_location.location_id)
        ∙ ap (λ l. l.location_id) bound.location;
    generation = g ∙ bound.generation;
  }

  -- What the last steps saw of the bound item.
  record IsConcluded (b : Binding) (s t : Machine W) : Type 0 where
    end : Session
    left : W
    item : Item
    seen : host.snapshot s.operation.character s.world ≡ (returned end, left)
    recorded : t.operation.end_state ≡ some end
    generation : end.generation ≡ b.generation
    found : the_only (with_id b.object_id end.items) ≡ some item
    equal : str_eq item.dossier_id b.dossier_id && str_eq item.fingerprint b.fingerprint ≡ true
    there : at_place item b.original_location ≡ true

  recorded-end :
      (x : Session) (e f : String) (s t u : Machine W) (r : Unit {0})
      → update (λ o. record o { end_state = some x }) s ≡ (done r, t)
      → pure e t ≡ (done f, u)
      → u.operation.end_state ≡ some x
  recorded-end x e f s t u r g h =
      ap (λ m. m.operation.end_state) (sym (pure-done e f t u h).1)
      ∙ ap (λ o. o.end_state) (update-done (λ o. record o { end_state = some x }) r s t g)

  conclude-IsConcluded :
      (b : Binding) (s t : Machine W) (e : String)
      → conclude py host b s ≡ (done e, t)
      → IsConcluded b s t
  unfolding conclude
  conclude-IsConcluded b s t e h =
      let (x, s9, g9, h9) = bind-done _ _ s t e h in
      let (v, s10, g10, h10) = bind-done _ _ s9 t e h9 in
      let (y, s11, g11, h11) = bind-done _ _ s10 t e h10 in
      let (r, s12, g12, h12) = bind-done _ _ s11 t e h11 in
      let (u, s13, g13, h13) = bind-done _ _ s12 t e h12 in
      record {
        end = x;
        left = s9.world;
        item = y;
        seen = snapshot-done py host s s9 x g9;
        recorded = recorded-end x _ e s12 s13 t u g13 h13;
        generation = verify_binding-generation x b s9 s10 v g10;
        found = (exact_item-done x b s10 s11 y g11).0;
        equal = (exact_item-done x b s10 s11 y g11).1;
        there = require-done _ _ s11 s12 r g12;
      }

  -- The id is that of the arguments, without a leading `#`.
  pub record IsAsked (s : Machine W) (i : String) : Type 0 where
    pub raw : String
    pub given : item_text py host (lookup "item_id" s.operation.arguments) ≡ some raw
    pub without : i ≡ without_hash raw

  parse-IsAsked :
      (s t : Machine W) (p : String × List Method)
      → parse_item_audit_arguments py host s ≡ (done p, t)
      → IsAsked s p.0
  unfolding parse_item_audit_arguments
  parse-IsAsked s t p h = after-bind _ _ s t p _ h λ o s1 g1 h1.
      after-bind _ _ s1 t p _ h1 λ _ s2 _ h2. after-bind _ _ s2 t p _ h2 λ _ s3 _ h3.
        after-bind _ _ s3 t p _ h3 λ x s4 g4 h4. after-bind _ _ s4 t p _ h4 λ _ s5 _ h5.
          after-bind _ _ s5 t p _ h5 λ _ s6 _ h6. after-bind _ _ s6 t p _ h6 λ _ s7 _ h7.
            after-bind _ _ s7 t p _ h7 λ _ s8 _ h8. after-bind _ _ s8 t p _ h8 λ _ s9 _ h9.
              let (same, _) = pure-done _ p s9 t h9 in
              record {
                raw = x;
                given =
                    ap (λ z. item_text py host (lookup "item_id" z.arguments))
                      (get_operation-done o s s1 g1).0
                    ∙ demand-done _ _ s3 s4 x g4;
                without = ap (λ z. z.0) (sym same);
              }

  -- What the first steps of an audit saw, and the state before its last steps.
  record IsBegun (e : String) (s t : Machine W) : Type 0 where
    object_id : String
    asked : IsAsked s object_id
    start : Session
    bound : Binding
    shown : Shows host s start
    binds : Binds object_id start bound
    last : Machine W
    rest : conclude py host bound last ≡ (done e, t)

  execute-IsBegun :
      (fuel : ℕ) (s t : Machine W) (e : String)
      → execute_item_audit py host fuel s ≡ (done e, t)
      → IsBegun e s t
  unfolding execute_item_audit
  execute-IsBegun fuel s t e h = after-bind _ _ s t e _ h λ p s1 g1 h1.
      after-bind _ _ s1 t e _ h1 λ x s2 g2 h2. after-bind _ _ s2 t e _ h2 λ _ s3 _ h3.
        after-bind _ _ s3 t e _ h3 λ o s4 _ h4. after-bind _ _ s4 t e _ h4 λ b s5 g5 h5.
          after-bind _ _ s5 t e _ h5 λ _ s6 _ h6. after-bind _ _ s6 t e _ h6 λ _ s7 _ h7.
            after-bind _ _ s7 t e _ h7 λ _ s8 _ h8. record {
              object_id = p.0;
              start = x;
              asked = parse-IsAsked s s1 p g1;
              bound = b;
              shown =
                  Shows-still host s s1 x (Still-world (Still-parse py host) g1)
                    (Still-character (Still-parse py host) g1)
                    (s2.world, snapshot-done py host s1 s2 x g2);
              binds = bind_item-Binds o.character p.0 x s4 s5 b g5;
              last = s8;
              rest = h8;
            }

  -- What the state adapter showed first and last.
  pub record IsAudited (s t : Machine W) : Type 0 where
    pub object_id : String
    pub asked : IsAsked s object_id
    pub start : Session
    pub end : Session
    pub first : Shows host s start
    pub last : (c : String) × (w : W) × (v : W) × (host.snapshot c w ≡ (returned end, v))
    pub recorded : t.operation.end_state ≡ some end
    pub same : IsSameItem py object_id start end

pub execute_item_audit-IsAudited :
    {W R : Type 0} (py : Texts) (host : Host W R) (fuel : ℕ) (s t : Machine W) (e : String)
    → execute_item_audit py host fuel s ≡ (done e, t)
    → IsAudited py host s t
execute_item_audit-IsAudited py host fuel s t e h =
    let begun = execute-IsBegun py host fuel s t e h in
    let done_ = conclude-IsConcluded py host begun.bound begun.last t e begun.rest in
    record {
      object_id = begun.object_id;
      asked = begun.asked;
      start = begun.start;
      end = done_.end;
      first = begun.shown;
      last = (begun.last.operation.character, begun.last.world, done_.left, done_.seen);
      recorded = done_.recorded;
      same =
          same_item py host begun.object_id begun.start done_.end begun.bound done_.item begun.binds
            done_.generation done_.found done_.equal done_.there;
    }
