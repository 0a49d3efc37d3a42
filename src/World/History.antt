-- ===== src/World/History.antt =====
-- The world under any sequence of publications to `WorldState`.
use lich_agent_bridge.Base.{
  String, true, false, ◌≡◌, refl, Option, none, some, List, [], ◌∷◌, ◌⊎◌, inl, inr, subst,
  Option-cases, arith, str_eq, eq_iff, Bool-cases,
}
use lich_agent_bridge.Base.Dict.{lookup, insert, lookup-insert, member}
use lich_agent_bridge.World.Types.{
  CharacterState, Env, Event, Result, ok, err, Snapshot, World, stale_snapshot_generation,
  stale_event_generation,
}
use lich_agent_bridge.World.State.{
  admit_entered, append_if_active, enter_from, fresh, or_fresh, publish_event, publish_event_to,
  keep_snapshot, keep_event, publish_snapshot, publish_snapshot_to,
}
use lich_agent_bridge.World.Timeline.{Advances, Advances-refl, Advances-trans, IsTimeline}
use lich_agent_bridge.World.Admission.{publish_Steps, event_Steps}

-- One call of the two publishing methods.
pub data Publication (V : Type 0) : Type 0 where
  snapshot : Snapshot V → Publication V
  event : Event V → Publication V

module _ {V : Type 0} (env : Env V) where
  -- The world after a call, whether it returned or raised.
  unfoldable pub publish : Publication V → World V → World V
  publish (snapshot s) w = (publish_snapshot env s w).1
  publish (event e) w = (publish_event env e w).1

  unfoldable pub publish_all : List (Publication V) → World V → World V
  publish_all [] w = w
  publish_all (p ∷ rest) w = publish_all rest (publish p w)

  abbrev pub IsWorld : World V → Type 0
  IsWorld w = (k : String) (s : CharacterState V) → lookup k w ≡ some s → IsTimeline env s

  -- No character is lost, and each only moves on.
  pub record Grows (w v : World V) : Type 0 where
    pub world : IsWorld v
    pub kept :
        (k : String) (s : CharacterState V)
        → lookup k w ≡ some s
        → (t : CharacterState V) × (lookup k v ≡ some t) × Advances env s t

  Grows-refl : (w : World V) → IsWorld w → Grows w w
  Grows-refl w h = record { world = h; kept = λ k s e. (s, e, Advances-refl env s) }

  Grows-trans : {w v u : World V} → Grows w v → Grows v u → Grows w u
  Grows-trans p q = record {
    world = q.world;
    kept = λ k s e.
        let (t, f, a) = p.kept k s e in
        let (r, g, c) = q.kept k t f in (r, g, Advances-trans env a c);
  }

  Grows-insert :
      (w : World V) (key : String) (t : CharacterState V)
      → IsWorld w
      → IsTimeline env t
      → ((s : CharacterState V) → lookup key w ≡ some s → Advances env s t)
      → Grows w (insert key t w)
  Grows-insert w key t h live moves = record {
    world = λ k s e. world_at k s e (Bool-cases (str_eq key k));
    kept = λ k s e. kept_at k s e (Bool-cases (str_eq key k));
  }
    where
      world_at :
          (k : String) (s : CharacterState V)
          → lookup k (insert key t w) ≡ some s
          → (str_eq key k ≡ true) ⊎ (str_eq key k ≡ false)
          → IsTimeline env s
      world_at k s e (inl p) =
          let same : t ≡ s = cc (rw (lookup-insert key k t w, p) at e) in
          subst (IsTimeline env) same live
      world_at k s e (inr p) = h k s (rw (lookup-insert key k t w, p) at e)

      kept_at :
          (k : String) (s : CharacterState V)
          → lookup k w ≡ some s
          → (str_eq key k ≡ true) ⊎ (str_eq key k ≡ false)
          → (r : CharacterState V) × (lookup k (insert key t w) ≡ some r) × Advances env s r
      kept_at k s e (inl p) =
          let same : key ≡ k = ground (arith, eq_iff key k) in
          (t, rw (lookup-insert key k t w, p) refl, moves s (cc (e, same)))
      kept_at k s e (inr p) = (s, rw (lookup-insert key k t w, p) e, Advances-refl env s)

  fresh-IsTimeline : (x : Snapshot V) → IsTimeline env (fresh env x)
  unfolding member
  fresh-IsTimeline x = record {
    queue = record {
      bounded = omega arith;
      counted = tt;
      enough = omega arith;
      kept = λ a b. omega arith;
    };
    live = λ g e. refl;
    unborn = λ e. refl;
  }

  -- The state that a call starts from, and that it only moves on from.
  or_fresh_lem :
      (x : Snapshot V) (w : World V) (key : String)
      → IsWorld w
      → IsTimeline env (or_fresh env x (lookup key w))
  or_fresh_lem x w key h = elim (Option-cases (lookup key w)) [
    | inl e ↦ rw e (fresh-IsTimeline x)
    | inr (s, e) ↦ rw e (h key s e)
  ]

  kept_snapshot_Grows :
      (x : Snapshot V) (w : World V) (r : Result (CharacterState V × Option String))
      → IsWorld w
      → publish_snapshot_to env (or_fresh env x (lookup (env.casefold x.character) w)) x ≡ r
      → Grows w (keep_snapshot env (env.casefold x.character) x w r).1
  unfolding keep_snapshot
  kept_snapshot_Grows x w (err e) h p = Grows-refl w h
  kept_snapshot_Grows x w (ok (t, r)) h p =
      let key = env.casefold x.character in
      let step =
        publish_Steps env (or_fresh env x (lookup key w)) t x r (or_fresh_lem x w key h) p in
      Grows-insert w key t h step.timeline
        (λ s e. subst (λ o. Advances env (or_fresh env x o) t) e step.advances)

  kept_event_Grows :
      (x : Event V) (w : World V) (o : Option (CharacterState V)) (r : Result (CharacterState V))
      → IsWorld w
      → lookup (env.casefold x.character) w ≡ o
      → publish_event_to env o x ≡ r
      → Grows w (keep_event env (env.casefold x.character) x w r).1
  unfolding keep_event publish_event_to
  kept_event_Grows x w o (err e) h f p = Grows-refl w h
  kept_event_Grows x w none (ok t) h f p = cc
  kept_event_Grows x w (some s) (ok t) h f p =
      let key = env.casefold x.character in
      let step = event_Steps env s t x (h key s f) p in
      Grows-insert w key t h step.timeline
        (λ r g. let same : s ≡ r = cc (f, g) in subst (λ r. Advances env r t) same step.advances)

  publish-Grows : (p : Publication V) (w : World V) → IsWorld w → Grows w (publish p w)
  unfolding publish publish_snapshot publish_event
  publish-Grows (snapshot x) w h = kept_snapshot_Grows x w _ h refl
  publish-Grows (event x) w h = kept_event_Grows x w _ _ h refl refl

  publish_all-Grows :
      (l : List (Publication V)) (w : World V) → IsWorld w → Grows w (publish_all l w)
  unfolding publish_all
  publish_all-Grows [] w h = Grows-refl w h
  publish_all-Grows (p ∷ l) w h =
      let g = publish-Grows p w h in Grows-trans g (publish_all-Grows l (publish p w) g.world)

  -- Whatever was published to an empty world, each character's state is in order: its queue holds at
  -- most its capacity of events, with consecutive cursors up to the state's own, and its active
  -- generation is not among the retired ones.
  pub published-IsWorld : (l : List (Publication V)) → IsWorld (publish_all l [])
  unfolding lookup
  published-IsWorld l = (publish_all-Grows l [] (λ k s e. cc)).world

  -- Whatever more is published, a character keeps a state, in which the cursor has not fallen, the
  -- retired generations are still retired, and the sequence of a generation that is still active has
  -- not fallen.
  pub publications_advance :
      (l more : List (Publication V)) (k : String) (s : CharacterState V)
      → lookup k (publish_all l []) ≡ some s
      → (t : CharacterState V) × (lookup k (publish_all more (publish_all l [])) ≡ some t)
        × Advances env s t
  publications_advance l more k s e =
      (publish_all-Grows more (publish_all l []) (published-IsWorld l)).kept k s e

  refused_snapshot :
      (x : Snapshot V) (t : CharacterState V) (o : Option String)
      → t.generation ≡ o
      → IsTimeline env t
      → member x.generation t.retired_generations ≡ true
      → enter_from env o t x ≡ err stale_snapshot_generation
  unfolding enter_from member
  refused_snapshot x t none e h m = cc (rw (h.unborn e) at m)
  refused_snapshot x t (some active) e h m =
      ground (arith, eq_iff x.generation active, h.live active e)

  refused_event :
      (x : Event V) (t : CharacterState V) (o : Option String)
      → t.generation ≡ o
      → IsTimeline env t
      → member x.generation t.retired_generations ≡ true
      → append_if_active env o t x ≡ err stale_event_generation
  unfolding append_if_active member
  refused_event x t none e h m = cc (rw (h.unborn e) at m)
  refused_event x t (some active) e h m =
      ground (arith, eq_iff x.generation active, h.live active e)

  -- A generation that was once retired is dead: whatever is published afterwards, a snapshot and an
  -- event of it are refused, with the errors of a stale generation, and change nothing.
  pub retired_is_dead :
      (l more : List (Publication V)) (x : Snapshot V) (y : Event V) (s : CharacterState V)
      → lookup (env.casefold x.character) (publish_all l []) ≡ some s
      → member x.generation s.retired_generations ≡ true
      → env.casefold y.character ≡ env.casefold x.character
      → y.generation ≡ x.generation
      → (publish_snapshot env x (publish_all more (publish_all l []))
          ≡ (err stale_snapshot_generation, publish_all more (publish_all l [])))
        × (publish_event env y (publish_all more (publish_all l []))
            ≡ (err stale_event_generation, publish_all more (publish_all l [])))
  unfolding publish_snapshot publish_snapshot_to publish_event publish_event_to admit_entered
      keep_snapshot keep_event
  retired_is_dead l more x y s e m who which =
      let grown = publish_all-Grows more (publish_all l []) (published-IsWorld l) in
      let (t, f, a) = grown.kept (env.casefold x.character) s e in
      let live = grown.world (env.casefold x.character) t f in
      let dead = a.retired x.generation m in
      let bad = refused_snapshot x t t.generation refl live dead in
      let bad_event = refused_event y t t.generation refl live (rw which dead) in
      (cc (f, bad), cc (who, f, bad_event))
