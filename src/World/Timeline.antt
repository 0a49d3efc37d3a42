-- ===== src/World/Timeline.antt =====
-- Sessions under any sequence of publications: generations, sequences, cursors and errors.
use lich_agent_bridge.Base.{
  ℕ, ◌≤◌, String, true, false, ◌≡◌, refl, Option, none, some, [], ◌⊎◌, inl, inr, arith, str_eq,
  eq_iff, Bool-cases, subst,
}
use lich_agent_bridge.Base.Dict.{member, add, member-add}
use lich_agent_bridge.World.Types.{CharacterState, Env, ok, Snapshot}
use lich_agent_bridge.World.State.{enter_from}
use lich_agent_bridge.World.Queue.{IsQueue}

module _ {V : Type 0} (env : Env V) where
  -- Later in the timeline: the cursor does not fall, a retired generation stays retired, and unless
  -- the active generation was retired the sequence does not fall.
  pub record Advances (s t : CharacterState V) : Type 0 where
    pub cursor : s.cursor ≤ t.cursor
    pub retired :
        (g : String) → member g s.retired_generations ≡ true → member g t.retired_generations ≡ true
    pub sequence :
        (g : String) (n : ℕ)
        → s.generation ≡ some g
        → s.sequence ≡ some n
        → (member g t.retired_generations ≡ true)
          ⊎ ((t.generation ≡ some g) × (m : ℕ) × (t.sequence ≡ some m) × (n ≤ m))

  -- The active generation is none of the retired ones, and the queue is in order.
  pub record IsTimeline (s : CharacterState V) : Type 0 where
    pub queue : IsQueue env s
    pub live : (g : String) → s.generation ≡ some g → member g s.retired_generations ≡ false
    pub unborn : s.generation ≡ none → s.retired_generations ≡ []

  -- A later point of the timeline.
  pub Advances-refl : (s : CharacterState V) → Advances s s
  Advances-refl s = record {
    cursor = omega arith;
    retired = λ g h. h;
    sequence = λ g n h k. inr (h, n, k, omega arith);
  }

  pub Advances-trans : {s t u : CharacterState V} → Advances s t → Advances t u → Advances s u
  Advances-trans {s} {t} {u} p q = record {
    cursor = omega (arith, p.cursor, q.cursor);
    retired = λ g h. q.retired g (p.retired g h);
    sequence = λ g n h k. chain g n (p.sequence g n h k);
  }
    where
      lift_le :
          (g : String) (n m : ℕ)
          → n ≤ m
          → (member g u.retired_generations ≡ true)
            ⊎ ((u.generation ≡ some g) × (l : ℕ) × (u.sequence ≡ some l) × (m ≤ l))
          → (member g u.retired_generations ≡ true)
            ⊎ ((u.generation ≡ some g) × (l : ℕ) × (u.sequence ≡ some l) × (n ≤ l))
      lift_le g n m h (inl r) = inl r
      lift_le g n m h (inr (a, l, b, c)) = inr (a, l, b, omega arith)

      chain :
          (g : String) (n : ℕ)
          → (member g t.retired_generations ≡ true)
            ⊎ ((t.generation ≡ some g) × (m : ℕ) × (t.sequence ≡ some m) × (n ≤ m))
          → (member g u.retired_generations ≡ true)
            ⊎ ((u.generation ≡ some g) × (m : ℕ) × (u.sequence ≡ some m) × (n ≤ m))
      chain g n (inl r) = inl (q.retired g r)
      chain g n (inr (a, m, b, c)) = lift_le g n m c (q.sequence g m a b)

  -- A step from `s` to `t` that keeps the timeline and ends in the generation `g`.
  pub record Steps (s : CharacterState V) (g : String) (t : CharacterState V) : Type 0 where
    pub timeline : IsTimeline t
    pub advances : Advances s t
    pub generation : t.generation ≡ some g

  pub same-IsQueue :
      (s t : CharacterState V)
      → t.events ≡ s.events
      → t.cursor ≡ s.cursor
      → IsQueue env s
      → IsQueue env t
  same-IsQueue s t e c q = record {
    bounded = rw e q.bounded;
    counted = rw (e, c) q.counted;
    enough = rw (e, c) q.enough;
    kept = rw (e, c) q.kept;
  }

  begin_Steps :
      (s : CharacterState V) (g : String)
      → s.generation ≡ none
      → IsTimeline s
      → Steps s g (record s { generation = some g })
  unfolding member
  begin_Steps s g e h = record {
    timeline = record {
      queue = same-IsQueue s _ refl refl h.queue;
      live = λ g' e'. rw (h.unborn e) refl;
      unborn = λ e'. cc;
    };
    advances = record { cursor = omega arith; retired = λ g' m. m; sequence = λ g' n a b. cc };
    generation = refl;
  }

  replace_Steps :
      (s : CharacterState V) (active g : String)
      → s.generation ≡ some active
      → str_eq g active ≡ false
      → member g s.retired_generations ≡ false
      → IsTimeline s
      → Steps s g (record s {
        retired_generations = add active s.retired_generations;
        generation = some g;
        sequence = none;
        snapshot = none;
      })
  replace_Steps s active g e differs new h = record {
    timeline = record {
      queue = same-IsQueue s _ refl refl h.queue;
      live = λ g' e'. ground (
        arith,
        member-add active g' s.retired_generations,
        eq_iff active g',
        eq_iff g active,
        eq_iff g g',
      );
      unborn = λ e'. cc;
    };
    advances = record {
      cursor = omega arith;
      retired = λ g' m. ground (arith, member-add active g' s.retired_generations);
      sequence = λ g' n a b.
          inl (ground (arith, member-add active g' s.retired_generations, eq_iff active g'));
    };
    generation = refl;
  }

  pub enter_Steps :
      (s u : CharacterState V) (snapshot : Snapshot V) (o replaced : Option String)
      → s.generation ≡ o
      → IsTimeline s
      → enter_from env o s snapshot ≡ ok (u, replaced)
      → Steps s snapshot.generation u
  unfolding enter_from
  enter_Steps s u snapshot none replaced e h k =
      let same : record s { generation = some snapshot.generation } ≡ u = cc in
      subst (Steps s snapshot.generation) same (begin_Steps s snapshot.generation e h)
  enter_Steps s u snapshot (some active) replaced e h k =
      elim (Bool-cases (str_eq snapshot.generation active)) [
        | inl p ↦
            let same : s ≡ u = cc (rw p at k) in
            subst (Steps s snapshot.generation) same (record {
              timeline = h;
              advances = Advances-refl s;
              generation = ground (arith, eq_iff snapshot.generation active);
            })
        | inr p ↦ elim (Bool-cases (member snapshot.generation s.retired_generations)) [
          | inl m ↦ cc (rw (p, m) at k)
          | inr m ↦
              let t : CharacterState V = record s {
                retired_generations = add active s.retired_generations;
                generation = some snapshot.generation;
                sequence = none;
                snapshot = none;
              } in
              let same : t ≡ u = cc (rw (p, m) at k) in
              subst (Steps s snapshot.generation) same
                (replace_Steps s active snapshot.generation e p m h)
        ]
      ]
