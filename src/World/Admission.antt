-- ===== src/World/Admission.antt =====
-- A publication keeps the timeline of its character.
use lich_agent_bridge.Base.{
  ◌≤◌, String, Bool, true, false, ◌≡◌, refl, Option, none, some, inl, inr, arith, str_eq, eq_iff,
  Bool-cases, subst,
}
use lich_agent_bridge.World.Types.{CharacterState, Env, Event, Result, ok, err, Snapshot}
use lich_agent_bridge.World.State.{
  admit, admit_entered, admit_unless, append_event, enter_from, is_changed, is_late, fresh,
  publish_event_to, publish_snapshot_to,
}
use lich_agent_bridge.World.Queue.{IsQueue, append_event-IsQueue}
use lich_agent_bridge.World.Timeline.{Advances-trans, IsTimeline, Steps, same-IsQueue, enter_Steps}
use lich_agent_bridge.World.State.{append_if_active}

module _ {V : Type 0} (env : Env V) where
  -- The state as `admit` leaves it: only what is shown, and the queue, depends on the contents.
  record Admits (s : CharacterState V) (snapshot : Snapshot V) (t : CharacterState V) : Type 0 where
    queue : IsQueue env t
    cursor : s.cursor ≤ t.cursor
    generation : t.generation ≡ s.generation
    retired : t.retired_generations ≡ s.retired_generations
    sequence : t.sequence ≡ some snapshot.sequence

  admit_lem :
      (s : CharacterState V) (snapshot : Snapshot V) (replaced : Option String)
      → IsQueue env s
      → Admits s snapshot (admit env s snapshot replaced)
  unfolding admit
  admit_lem s snapshot replaced q = elim (Bool-cases (is_changed env s.snapshot snapshot)) [
    | inl p ↦ rw p (record {
      queue = append_event-IsQueue env _ _ (same-IsQueue env s _ refl refl q);
      cursor = unfold append_event in omega arith;
      generation = unfold append_event in refl;
      retired = unfold append_event in refl;
      sequence = unfold append_event in refl;
    })
    | inr p ↦ rw p (record {
      queue = same-IsQueue env s _ refl refl q;
      cursor = omega arith;
      generation = refl;
      retired = refl;
      sequence = refl;
    })
  ]

  Admits-Steps :
      (s t : CharacterState V) (snapshot : Snapshot V)
      → s.generation ≡ some snapshot.generation
      → is_late env s.sequence snapshot.sequence ≡ false
      → IsTimeline env s
      → Admits s snapshot t
      → Steps env s snapshot.generation t
  Admits-Steps s t snapshot e fresh h a = record {
    timeline = record {
      queue = a.queue;
      live = λ g e'. rw a.retired (h.live g (cc (a.generation, e')));
      unborn = λ e'. cc (a.generation, e, e');
    };
    advances = record {
      cursor = a.cursor;
      retired = λ g m. rw a.retired m;
      sequence =
          λ g n b c. inr (cc (a.generation, b), snapshot.sequence, a.sequence, ground (arith, c));
    };
    generation = cc (a.generation, e);
  }

  Steps-trans :
      {s t u : CharacterState V} {g g' : String}
      → Steps env s g t
      → Steps env t g' u
      → Steps env s g' u
  Steps-trans p q = record {
    timeline = q.timeline;
    advances = Advances-trans env p.advances q.advances;
    generation = q.generation;
  }

  finish :
      (s u t : CharacterState V) (snapshot : Snapshot V) (r replaced : Option String) (late : Bool)
      → is_late env u.sequence snapshot.sequence ≡ late
      → Steps env s snapshot.generation u
      → admit_unless env late u snapshot r ≡ ok (t, replaced)
      → Steps env s snapshot.generation t
  unfolding admit_unless
  finish s u t snapshot r replaced true l h e = cc
  finish s u t snapshot r replaced false l h e =
      let same : admit env u snapshot r ≡ t = cc in
      Steps-trans h (
        Admits-Steps u t snapshot h.generation l h.timeline
          (subst (Admits u snapshot) same (admit_lem u snapshot r h.timeline.queue)))

  entered_Steps :
      (s t : CharacterState V) (snapshot : Snapshot V) (replaced : Option String)
      (r : Result (CharacterState V × Option String))
      → IsTimeline env s
      → enter_from env s.generation s snapshot ≡ r
      → admit_entered env snapshot r ≡ ok (t, replaced)
      → Steps env s snapshot.generation t
  unfolding admit_entered
  entered_Steps s t snapshot replaced (err x) h f e = cc
  entered_Steps s t snapshot replaced (ok (u, q)) h f e =
      finish s u t snapshot q replaced (is_late env u.sequence snapshot.sequence) refl
        (enter_Steps env s u snapshot s.generation q refl h f) e

  pub publish_Steps :
      (s t : CharacterState V) (snapshot : Snapshot V) (replaced : Option String)
      → IsTimeline env s
      → publish_snapshot_to env s snapshot ≡ ok (t, replaced)
      → Steps env s snapshot.generation t
  unfolding publish_snapshot_to
  publish_Steps s t snapshot replaced h e =
      entered_Steps s t snapshot replaced (enter_from env s.generation s snapshot) h refl e

  appended_Steps :
      (s t : CharacterState V) (event : Event V) (o : Option String)
      → s.generation ≡ o
      → IsTimeline env s
      → append_if_active env o s event ≡ ok t
      → Steps env s event.generation t
  unfolding append_if_active
  appended_Steps s t event none g h e = cc
  appended_Steps s t event (some active) g h e =
      elim (Bool-cases (str_eq event.generation active)) [
        | inl p ↦
            let same : append_event env s event ≡ t = cc (rw p at e) in
            subst (Steps env s event.generation) same (record {
              timeline = record {
                queue = append_event-IsQueue env s event h.queue;
                live = unfold append_event in h.live;
                unborn = unfold append_event in h.unborn;
              };
              advances =
                  unfold append_event in
                  record {
                    cursor = omega arith;
                    retired = λ g m. m;
                    sequence = λ g n a b. inr (a, n, b, omega arith);
                  };
              generation = unfold append_event in ground (arith, eq_iff event.generation active);
            })
        | inr p ↦ cc (rw p at e)
      ]

  pub event_Steps :
      (s t : CharacterState V) (event : Event V)
      → IsTimeline env s
      → publish_event_to env (some s) event ≡ ok t
      → Steps env s event.generation t
  unfolding publish_event_to
  event_Steps s t event h e = appended_Steps s t event s.generation refl h e
