-- ===== src/Watchers/Alerts.antt =====
-- What `reduce` promises, for one snapshot and for any sequence of them.
use lich_agent_bridge.Base.{
  ℕ, ◌<◌, String, ◌≡◌, ◌≢◌, refl, Option, none, some, List, [], leb, if◌then◌else◌, str_eq, eq_iff,
  arith, All, sym, ◌∙◌, Bool-cases, Option-cases, inl, inr, subst,
}
use lich_agent_bridge.Base.Dict.{lookup, insert, lookup-insert}
use lich_agent_bridge.Watchers.Types.{
  Alert, Env, Pass, Profile, Refusal, Result, ok, err, Session, Snapshot,
}
use lich_agent_bridge.Watchers.Reducer.{
  end_reduce, enter, finish, new_state, reduce, reduce_entered, reduce_profiled, run_rules,
}
use lich_agent_bridge.Watchers.Transitions.{AllNews, IsFrom, replay}
use lich_agent_bridge.Watchers.Passes.{run_rules-Moves}

module _ (env : Env) where
  open env use {casefold, profiles, active_limit, history_limit}

  abbrev pub key_of : Snapshot → String
  key_of snapshot = casefold snapshot.character

  -- What the alerts of a character were before the snapshot: none, if it starts a session.
  abbrev pub alerts_before : Option Session → String → List Alert
  alerts_before none generation = []
  alerts_before (some s) generation = if str_eq s.generation generation then s.active else []

  -- What an accepted snapshot has done.
  pub record IsReduced (snapshot : Snapshot) (before : Option Session) (emitted : List Alert)
      (t : Session) : Type 0 where
    pub told : t.active ≡ replay emitted (alerts_before before snapshot.generation)
    pub news : AllNews emitted (alerts_before before snapshot.generation)
    pub dated : All (IsFrom snapshot) emitted
    pub generation : t.generation ≡ snapshot.generation
    pub sequence : t.sequence ≡ some snapshot.sequence
    pub later :
        (s : Session) (n : ℕ)
        → before ≡ some s
        → s.generation ≡ snapshot.generation
        → s.sequence ≡ some n
        → n < snapshot.sequence

  -- The session that a pass starts from.
  record Enters (snapshot : Snapshot) (before : Option Session) (s : Session) : Type 0 where
    active : s.active ≡ alerts_before before snapshot.generation
    generation : s.generation ≡ snapshot.generation
    later :
        (r : Session) (n : ℕ)
        → before ≡ some r
        → r.generation ≡ snapshot.generation
        → r.sequence ≡ some n
        → n < snapshot.sequence

  enter-Enters :
      (snapshot : Snapshot) (before : Option Session) (s : Session)
      → enter env before snapshot ≡ ok s
      → Enters snapshot before s
  unfolding enter
  enter-Enters snapshot none s e =
      let same : new_state env snapshot.generation ≡ s = cc in
      subst (Enters snapshot none) same
        (record { active = refl; generation = refl; later = λ r n b g q. cc })
  enter-Enters snapshot (some r) s e = elim (Bool-cases (str_eq r.generation snapshot.generation)) [
    | inr p ↦
        let same : new_state env snapshot.generation ≡ s = cc (rw p at e) in
        subst (Enters snapshot (some r)) same (record {
          active = rw p refl;
          generation = refl;
          later = λ x n b g q. ground (arith, eq_iff r.generation snapshot.generation, b, g);
        })
    | inl p ↦ elim (Option-cases r.sequence) [
      | inl o ↦
          let same : r ≡ s = cc (rw (p, o) at e) in
          subst (Enters snapshot (some r)) same (record {
            active = rw p refl;
            generation = ground (arith, eq_iff r.generation snapshot.generation);
            later = λ x n b g q. cc (o, b, q);
          })
      | inr (m, o) ↦ elim (Bool-cases (leb snapshot.sequence m)) [
        | inl h ↦ cc (rw (p, o, h) at e)
        | inr h ↦
            let same : r ≡ s = cc (rw (p, o, h) at e) in
            subst (Enters snapshot (some r)) same (record {
              active = rw p refl;
              generation = ground (arith, eq_iff r.generation snapshot.generation);
              later = λ x n b g q.
                  let same_number : m ≡ n = cc (o, b, q) in ground (arith, same_number);
            })
      ]
    ]
  ]

  -- The session that an accepted snapshot stores.
  abbrev stored : Profile → Snapshot → Session → Session
  stored profile snapshot s =
      finish env snapshot (run_rules env profile snapshot (record { session = s; emitted = [] })).1

  reduced :
      (profile : Profile) (snapshot : Snapshot) (before : Option Session) (s : Session)
      → Enters snapshot before s
      → IsReduced snapshot before
          (run_rules env profile snapshot (record { session = s; emitted = [] })).1.emitted
          (stored profile snapshot s)
  reduced profile snapshot before s e =
      let m = run_rules-Moves env snapshot profile (record { session = s; emitted = [] }) in
      record {
        told = rw (m.emitted, sym e.active) m.active;
        news = rw (m.emitted, sym e.active) m.news;
        dated = rw m.emitted m.dated;
        generation = m.generation ∙ e.generation;
        sequence = refl;
        later = e.later;
      }

  -- The states after an accepted snapshot: that of its character, and the others.
  pub record IsTold (snapshot : Snapshot) (states : List (String × Session)) (emitted : List Alert)
      (after : List (String × Session)) : Type 0 where
    pub session : Session
    pub kept : lookup (key_of snapshot) after ≡ some session
    pub reduced : IsReduced snapshot (lookup (key_of snapshot) states) emitted session
    pub others : (k : String) → k ≢ key_of snapshot → lookup k after ≡ lookup k states

  accepted :
      (snapshot : Snapshot) (states after : List (String × Session)) (l : List Alert)
      (raised : Option Refusal) (p : Pass)
      → end_reduce env snapshot states raised p ≡ (ok l, after)
      → (p.emitted ≡ l) × (insert (key_of snapshot) (finish env snapshot p) states ≡ after)
  unfolding end_reduce
  accepted snapshot states after l (some e) p h = cc
  accepted snapshot states after l none p h = (cc, cc)

  entered_IsTold :
      (profile : Profile) (snapshot : Snapshot) (states after : List (String × Session))
      (l : List Alert) (r : Result Session)
      → enter env (lookup (key_of snapshot) states) snapshot ≡ r
      → reduce_entered env profile snapshot states r ≡ (ok l, after)
      → IsTold snapshot states l after
  unfolding reduce_entered
  entered_IsTold profile snapshot states after l (err e) f h = cc
  entered_IsTold profile snapshot states after l (ok s) f h =
      let key = key_of snapshot in
      let p = (run_rules env profile snapshot (record { session = s; emitted = [] })).1 in
      let (same_list, same_states) = accepted snapshot states after l _ p h in
      subst (λ m. IsTold snapshot states m after) same_list
        (subst (IsTold snapshot states p.emitted) same_states (record {
          session = stored profile snapshot s;
          kept =
              ground
                (arith, lookup-insert key key (stored profile snapshot s) states, eq_iff key key);
          reduced =
              reduced profile snapshot (lookup key states) s
                (enter-Enters snapshot (lookup key states) s f);
          others = λ k n.
              ground
                (arith, lookup-insert key k (stored profile snapshot s) states, eq_iff key k, n);
        }))

  profiled_IsTold :
      (o : Option Profile) (snapshot : Snapshot) (states after : List (String × Session))
      (l : List Alert)
      → reduce_profiled env o snapshot states ≡ (ok l, after)
      → IsTold snapshot states l after
  unfolding reduce_profiled
  profiled_IsTold none snapshot states after l h = cc
  profiled_IsTold (some profile) snapshot states after l h =
      entered_IsTold profile snapshot states after l _ refl h

  -- An accepted snapshot changes the state of its own character only. Its sequence is greater than
  -- that of the same generation before. The alerts that it returns tell every change: a client that
  -- follows them from the alerts before (from none, if the generation is new) has the alerts after.
  -- Each one is news at its place in the list (a code that was not active, another severity, or the
  -- end of an active one) and names the snapshot.
  pub reduce_tells :
      (snapshot : Snapshot) (states after : List (String × Session)) (l : List Alert)
      → reduce env snapshot states ≡ (ok l, after)
      → IsTold snapshot states l after
  unfolding reduce
  reduce_tells snapshot states after l h =
      profiled_IsTold (lookup (key_of snapshot) profiles) snapshot states after l h
