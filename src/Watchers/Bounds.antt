-- ===== src/Watchers/Bounds.antt =====
-- The size of a watcher's state, and what an unknown field does.
use lich_agent_bridge.Base.{
  ◌+◌, ◌≤◌, String, ◌≡◌, refl, Option, none, some, List, [], ◌∷◌, ◌++◌, str_eq, length,
  length-append, arith, Bool-cases, inl, inr, subst,
}
use lich_agent_bridge.Base.Dict.{lookup, insert, lookup-insert}
use lich_agent_bridge.Watchers.Types.{
  Pass, Refusal, Alert, Env, Profile, Result, ok, err, Session, Snapshot,
}
use lich_agent_bridge.Watchers.Conditions.{remember, trim}
use lich_agent_bridge.Watchers.Reducer.{
  end_reduce, enter, is_late, new_state, reduce, reduce_entered, reduce_profiled, run_rules,
}
use lich_agent_bridge.Watchers.Transitions.{remember_all}
use lich_agent_bridge.Watchers.Passes.{run_rules-Moves}

module _ (env : Env) where
  open env use {casefold, profiles, active_limit, history_limit}

  -- The states after any snapshots, whether they were accepted or refused.
  unfoldable pub reduce_all : List Snapshot → List (String × Session) → List (String × Session)
  reduce_all [] states = states
  reduce_all (x ∷ rest) states = reduce_all rest (reduce env x states).1

  pub record IsBounded (s : Session) : Type 0 where
    pub active : length s.active ≤ active_limit
    pub history : length s.history ≤ history_limit

  abbrev pub AreBounded : List (String × Session) → Type 0
  AreBounded states = (k : String) (s : Session) → lookup k states ≡ some s → IsBounded s

  length-trim :
      (l : List Alert) → length l ≤ history_limit + 1 → length (trim env l) ≤ history_limit
  length-trim [] h = omega arith
  length-trim (a ∷ l) h = ground arith

  length-remember_all :
      (l history : List Alert)
      → length history ≤ history_limit
      → length (remember_all env l history) ≤ history_limit
  unfolding remember_all remember
  length-remember_all [] history h = h
  length-remember_all (a ∷ l) history h =
      length-remember_all l (remember env a history)
        (length-trim (history ++ a ∷ []) (omega (arith, length-append history (a ∷ []))))

  enter-IsBounded :
      (snapshot : Snapshot) (before : Option Session) (s : Session)
      → ((r : Session) → before ≡ some r → IsBounded r)
      → enter env before snapshot ≡ ok s
      → IsBounded s
  unfolding enter
  enter-IsBounded snapshot none s h e =
      let same : new_state env snapshot.generation ≡ s = cc in
      subst IsBounded same (record { active = omega arith; history = omega arith })
  enter-IsBounded snapshot (some r) s h e =
      elim (Bool-cases (str_eq r.generation snapshot.generation)) [
        | inr p ↦
            let same : new_state env snapshot.generation ≡ s = cc (rw p at e) in
            subst IsBounded same (record { active = omega arith; history = omega arith })
        | inl p ↦ elim (Bool-cases (is_late env r.sequence snapshot.sequence)) [
          | inl q ↦ cc (rw (p, q) at e)
          | inr q ↦ let same : r ≡ s = cc (rw (p, q) at e) in subst IsBounded same (h r refl)
        ]
      ]

  rules-IsBounded :
      (profile : Profile) (snapshot : Snapshot) (s : Session)
      → IsBounded s
      → IsBounded (run_rules env profile snapshot (record { session = s; emitted = [] })).1.session
  rules-IsBounded profile snapshot s h =
      let m = run_rules-Moves env snapshot profile (record { session = s; emitted = [] }) in
      record {
        active = m.bounded h.active;
        history = rw m.history (length-remember_all m.alerts s.history h.history);
      }

  insert-AreBounded :
      (key : String) (s : Session) (states : List (String × Session))
      → IsBounded s
      → AreBounded states
      → AreBounded (insert key s states)
  insert-AreBounded key s states b h k t e = elim (Bool-cases (str_eq key k)) [
    | inl p ↦
        let same : s ≡ t = cc (rw (lookup-insert key k s states, p) at e) in subst IsBounded same b
    | inr p ↦ h k t (rw (lookup-insert key k s states, p) at e)
  ]

  end-AreBounded :
      (snapshot : Snapshot) (states : List (String × Session)) (raised : Option Refusal) (p : Pass)
      → IsBounded p.session
      → AreBounded states
      → AreBounded (end_reduce env snapshot states raised p).1
  unfolding end_reduce
  end-AreBounded snapshot states (some e) p b h =
      insert-AreBounded (casefold snapshot.character) _ states b h
  end-AreBounded snapshot states none p b h =
      insert-AreBounded (casefold snapshot.character) _ states
        (record { active = b.active; history = b.history }) h

  entered-AreBounded :
      (profile : Profile) (snapshot : Snapshot) (states : List (String × Session))
      (r : Result Session)
      → enter env (lookup (casefold snapshot.character) states) snapshot ≡ r
      → AreBounded states
      → AreBounded (reduce_entered env profile snapshot states r).1
  unfolding reduce_entered
  entered-AreBounded profile snapshot states (err e) f h = h
  entered-AreBounded profile snapshot states (ok s) f h =
      end-AreBounded snapshot states _ _
        (rules-IsBounded profile snapshot s
          (enter-IsBounded snapshot _ s (λ r e. h (casefold snapshot.character) r e) f))
        h

  profiled-AreBounded :
      (o : Option Profile) (snapshot : Snapshot) (states : List (String × Session))
      → AreBounded states
      → AreBounded (reduce_profiled env o snapshot states).1
  unfolding reduce_profiled
  profiled-AreBounded none snapshot states h = h
  profiled-AreBounded (some profile) snapshot states h =
      entered-AreBounded profile snapshot states _ refl h

  all-AreBounded :
      (l : List Snapshot) (states : List (String × Session))
      → AreBounded states
      → AreBounded (reduce_all l states)
  unfolding reduce_all reduce
  all-AreBounded [] states h = h
  all-AreBounded (x ∷ l) states h = all-AreBounded l _ (profiled-AreBounded _ x states h)

  -- Whatever snapshots are reduced, accepted or refused, each character has at most `active_limit`
  -- active alerts and remembers at most `history_limit`.
  pub reduce_all-AreBounded : (l : List Snapshot) → AreBounded (reduce_all l [])
  unfolding lookup
  reduce_all-AreBounded l = all-AreBounded l [] (λ k s e. cc)
