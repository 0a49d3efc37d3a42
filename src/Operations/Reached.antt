-- ===== src/Operations/Reached.antt =====
-- One operation of a character at a time, a bounded history, and event cursors that only rise: in
-- every state that the runner's sections can lead to.
use lich_agent_bridge.Base.{
  ℕ, ◌+◌, ◌≤◌, ◌<◌, String, false, ◌≡◌, refl, Option, none, some, List, [], ◌∷◌, arith, leb, eq_iff,
  length, length-append, Bool-cases, Option-cases, inl, inr, subst,
}
use lich_agent_bridge.Base.Text.{is_blank, strip}
use lich_agent_bridge.Operations.Types.{Operation, requested}
use lich_agent_bridge.Operations.Registry.{
  Call, Result, ok, err, Runner, admit, admitted_or, create, create_for, emit, enroll, evict, find,
  first_ended, is_blank_option, is_owned, new_operation, room_for,
}
use lich_agent_bridge.Operations.Acts.{
  Act, IsFresh, Reach, act, begin, report, move, give_up, ask_to_stop, write, start, after,
}
use lich_agent_bridge.Operations.Weights.{
  total, total-append, total-one, total-remove, length-remove, first_ended-find,
}
use lich_agent_bridge.Operations.Logs.{
  one, Rising-weaken, All-append_one, All-remove, All-map, total-none,
}
use lich_agent_bridge.Operations.Ownership.{
  IsRunner, live, progress-IsRunner, transition-IsRunner, fail-IsRunner, write-IsRunner,
  interrupt-IsRunner,
}

module _ (casefold : String → String) (history_limit : ℕ) (positive : 1 ≤ history_limit) where
  not_owned-total :
      (key : String) (l : List Operation)
      → is_owned casefold history_limit key l ≡ false
      → total (live casefold history_limit positive key) l ≡ 0
  unfolding is_owned total
  not_owned-total key [] h = refl
  not_owned-total key (o ∷ l) h = ground (arith, not_owned-total key l)

  -- The runner with room for one more.
  record HasRoom (r : Runner) : Type 0 where
    valid : IsRunner casefold history_limit positive r
    room : length r.operations < history_limit

  room-HasRoom :
      (r : Runner) (i : Option String)
      → IsRunner casefold history_limit positive r
      → room_for casefold history_limit r.operations ≡ ok i
      → HasRoom (evict casefold history_limit i r)
  unfolding room_for
  room-HasRoom r i h e = elim (Bool-cases (leb history_limit (length r.operations))) [
    | inr small ↦
        let same : none ≡ i = cc (rw small at e) in
        subst (λ i. HasRoom (evict casefold history_limit i r)) same
          (record { valid = h; room = ground (arith, small) })
    | inl full ↦ elim (Option-cases (first_ended r.operations)) [
      | inl f ↦ cc (rw (full, f) at e)
      | inr (j, f) ↦
          let same : some j ≡ i = cc (rw (full, f) at e) in
          let (o, g) = first_ended-find j r.operations f in
          subst (λ i. HasRoom (evict casefold history_limit i r)) same
            (record {
              valid = record {
                bounded = omega (arith, length-remove j o r.operations g, h.bounded);
                single = λ key. omega (
                  arith,
                  total-remove (live casefold history_limit positive key) j r.operations,
                  h.single key,
                );
                unique = λ k. omega (arith, total-remove (one k) j r.operations, h.unique k);
                logs = All-remove _ j r.operations h.logs;
              };
              room = omega (arith, length-remove j o r.operations g, h.bounded);
            })
    ]
  ]

  evict-total :
      (w : Operation → ℕ) (i : Option String) (r : Runner)
      → total w (evict casefold history_limit i r).operations ≤ total w r.operations
  evict-total w none r = omega arith
  evict-total w (some i) r = total-remove w i r.operations

  enroll-IsRunner :
      (now : ℕ) (o : Operation) (r : Runner)
      → HasRoom r
      → total (live casefold history_limit positive (casefold o.character)) r.operations ≡ 0
      → total (one o.operation_id) r.operations ≡ 0
      → o.events ≡ []
      → IsRunner casefold history_limit positive (enroll casefold history_limit now o r)
  unfolding enroll emit
  enroll-IsRunner now o r h alone new blank =
      let p : Operation = emit (r.cursor + 1) now requested "operation requested" o in
      record {
        bounded = omega (arith, length-append r.operations (p ∷ []), h.room);
        single = λ key. ground (
          arith,
          total-append (live casefold history_limit positive key) r.operations (p ∷ []),
          total-one (live casefold history_limit positive key) p,
          h.valid.single key,
          eq_iff (casefold o.character) key,
          alone,
        );
        unique = λ i. ground (
          arith,
          total-append (one i) r.operations (p ∷ []),
          total-one (one i) p,
          h.valid.unique i,
          eq_iff o.operation_id i,
          new,
        );
        logs =
            All-append_one _ r.operations p
              (All-map _ _ (λ x. Rising-weaken 0 r.cursor (r.cursor + 1) x.events (omega arith))
                r.operations h.valid.logs)
              (rw blank (omega arith, omega arith));
      }

  admit-IsRunner :
      (now : ℕ) (o : Operation) (r : Runner)
      → IsRunner casefold history_limit positive r
      → find o.operation_id r.operations ≡ none
      → o.events ≡ []
      → IsRunner casefold history_limit positive (admit casefold history_limit now o r).1
  unfolding admit
  admit-IsRunner now o r h fresh blank =
      elim (Bool-cases (is_owned casefold history_limit (casefold o.character) r.operations)) [
        | inl e ↦ rw e h
        | inr e ↦ rw e (roomy (room_for casefold history_limit r.operations) refl e)
      ]
    where
      roomy :
          (x : Result (Option String))
          → room_for casefold history_limit r.operations ≡ x
          → is_owned casefold history_limit (casefold o.character) r.operations ≡ false
          → IsRunner casefold history_limit positive
              (admitted_or casefold history_limit x now o r).1
      roomy (err e) f g = h
      roomy (ok i) f g =
          let q = evict casefold history_limit i r in
          enroll-IsRunner now o q (room-HasRoom r i h f)
            (omega (
              arith,
              evict-total (live casefold history_limit positive (casefold o.character)) i r,
              not_owned-total (casefold o.character) r.operations g,
            ))
            (omega (
              arith,
              evict-total (one o.operation_id) i r,
              total-none o.operation_id r.operations fresh,
            ))
            blank

  create-IsRunner :
      (token : String) (now later : ℕ) (c : Call) (r : Runner)
      → IsRunner casefold history_limit positive r
      → find token r.operations ≡ none
      → IsRunner casefold history_limit positive
          (create casefold history_limit token now later c r).1
  unfolding create
  create-IsRunner token now later c r h fresh = elim (Bool-cases (is_blank (strip c.character))) [
    | inl e ↦ rw e h
    | inr e ↦ elim (Bool-cases (is_blank (strip c.capability))) [
      | inl f ↦ rw (e, f) h
      | inr f ↦ elim (Bool-cases (is_blank_option casefold history_limit c.expected_generation)) [
        | inl g ↦ rw (e, f, g) h
        | inr g ↦ rw (e, f, g) (timed c.duration)
      ]
    ]
  ]
    where
      timed :
          (d : Option ℕ)
          → IsRunner casefold history_limit positive
              (create_for casefold history_limit token now later d c r).1
      timed none = h
      timed (some d) = elim (Bool-cases (leb d 0)) [
        | inl e ↦ rw e h
        | inr e ↦ rw e (
            admit-IsRunner later (new_operation casefold history_limit token now d c) r h fresh
              refl)
      ]

  act-IsRunner :
      (a : Act) (r : Runner)
      → IsRunner casefold history_limit positive r
      → IsFresh casefold history_limit a r
      → IsRunner casefold history_limit positive (act casefold history_limit a r)
  unfolding act
  act-IsRunner (begin token now later c) r h f = create-IsRunner token now later c r h f
  act-IsRunner (report i now detail) r h f =
      progress-IsRunner casefold history_limit positive i now detail r h
  act-IsRunner (move i now status detail) r h f =
      transition-IsRunner casefold history_limit positive i now status detail r h
  act-IsRunner (give_up i now detail) r h f =
      fail-IsRunner casefold history_limit positive i now detail r h
  act-IsRunner (ask_to_stop i) r h f = interrupt-IsRunner casefold history_limit positive i r h
  act-IsRunner (write i w) r h f = write-IsRunner casefold history_limit positive i w r h

  -- Whatever the threads do, and whether it succeeds: the history holds at most its limit of
  -- operations, each under an id of its own; of one character at most one has not ended; and the
  -- cursors of the events of each operation rise strictly, up to the runner's own.
  pub Reach-IsRunner :
      {r : Runner} → Reach casefold history_limit r → IsRunner casefold history_limit positive r
  unfolding total
  Reach-IsRunner start = record {
    bounded = omega arith;
    single = λ key. omega arith;
    unique = λ i. omega arith;
    logs = tt;
  }
  Reach-IsRunner (after {r = r} a past fresh) = act-IsRunner a r (Reach-IsRunner past) fresh
