-- ===== src/Operations/Fates.antt =====
-- What becomes of an operation under each section of the runner.
use lich_agent_bridge.Base.{
  ℕ, ◌≤◌, String, true, false, ◌+◌, ◌≡◌, ◌≢◌, refl, Option, none, some, List, [], ◌∷◌, ◌⊎◌, inl,
  inr, arith, leb, str_eq, eq_iff, length, Bool-cases, Option-cases, subst, ◌∙◌, ap,
}
use lich_agent_bridge.Base.Text.{is_blank, strip}
use lich_agent_bridge.Operations.Types.{
  Operation, Status, requested, admitted, running, succeeded, failed, is_terminal, may_follow,
}
use lich_agent_bridge.Operations.Registry.{
  Call, Result, ok, err, Runner, admit, admitted_or, create, create_for, emit, enroll, evict,
  fail_unexpected, find, first_ended, interrupt, remove, is_blank_option, is_owned, new_operation,
  progress, room_for, store, transition,
}
use lich_agent_bridge.Operations.Acts.{
  Act, act, begin, IsFresh, report, move, give_up, ask_to_stop, write, write_to, written, Write,
}
use lich_agent_bridge.Operations.Weights.{
  total, find-append, find-append_there, find-id, find-remove, find-store, first_ended-find,
}
use lich_agent_bridge.Operations.Logs.{one}
use lich_agent_bridge.Operations.Ownership.{IsRunner}

-- The status follows the other one: from requested to admitted to running to succeeded, and from
-- each of the first three to a terminal status other than succeeded.
abbrev pub Follows : Status → Status → Type 0
Follows s t =
    ((s ≡ requested) × (t ≡ admitted))
    ⊎ (((s ≡ admitted) × (t ≡ running))
        ⊎ (((s ≡ running) × (t ≡ succeeded))
            ⊎ ((is_terminal s ≡ false) × (is_terminal t ≡ true) × (t ≢ succeeded))))

-- The operation is still there, with its status or, if it has not ended, one that may follow it; or
-- it has ended, and is gone.
pub data Fate (i : String) (o : Operation) (l : List Operation) : Type 0 where
  stays :
      (p : Operation)
      → find i l ≡ some p
      → (p.status ≡ o.status) ⊎ ((is_terminal o.status ≡ false) × Follows o.status p.status)
      → Fate i o l
  leaves : find i l ≡ none → is_terminal o.status ≡ true → Fate i o l

may_follow-Follows : (s t : Status) → may_follow s t ≡ true → (is_terminal s ≡ false) × Follows s t
may_follow-Follows s t h = ground arith

find-total :
    (i : String) (o : Operation) (l : List Operation) → find i l ≡ some o → 1 ≤ total (one i) l
unfolding find total
find-total i o [] h = cc
find-total i o (x ∷ l) h = ground (arith, find-total i o l)

total-removed :
    (i : String) (o : Operation) (l : List Operation)
    → find i l ≡ some o
    → total (one i) (remove i l) + 1 ≤ total (one i) l
unfolding find remove total
total-removed i o [] h = cc
total-removed i o (x ∷ l) h = ground (arith, total-removed i o l)

-- Where ids are unique, a removed one is gone.
find-removed :
    (i : String) (o : Operation) (l : List Operation)
    → find i l ≡ some o
    → total (one i) l ≤ 1
    → find i (remove i l) ≡ none
find-removed i o l f u = elim (Option-cases (find i (remove i l))) [
  | inl e ↦ e
  | inr (p, e) ↦ absurd (omega (arith, total-removed i o l f, find-total i p (remove i l) e, u))
]

-- The operation that is evicted has ended, since no other has its id.
evicted-ended :
    (i : String) (o : Operation) (l : List Operation)
    → first_ended l ≡ some i
    → find i l ≡ some o
    → total (one i) l ≤ 1
    → is_terminal o.status ≡ true
unfolding first_ended find total
evicted-ended i o [] h f u = cc
evicted-ended i o (x ∷ l) h f u = elim (Bool-cases (is_terminal x.status)) [
  | inl e ↦ ground (arith, e, h, f, eq_iff x.operation_id i)
  | inr e ↦
      let first : first_ended l ≡ some i = rw e at h in
      let (y, there) = first_ended-find i l first in
      let many : 1 ≤ total (one i) l = find-total i y l there in
      ground (arith, many, u, f, first, evicted-ended i o l first)
]

store-Fate :
    (i j : String) (o x p : Operation) (l : List Operation)
    → find i l ≡ some o
    → find j l ≡ some x
    → p.operation_id ≡ x.operation_id
    → (p.status ≡ x.status) ⊎ ((is_terminal x.status ≡ false) × Follows x.status p.status)
    → Fate i o (store p l)
store-Fate i j o x p l f g same step = elim (Bool-cases (str_eq p.operation_id i)) [
  | inr e ↦ stays o (find-store i p x l found ∙ rw e f) (inl refl)
  | inl e ↦
      let here : p.operation_id ≡ i = ground (arith, e, eq_iff p.operation_id i) in
      let equal : x ≡ o = cc (found, f, here) in
      stays p (find-store i p x l found ∙ rw e refl) (
        subst
          (λ z.
            (p.status ≡ z.status) ⊎ ((is_terminal z.status ≡ false) × Follows z.status p.status))
          equal step)
]
  where
    found : find p.operation_id l ≡ some x
    found = cc (same, find-id j x l g, g)

same-Fate : (i : String) (o : Operation) (l : List Operation) → find i l ≡ some o → Fate i o l
same-Fate i o l f = stays o f (inl refl)

module _ (casefold : String → String) (history_limit : ℕ) (positive : 1 ≤ history_limit) where
  evict-Fate :
      (i : String) (o : Operation) (e : Option String) (r : Runner)
      → IsRunner casefold history_limit positive r
      → find i r.operations ≡ some o
      → room_for casefold history_limit r.operations ≡ ok e
      → (find i (evict casefold history_limit e r).operations ≡ some o)
        ⊎ ((find i (evict casefold history_limit e r).operations ≡ none)
            × (is_terminal o.status ≡ true))
  unfolding room_for
  evict-Fate i o none r h f k = inl f
  evict-Fate i o (some j) r h f k = elim (Bool-cases (leb history_limit (length r.operations))) [
    | inr small ↦ cc (rw small at k)
    | inl full ↦ elim (Option-cases (first_ended r.operations)) [
      | inl g ↦ cc (rw (full, g) at k)
      | inr (n, g) ↦
          let same : n ≡ j = cc (rw (full, g) at k) in
          elim (Bool-cases (str_eq j i)) [
            | inr e ↦ inl (find-remove j i r.operations e ∙ f)
            | inl e ↦
                let equal : j ≡ i = ground (arith, e, eq_iff j i) in
                let first : first_ended r.operations ≡ some i = g ∙ ap some (same ∙ equal) in
                inr (
                  ap (λ k. find i (remove k r.operations)) equal
                      ∙ find-removed i o r.operations f (h.unique i),
                  evicted-ended i o r.operations first f (h.unique i),
                )
          ]
    ]
  ]

  admitted-Fate :
      (i : String) (o p : Operation) (now : ℕ) (x : Result (Option String)) (r : Runner)
      → IsRunner casefold history_limit positive r
      → find i r.operations ≡ some o
      → str_eq p.operation_id i ≡ false
      → room_for casefold history_limit r.operations ≡ x
      → Fate i o (admitted_or casefold history_limit x now p r).1.operations
  unfolding enroll emit
  admitted-Fate i o p now (err e) r h f other k = same-Fate i o r.operations f
  admitted-Fate i o p now (ok e) r h f other k = elim (evict-Fate i o e r h f k) [
    | inl g ↦
        stays o (find-append_there i (evict casefold history_limit e r).operations _ o g) (inl refl)
    | inr (gone, t) ↦
        leaves (find-append i (evict casefold history_limit e r).operations _ gone ∙ rw other refl)
          t
  ]

  admit-Fate :
      (i : String) (o p : Operation) (now : ℕ) (r : Runner)
      → IsRunner casefold history_limit positive r
      → find i r.operations ≡ some o
      → str_eq p.operation_id i ≡ false
      → Fate i o (admit casefold history_limit now p r).1.operations
  unfolding admit
  admit-Fate i o p now r h f other =
      elim (Bool-cases (is_owned casefold history_limit (casefold p.character) r.operations)) [
        | inl e ↦ rw e (same-Fate i o r.operations f)
        | inr e ↦ rw e (
            admitted-Fate i o p now (room_for casefold history_limit r.operations) r h f other refl)
      ]

  create-Fate :
      (i : String) (o : Operation) (token : String) (now later : ℕ) (c : Call) (r : Runner)
      → IsRunner casefold history_limit positive r
      → find i r.operations ≡ some o
      → find token r.operations ≡ none
      → Fate i o (create casefold history_limit token now later c r).1.operations
  unfolding create
  create-Fate i o token now later c r h f fresh = elim (Bool-cases (is_blank (strip c.character))) [
    | inl e ↦ rw e (same-Fate i o r.operations f)
    | inr e ↦ elim (Bool-cases (is_blank (strip c.capability))) [
      | inl g ↦ rw (e, g) (same-Fate i o r.operations f)
      | inr g ↦ elim (Bool-cases (is_blank_option casefold history_limit c.expected_generation)) [
        | inl k ↦ rw (e, g, k) (same-Fate i o r.operations f)
        | inr k ↦ rw (e, g, k) (timed c.duration)
      ]
    ]
  ]
    where
      other : str_eq token i ≡ false
      other = elim (Bool-cases (str_eq token i)) [
        | inr e ↦ e
        | inl e ↦ let same : token ≡ i = (eq_iff token i).0 e in cc (fresh, f, same)
      ]

      timed :
          (d : Option ℕ)
          → Fate i o (create_for casefold history_limit token now later d c r).1.operations
      timed none = same-Fate i o r.operations f
      timed (some d) = elim (Bool-cases (leb d 0)) [
        | inl e ↦ rw e (same-Fate i o r.operations f)
        | inr e ↦
            rw e (
              admit-Fate i o (new_operation casefold history_limit token now d c) later r h f other)
      ]

  progress-Fate :
      (i j : String) (o : Operation) (now : ℕ) (d : String) (r : Runner)
      → find i r.operations ≡ some o
      → Fate i o (progress casefold history_limit j now d r).operations
  unfolding progress emit
  progress-Fate i j o now d r f = elim (Option-cases (find j r.operations)) [
    | inl e ↦ rw e (same-Fate i o r.operations f)
    | inr (x, e) ↦ rw e (store-Fate i j o x _ r.operations f e refl (inl refl))
  ]

  transition-Fate :
      (i j : String) (o : Operation) (now : ℕ) (s : Status) (d : String) (r : Runner)
      → find i r.operations ≡ some o
      → Fate i o (transition casefold history_limit j now s d r).operations
  unfolding transition emit
  transition-Fate i j o now s d r f = elim (Option-cases (find j r.operations)) [
    | inl e ↦ rw e (same-Fate i o r.operations f)
    | inr (x, e) ↦ elim (Bool-cases (may_follow x.status s)) [
      | inr g ↦ rw (e, g) (same-Fate i o r.operations f)
      | inl g ↦
          rw (e, g)
            (store-Fate i j o x _ r.operations f e refl (inr (may_follow-Follows x.status s g)))
    ]
  ]

  may_fail : (s : Status) → is_terminal s ≡ false → may_follow s failed ≡ true
  may_fail s h = ground arith

  fail-Fate :
      (i j : String) (o : Operation) (now : ℕ) (d : String) (r : Runner)
      → find i r.operations ≡ some o
      → Fate i o (fail_unexpected casefold history_limit j now d r).operations
  unfolding fail_unexpected emit
  fail-Fate i j o now d r f = elim (Option-cases (find j r.operations)) [
    | inl e ↦ rw e (same-Fate i o r.operations f)
    | inr (x, e) ↦ elim (Bool-cases (is_terminal x.status)) [
      | inl g ↦ rw (e, g) (same-Fate i o r.operations f)
      | inr g ↦
          rw (e, g)
            (store-Fate i j o x _ r.operations f e refl
              (inr (may_follow-Follows x.status failed (may_fail x.status g))))
    ]
  ]

  interrupt-Fate :
      (i j : String) (o : Operation) (r : Runner)
      → find i r.operations ≡ some o
      → Fate i o (interrupt casefold history_limit j r).1.operations
  unfolding interrupt
  interrupt-Fate i j o r f = elim (Option-cases (find j r.operations)) [
    | inl e ↦ rw e (same-Fate i o r.operations f)
    | inr (x, e) ↦ elim (Bool-cases (is_terminal x.status)) [
      | inl g ↦ rw (e, g) (same-Fate i o r.operations f)
      | inr g ↦ rw (e, g) (same-Fate i o r.operations f)
    ]
  ]

  written-status :
      (w : Write) (x : Operation)
      → ((written w x).operation_id ≡ x.operation_id) × ((written w x).status ≡ x.status)
  unfolding written
  written-status (Write.admitted_at n) x = (refl, refl)
  written-status (Write.started_at n) x = (refl, refl)
  written-status (Write.ended_at n) x = (refl, refl)
  written-status (Write.start_state s) x = (refl, refl)
  written-status (Write.end_state s) x = (refl, refl)
  written-status (Write.binding b) x = (refl, refl)
  written-status (Write.evidence e) x = (refl, refl)
  written-status (Write.alert d) x = (refl, refl)
  written-status (Write.explanation d) x = (refl, refl)

  write-Fate :
      (i : String) (o : Operation) (w : Write) (l : Option Operation) (j : String) (r : Runner)
      → find i r.operations ≡ some o
      → find j r.operations ≡ l
      → Fate i o (write_to l w r).operations
  write-Fate i o w none j r f e = same-Fate i o r.operations f
  write-Fate i o w (some x) j r f e =
      store-Fate i j o x (written w x) r.operations f e (written-status w x).0
        (inl (written-status w x).1)

  -- Under every section, by any thread, where the runner keeps its invariant and the id of a new
  -- operation is fresh: an operation keeps its status, or it had not ended and its status goes from
  -- requested to admitted to running to succeeded, or from one of these to another terminal status.
  -- So a terminal status is for good; and an operation leaves the history only when it has ended.
  pub act-Fate :
      (a : Act) (r : Runner) (i : String) (o : Operation)
      → IsRunner casefold history_limit positive r
      → IsFresh casefold history_limit a r
      → find i r.operations ≡ some o
      → Fate i o (act casefold history_limit a r).operations
  unfolding act
  act-Fate (begin token now later c) r i o h new f = create-Fate i o token now later c r h f new
  act-Fate (report j now d) r i o h new f = progress-Fate i j o now d r f
  act-Fate (move j now s d) r i o h new f = transition-Fate i j o now s d r f
  act-Fate (give_up j now d) r i o h new f = fail-Fate i j o now d r f
  act-Fate (ask_to_stop j) r i o h new f = interrupt-Fate i j o r f
  act-Fate (write j w) r i o h new f = write-Fate i o w (find j r.operations) j r f refl
