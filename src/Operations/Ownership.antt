-- ===== src/Operations/Ownership.antt =====
-- What the runner keeps under each change of one operation.
use lich_agent_bridge.Base.{
  ℕ, ◌+◌, ◌≤◌, String, true, ◌&&◌, not, ◌≡◌, refl, some, arith, if◌then◌else◌, str_eq, length,
  Bool-cases, Option-cases, inl, inr, All,
}
use lich_agent_bridge.Operations.Types.{Operation, Status, is_terminal, may_follow, failed}
use lich_agent_bridge.Operations.Registry.{
  Runner, emit, fail_unexpected, find, interrupt, progress, store, transition,
}
use lich_agent_bridge.Operations.Acts.{Write, write_to, written}
use lich_agent_bridge.Operations.Weights.{total, total-store, length-store, find-id}
use lich_agent_bridge.Operations.Logs.{
  one, Rising, Rising-weaken, Rising-append, All-store, All-map, All-find,
}

module _ (casefold : String → String) (history_limit : ℕ) (positive : 1 ≤ history_limit) where
  -- One, if the operation of the character has not ended.
  abbrev pub live : String → Operation → ℕ
  live key o = if str_eq (casefold o.character) key && not (is_terminal o.status) then 1 else 0

  pub record IsRunner (r : Runner) : Type 0 where
    pub bounded : length r.operations ≤ history_limit
    pub single : (key : String) → total (live key) r.operations ≤ 1
    pub unique : (i : String) → total (one i) r.operations ≤ 1
    pub logs : All (λ o. Rising 0 o.events r.cursor) r.operations

  -- An operation whose record changes under its id, and that does not come back to life.
  pub record Changes (o p : Operation) (cursor : ℕ) : Type 0 where
    pub same_id : p.operation_id ≡ o.operation_id
    pub character : p.character ≡ o.character
    pub ended : is_terminal o.status ≡ true → is_terminal p.status ≡ true
    pub log : Rising 0 p.events cursor

  live-le : (key : String) (o p : Operation) (c : ℕ) → Changes o p c → live key p ≤ live key o
  live-le key o p c h = rw h.character (ground (arith, h.ended))

  store-IsRunner :
      (i : String) (o p : Operation) (r : Runner) (c : ℕ)
      → IsRunner r
      → find i r.operations ≡ some o
      → r.cursor ≤ c
      → Changes o p c
      → IsRunner (record r { operations = store p r.operations; cursor = c })
  store-IsRunner i o p r c h f k ch =
      let found : find p.operation_id r.operations ≡ some o =
        cc (ch.same_id, find-id i o r.operations f, f) in
      record {
        bounded = rw length-store h.bounded;
        single = λ key. omega (
          arith,
          total-store (live key) p o r.operations found,
          live-le key o p c ch,
          h.single key,
        );
        unique = λ j.
            let same : one j p ≡ one j o = rw ch.same_id refl in
            omega (arith, total-store (one j) p o r.operations found, h.unique j, same);
        logs =
            All-store _ r.operations p
              (All-map _ _ (λ x. Rising-weaken 0 r.cursor c x.events k) r.operations h.logs) ch.log;
      }

  emit-Changes :
      (o p : Operation) (cursor now : ℕ) (status : Status) (detail : String)
      → p.operation_id ≡ o.operation_id
      → p.character ≡ o.character
      → p.events ≡ o.events
      → (is_terminal o.status ≡ true → is_terminal p.status ≡ true)
      → Rising 0 o.events cursor
      → Changes o (emit (cursor + 1) now status detail p) (cursor + 1)
  unfolding emit
  emit-Changes o p cursor now status detail a b e d h = record {
    same_id = a;
    character = b;
    ended = d;
    log = rw e (Rising-append 0 cursor o.events _ (omega arith) h);
  }

  pub progress-IsRunner :
      (i : String) (now : ℕ) (detail : String) (r : Runner)
      → IsRunner r
      → IsRunner (progress casefold history_limit i now detail r)
  unfolding progress
  progress-IsRunner i now detail r h = elim (Option-cases (find i r.operations)) [
    | inl e ↦ rw e h
    | inr (o, e) ↦ rw e (
        store-IsRunner i o _ r (r.cursor + 1) h e (omega arith) (
          emit-Changes o o r.cursor now o.status detail refl refl refl (λ t. t)
            (All-find _ i o r.operations h.logs e)))
  ]

  pub transition-IsRunner :
      (i : String) (now : ℕ) (status : Status) (detail : String) (r : Runner)
      → IsRunner r
      → IsRunner (transition casefold history_limit i now status detail r)
  unfolding transition
  transition-IsRunner i now status detail r h = elim (Option-cases (find i r.operations)) [
    | inl e ↦ rw e h
    | inr (o, e) ↦ elim (Bool-cases (may_follow o.status status)) [
      | inr f ↦ rw (e, f) h
      | inl f ↦
          rw (e, f)
            (store-IsRunner i o _ r (r.cursor + 1) h e (omega arith) (
              emit-Changes o (record o { status = status }) r.cursor now status detail refl refl
                refl (λ t. ended_stays o.status status t f) (All-find _ i o r.operations h.logs e)))
    ]
  ]
    where
      ended_stays :
          (s t : Status) → is_terminal s ≡ true → may_follow s t ≡ true → is_terminal t ≡ true
      ended_stays s t h k = ground arith

  pub fail-IsRunner :
      (i : String) (now : ℕ) (detail : String) (r : Runner)
      → IsRunner r
      → IsRunner (fail_unexpected casefold history_limit i now detail r)
  unfolding fail_unexpected
  fail-IsRunner i now detail r h = elim (Option-cases (find i r.operations)) [
    | inl e ↦ rw e h
    | inr (o, e) ↦ elim (Bool-cases (is_terminal o.status)) [
      | inl f ↦ rw (e, f) h
      | inr f ↦
          rw (e, f)
            (store-IsRunner i o _ r (r.cursor + 1) h e (omega arith) (
              emit-Changes o
                (record o { explanation = detail; ended_at = some now; status = failed }) r.cursor
                now failed detail refl refl refl (λ t. refl)
                (All-find _ i o r.operations h.logs e)))
    ]
  ]

  written-Changes :
      (w : Write) (o : Operation) (c : ℕ) → Rising 0 o.events c → Changes o (written w o) c
  unfolding written
  written-Changes (Write.admitted_at n) o c h = record {
    same_id = refl;
    character = refl;
    ended = λ t. t;
    log = h;
  }
  written-Changes (Write.started_at n) o c h = record {
    same_id = refl;
    character = refl;
    ended = λ t. t;
    log = h;
  }
  written-Changes (Write.ended_at n) o c h = record {
    same_id = refl;
    character = refl;
    ended = λ t. t;
    log = h;
  }
  written-Changes (Write.start_state s) o c h = record {
    same_id = refl;
    character = refl;
    ended = λ t. t;
    log = h;
  }
  written-Changes (Write.end_state s) o c h = record {
    same_id = refl;
    character = refl;
    ended = λ t. t;
    log = h;
  }
  written-Changes (Write.binding s) o c h = record {
    same_id = refl;
    character = refl;
    ended = λ t. t;
    log = h;
  }
  written-Changes (Write.evidence s) o c h = record {
    same_id = refl;
    character = refl;
    ended = λ t. t;
    log = h;
  }
  written-Changes (Write.alert s) o c h = record {
    same_id = refl;
    character = refl;
    ended = λ t. t;
    log = h;
  }
  written-Changes (Write.explanation s) o c h = record {
    same_id = refl;
    character = refl;
    ended = λ t. t;
    log = h;
  }

  pub write-IsRunner :
      (i : String) (w : Write) (r : Runner)
      → IsRunner r
      → IsRunner (write_to (find i r.operations) w r)
  write-IsRunner i w r h = elim (Option-cases (find i r.operations)) [
    | inl e ↦ rw e h
    | inr (o, e) ↦ rw e (
        store-IsRunner i o (written w o) r r.cursor h e (omega arith)
          (written-Changes w o r.cursor (All-find _ i o r.operations h.logs e)))
  ]

  pub interrupt-IsRunner :
      (i : String) (r : Runner) → IsRunner r → IsRunner (interrupt casefold history_limit i r).1
  unfolding interrupt
  interrupt-IsRunner i r h = elim (Option-cases (find i r.operations)) [
    | inl e ↦ rw e h
    | inr (o, e) ↦ elim (Bool-cases (is_terminal o.status)) [
      | inl f ↦ rw (e, f) h
      | inr f ↦
          rw (e, f)
            (record { bounded = h.bounded; single = h.single; unique = h.unique; logs = h.logs })
    ]
  ]
