-- ===== src/World/Waiting.antt =====
-- What `watch` of src/lich_agent_bridge/world_state.py returns, and that it returns.
use lich_agent_bridge.Base.{
  ℕ, ◌+◌, ◌≤◌, String, true, false, ◌≡◌, refl, Option, none, some, List, [], ◌∷◌, ◌⊎◌, inl, inr,
  arith, leb, ap, ◌∙◌, sym, Option-cases, Bool-cases, ◌*◌,
}
use lich_agent_bridge.Base.Dict.{lookup}
use lich_agent_bridge.World.Types.{
  Batch, Conflict, Env, Result, ok, err, Timeout, bad_type, outside, ticks, World, timeout_range,
  bad_cursor, bad_timeout,
}
use lich_agent_bridge.World.Watch.{character_key, look, timed_out, wait, watch, watch_limit}

module _ {V : Type 0} where
  -- The wake-up is one of the run.
  abbrev pub OneOf : (World V × ℕ → Type 0) → List (World V × ℕ) → Type 0
  OneOf P [] = ⊥
  OneOf P (x ∷ l) = P x ⊎ OneOf P l

  OneOf-map :
      (P Q : World V × ℕ → Type 0)
      → ((x : World V × ℕ) → P x → Q x)
      → (l : List (World V × ℕ)) → OneOf P l
      → OneOf Q l
  OneOf-map P Q f [] h = h
  OneOf-map P Q f (x ∷ l) (inl h) = inl (f x h)
  OneOf-map P Q f (x ∷ l) (inr h) = inr (OneOf-map P Q f l h)

module _ {V : Type 0} (env : Env V) where
  -- What the look at the world at one wake-up gives: the events after the cursor, or, at or after
  -- the deadline, the batch of a timeout.
  abbrev pub Answers : String → String → ℕ → ℕ → Batch V → World V × ℕ → Type 0
  Answers character key cursor deadline b x =
      (look env (lookup key x.0) cursor ≡ some b)
      ⊎ ((look env (lookup key x.0) cursor ≡ none)
          × (deadline ≤ x.1)
          × (b ≡ timed_out env character (lookup key x.0)))

  -- One wake-up of the loop.
  wait-found :
      (character key : String) (cursor deadline clock : ℕ) (w : World V) (l : List (World V × ℕ))
      (b : Batch V)
      → look env (lookup key w) cursor ≡ some b
      → wait env character key cursor deadline ((w, clock) ∷ l) ≡ some b
  unfolding wait
  wait-found character key cursor deadline clock w l b e = ground arith

  wait-late :
      (character key : String) (cursor deadline clock : ℕ) (w : World V) (l : List (World V × ℕ))
      → look env (lookup key w) cursor ≡ none
      → leb deadline clock ≡ true
      → wait env character key cursor deadline ((w, clock) ∷ l)
        ≡ some (timed_out env character (lookup key w))
  unfolding wait
  wait-late character key cursor deadline clock w l e f = ground arith

  wait-soon :
      (character key : String) (cursor deadline clock : ℕ) (w : World V) (l : List (World V × ℕ))
      → look env (lookup key w) cursor ≡ none
      → leb deadline clock ≡ false
      → wait env character key cursor deadline ((w, clock) ∷ l)
        ≡ wait env character key cursor deadline l
  unfolding wait
  wait-soon character key cursor deadline clock w l e f = ground arith

  wait-Answers :
      (character key : String) (cursor deadline : ℕ) (l : List (World V × ℕ)) (b : Batch V)
      → wait env character key cursor deadline l ≡ some b
      → OneOf (Answers character key cursor deadline b) l
  unfolding wait
  wait-Answers character key cursor deadline [] b h = cc
  wait-Answers character key cursor deadline ((w, clock) ∷ l) b h =
      elim (Option-cases (look env (lookup key w) cursor)) [
        | inr (c, e) ↦
            let found = wait-found character key cursor deadline clock w l c e in
            inl (inl (e ∙ sym found ∙ h))
        | inl e ↦ elim (Bool-cases (leb deadline clock)) [
          | inl late ↦
              let out = wait-late character key cursor deadline clock w l e late in
              inl (inr (e, ground arith, cc (out, h)))
          | inr soon ↦
              let on = wait-soon character key cursor deadline clock w l e soon in
              inr (wait-Answers character key cursor deadline l b (sym on ∙ h))
        ]
      ]

  wait-returns :
      (character key : String) (cursor deadline : ℕ) (l : List (World V × ℕ))
      → OneOf (λ x. deadline ≤ x.1) l
      → (b : Batch V) × (wait env character key cursor deadline l ≡ some b)
  wait-returns character key cursor deadline [] h = absurd h
  wait-returns character key cursor deadline ((w, clock) ∷ l) h =
      elim (Option-cases (look env (lookup key w) cursor)) [
        | inr (c, e) ↦ (c, wait-found character key cursor deadline clock w l c e)
        | inl e ↦ elim (Bool-cases (leb deadline clock)) [
          | inl late ↦ (
            timed_out env character (lookup key w),
            wait-late character key cursor deadline clock w l e late,
          )
          | inr soon ↦
              let (b, r) =
                wait-returns character key cursor deadline l (still_ahead clock w l h soon) in
              (b, wait-soon character key cursor deadline clock w l e soon ∙ r)
        ]
      ]
    where
      still_ahead :
          (clock : ℕ) (w : World V) (l : List (World V × ℕ))
          → OneOf (λ x. deadline ≤ x.1) ((w, clock) ∷ l)
          → leb deadline clock ≡ false
          → OneOf (λ x. deadline ≤ x.1) l
      still_ahead clock w l (inl h) k = absurd (ground arith)
      still_ahead clock w l (inr h) k = h

  -- What the three checks let through, and what `watch` is then.
  record IsChecked (second : ℕ) (character : String) (cursor : Option ℕ) (timeout : Timeout)
      (started : ℕ) (l : List (World V × ℕ)) : Type 0 where
    key : String
    from : ℕ
    span : ℕ
    named : character_key env character ≡ ok key
    given : cursor ≡ some from
    timed : timeout ≡ ticks span
    short : span ≤ 30 * second
    run :
        watch env second character cursor timeout started l
        ≡ ok (wait env character key from (started + span) l)

  checked :
      (second : ℕ) (character : String) (cursor : Option ℕ) (timeout : Timeout) (started : ℕ)
      (l : List (World V × ℕ))
      → IsChecked second character cursor timeout started l
        ⊎ ((e : Conflict) × (watch env second character cursor timeout started l ≡ err e))
  unfolding watch watch_limit
  checked second character cursor timeout started l = named (character_key env character) refl
    where
      limited :
          (key : String) (n : ℕ) (x : Timeout)
          → character_key env character ≡ ok key
          → cursor ≡ some n
          → timeout ≡ x
          → IsChecked second character cursor timeout started l
            ⊎ ((e : Conflict) × (watch env second character cursor timeout started l ≡ err e))
      limited key n bad_type e f g = inr (bad_timeout, ground arith)
      limited key n outside e f g = inr (timeout_range, ground arith)
      limited key n (ticks t) e f g = elim (Bool-cases (leb t (30 * second))) [
        | inr k ↦ inr (timeout_range, ground arith)
        | inl k ↦ inl (record {
          key = key;
          from = n;
          span = t;
          named = e;
          given = f;
          timed = g;
          short = ground arith;
          run = ground arith;
        })
      ]

      counted :
          (key : String) (o : Option ℕ)
          → character_key env character ≡ ok key
          → cursor ≡ o
          → IsChecked second character cursor timeout started l
            ⊎ ((e : Conflict) × (watch env second character cursor timeout started l ≡ err e))
      counted key none e f = inr (bad_cursor, ground arith)
      counted key (some n) e f = limited key n timeout e f refl

      named :
          (r : Result String)
          → character_key env character ≡ r
          → IsChecked second character cursor timeout started l
            ⊎ ((e : Conflict) × (watch env second character cursor timeout started l ≡ err e))
      named (err x) e = inr (x, ground arith)
      named (ok key) e = counted key cursor e refl

  -- `watch` returns a batch only for a valid character, a cursor that is not negative and a timeout
  -- of at most 30 seconds. The batch is that of a look at the character's state at one of its
  -- wake-ups: the events after the cursor, or, where there are none and the monotonic clock has
  -- reached the deadline, the batch of a timeout.
  pub watch-Answers :
      (second : ℕ) (character : String) (cursor : Option ℕ) (timeout : Timeout) (started : ℕ)
      (l : List (World V × ℕ)) (b : Batch V)
      → watch env second character cursor timeout started l ≡ ok (some b)
      → (key : String) × (n : ℕ) × (t : ℕ) × (character_key env character ≡ ok key)
        × (cursor ≡ some n)
        × (timeout ≡ ticks t)
        × (t ≤ 30 * second)
        × OneOf (Answers character key n (started + t) b) l
  watch-Answers second character cursor timeout started l b h =
      elim (checked second character cursor timeout started l) [
        | inr (x, e) ↦ cc (e, h)
        | inl c ↦
            let same : wait env character c.key c.from (started + c.span) l ≡ some b =
              cc (c.run, h) in
            (
              c.key,
              c.from,
              c.span,
              c.named,
              c.given,
              c.timed,
              c.short,
              wait-Answers character c.key c.from (started + c.span) l b same,
            )
      ]

  -- `watch` ends: with a timeout `t`, it has returned a batch or raised by the first wake-up at which
  -- the monotonic clock has advanced by `t`, whatever the other threads publish meanwhile.
  pub watch_ends :
      (second : ℕ) (character : String) (cursor : Option ℕ) (t started : ℕ) (l : List (World V × ℕ))
      → OneOf (λ x. started + t ≤ x.1) l
      → ((b : Batch V) × (watch env second character cursor (ticks t) started l ≡ ok (some b)))
        ⊎ ((e : Conflict) × (watch env second character cursor (ticks t) started l ≡ err e))
  watch_ends second character cursor t started l h =
      elim (checked second character cursor (ticks t) started l) [
        | inr e ↦ inr e
        | inl c ↦
            let same : c.span ≡ t = cc (c.timed) in
            let (b, e) =
              wait-returns character c.key c.from (started + c.span) l
                (OneOf-map _ _ (λ x k. omega (arith, k, same)) l h) in
            inl (b, c.run ∙ ap ok e)
      ]
