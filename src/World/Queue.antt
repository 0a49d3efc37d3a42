-- ===== src/World/Queue.antt =====
-- The event queue of a character: its cursors, and what `watch` reads from it.
use lich_agent_bridge.Base.{
  ℕ, suc, ◌+◌, ◌-◌, ◌≤◌, ◌<◌, true, false, ◌≡◌, refl, none, some, List, [], ◌∷◌, ◌++◌, arith, ltb,
  length, length-append, ap, Bool-cases, inl, inr, min, All, subst, sym, ◌∙◌,
}
use lich_agent_bridge.World.Types.{Batch, CharacterState, Env, Event, Stored}
use lich_agent_bridge.World.State.{append_event, trim}
use lich_agent_bridge.World.Watch.{available, batch, last_cursor, look, oldest_cursor}

module _ {V : Type 0} where
  -- The cursors count up to `n`, without a gap.
  abbrev pub CountsTo : ℕ → List (Stored V) → Type 0
  CountsTo n [] = Unit
  CountsTo n (e ∷ rest) = (e.cursor + length rest ≡ n) × CountsTo n rest

  CountsTo-snoc :
      (n : ℕ) (l : List (Stored V)) (e : Stored V)
      → e.cursor ≡ n + 1
      → CountsTo n l
      → CountsTo (n + 1) (l ++ e ∷ [])
  CountsTo-snoc n [] e h k = (omega arith, tt)
  CountsTo-snoc n (x ∷ l) e h k =
      (omega (arith, length-append l (e ∷ []), k.0), CountsTo-snoc n l e h k.1)

module _ {V : Type 0} (env : Env V) where
  -- The queue of a character is no longer than its capacity, and holds the last events without a gap.
  pub record IsQueue (s : CharacterState V) : Type 0 where
    pub bounded : length s.events ≤ env.event_capacity
    pub counted : CountsTo s.cursor s.events
    pub enough : length s.events ≤ s.cursor
    pub kept : 0 < env.event_capacity → 0 < s.cursor → 0 < length s.events

  CountsTo-trim : (n : ℕ) (l : List (Stored V)) → CountsTo n l → CountsTo n (trim env l)
  CountsTo-trim n [] h = tt
  CountsTo-trim n (e ∷ l) h = elim (Bool-cases (ltb env.event_capacity (length (e ∷ l)))) [
    | inl p ↦ rw p h.1
    | inr p ↦ rw p h
  ]

  length-trim :
      (l : List (Stored V))
      → length l ≤ env.event_capacity + 1
      → length (trim env l) ≤ env.event_capacity
  length-trim [] h = omega arith
  length-trim (e ∷ l) h = ground arith

  length-trim_le : (l : List (Stored V)) → length (trim env l) ≤ length l
  length-trim_le [] = omega arith
  length-trim_le (e ∷ l) = ground arith

  length-trim_pos :
      (l : List (Stored V)) → 0 < env.event_capacity → 0 < length l → 0 < length (trim env l)
  length-trim_pos [] h k = k
  length-trim_pos (e ∷ l) h k = ground arith

  -- Appending an event keeps the queue bounded and gapless.
  pub append_event-IsQueue :
      (s : CharacterState V) (event : Event V) → IsQueue s → IsQueue (append_event env s event)
  unfolding append_event
  append_event-IsQueue s event h =
      let stored : Stored V = record { cursor = s.cursor + 1; event = event } in
      record {
        bounded =
            length-trim (s.events ++ stored ∷ [])
              (omega (arith, length-append s.events (stored ∷ []), h.bounded));
        counted =
            CountsTo-trim (s.cursor + 1) (s.events ++ stored ∷ [])
              (CountsTo-snoc s.cursor s.events stored refl h.counted);
        enough = omega (
          arith,
          length-trim_le (s.events ++ stored ∷ []),
          length-append s.events (stored ∷ []),
          h.enough,
        );
        kept = λ room _.
            length-trim_pos (s.events ++ stored ∷ []) room
              (omega (arith, length-append s.events (stored ∷ [])));
      }

  -- Of a gapless queue, as many events are after `c` as there can be.
  length-available :
      (n c : ℕ) (l : List (Stored V))
      → CountsTo n l
      → length (available env c l) ≡ min (length l) (n - c)
  unfolding available
  length-available n c [] h = omega arith
  length-available n c (e ∷ l) h = ground (arith, length-available n c l h.1, h.0)

  available-CountsTo :
      (n c : ℕ) (l : List (Stored V)) → CountsTo n l → CountsTo n (available env c l)
  unfolding available
  available-CountsTo n c [] h = tt
  available-CountsTo n c (e ∷ l) h = elim (Bool-cases (ltb c e.cursor)) [
    | inl p ↦ rw p (ground (arith, length-available n c l h.1, h.0), available-CountsTo n c l h.1)
    | inr p ↦ rw p (available-CountsTo n c l h.1)
  ]

  last_cursor_lem :
      (n : ℕ) (e : Stored V) (l : List (Stored V))
      → CountsTo n (e ∷ l)
      → last_cursor env e.cursor l ≡ n
  unfolding last_cursor
  last_cursor_lem n e [] h = omega (arith, h.0)
  last_cursor_lem n e (x ∷ l) h = last_cursor_lem n x l h.1

  All-available : (c : ℕ) (l : List (Stored V)) → All (λ e. c < e.cursor) (available env c l)
  unfolding available
  All-available c [] = tt
  All-available c (e ∷ l) = elim (Bool-cases (ltb c e.cursor)) [
    | inl p ↦ rw p (ground arith, All-available c l)
    | inr p ↦ rw p (All-available c l)
  ]

  -- What a reader that has seen the events up to `c` gets.
  pub record IsBatch (s : CharacterState V) (c : ℕ) (b : Batch V) : Type 0 where
    pub newer : All (λ e. c < e.cursor) b.events
    pub gapless : CountsTo s.cursor b.events
    pub cursor : b.cursor ≡ s.cursor
    pub complete : b.truncated ≡ false → c + length b.events ≡ s.cursor
    pub lossy : b.truncated ≡ true → c + length b.events < s.cursor

  oldest_cursor_lem :
      (n : ℕ) (l : List (Stored V))
      → CountsTo n l
      → 0 < length l
      → oldest_cursor env l + length l ≡ n + 1
  oldest_cursor_lem n [] h k = omega arith
  oldest_cursor_lem n (e ∷ l) h k = omega (arith, h.0)

  -- The batch that `look` builds of the events after `c`.
  abbrev batch_of : CharacterState V → ℕ → Stored V → List (Stored V) → Batch V
  batch_of s c x l = record {
    character = s.display_name;
    cursor = last_cursor env x.cursor l;
    events = x ∷ l;
    timed_out = false;
    truncated = ltb (c + 1) (oldest_cursor env s.events);
  }

  batch_of-IsBatch :
      (s : CharacterState V) (c : ℕ) (x : Stored V) (l : List (Stored V))
      → IsQueue s
      → available env c s.events ≡ x ∷ l
      → IsBatch s c (batch_of s c x l)
  batch_of-IsBatch s c x l q e =
      let counts : CountsTo s.cursor (x ∷ l) =
        subst (CountsTo s.cursor) e (available-CountsTo s.cursor c s.events q.counted) in
      let size : suc (length l) ≡ min (length s.events) (s.cursor - c) =
        ap length (sym e) ∙ length-available s.cursor c s.events q.counted in
      let oldest : oldest_cursor env s.events + length s.events ≡ s.cursor + 1 =
        oldest_cursor_lem s.cursor s.events q.counted (omega arith) in
      record {
        newer = subst (All (λ d. c < d.cursor)) e (All-available c s.events);
        gapless = counts;
        cursor = last_cursor_lem s.cursor x l counts;
        complete = λ h. ground arith;
        lossy = λ h. ground arith;
      }

  batch-IsBatch :
      (s : CharacterState V) (c : ℕ) (l : List (Stored V)) (b : Batch V)
      → IsQueue s
      → available env c s.events ≡ l
      → batch env s c l ≡ some b
      → IsBatch s c b
  unfolding batch
  batch-IsBatch s c [] b q e h = cc
  batch-IsBatch s c (x ∷ l) b q e h =
      let same : batch_of s c x l ≡ b = cc in
      subst (IsBatch s c) same (batch_of-IsBatch s c x l q e)

  batch-none :
      (s : CharacterState V) (c : ℕ) (l : List (Stored V))
      → 0 < env.event_capacity
      → IsQueue s
      → available env c s.events ≡ l
      → batch env s c l ≡ none
      → s.cursor ≤ c
  unfolding batch
  batch-none s c [] room q e h =
      let size : 0 ≡ min (length s.events) (s.cursor - c) =
        ap length (sym e) ∙ length-available s.cursor c s.events q.counted in
      ground (arith, q.kept)
  batch-none s c (x ∷ l) room q e h = cc

  -- What a reader that has seen the events up to `c` gets from the queue of a character: if nothing,
  -- then there is no newer event. If something, then newer events only, without a gap up to the
  -- newest of all; and `truncated` tells exactly whether events after `c` had already fallen out.
  pub look_exact :
      (s : CharacterState V) (c : ℕ)
      → 0 < env.event_capacity
      → IsQueue s
      → (look env (some s) c ≡ none → s.cursor ≤ c)
        × ((b : Batch V) → look env (some s) c ≡ some b → IsBatch s c b)
  unfolding look
  look_exact s c room q = (
    λ h. batch-none s c (available env c s.events) room q refl h,
    λ b h. batch-IsBatch s c (available env c s.events) b q refl h,
  )
