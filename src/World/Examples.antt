-- ===== src/World/Examples.antt =====
-- The theorems on the world at concrete inputs.
use lich_agent_bridge.Base.{
  ℕ, ◌+◌, ◌*◌, ◌⊎◌, inl, inr, ◌≤◌, String, ◌≡◌, refl, none, some, List, [], ◌∷◌, arith, str_eq,
}
use lich_agent_bridge.Base.Dict.{lookup, insert, member, add}
use lich_agent_bridge.World.Types.{
  Batch, CharacterState, Env, Event, observed, err, ok, Conflict, ticks, World, Snapshot,
  stale_snapshot_generation, stale_event_generation,
}
use lich_agent_bridge.World.Fields.{same_meaning}
use lich_agent_bridge.World.State.{
  admit, admit_entered, admit_unless, append_event, append_if_active, enter_from, snapshot_event,
  keep_snapshot, keep_event, publish_event, publish_event_to, publish_snapshot, publish_snapshot_to,
}
use lich_agent_bridge.World.Watch.{
  available, batch, character_key, look, timed_out, wait, watch, watch_limit,
}
use lich_agent_bridge.World.Waiting.{Answers, OneOf, watch-Answers, watch_ends}
use lich_agent_bridge.Base.Text.{strip, lstrip, rstrip, drop_nul, is_space}
use lich_agent_bridge.World.Queue.{IsQueue, IsBatch, look_exact}
use lich_agent_bridge.World.Timeline.{Advances}
use lich_agent_bridge.World.History.{
  Publication, snapshot, event, publish, publish_all, IsWorld, published-IsWorld,
  publications_advance, retired_is_dead,
}

-- A queue of two events, and values that are texts.
abbrev desk : Env String
desk = record { casefold = λ s. s; event_capacity = 2; same = str_eq }

abbrev seen : String → ℕ → Snapshot String
seen generation sequence = record {
  character = "Aria";
  generation = generation;
  sequence = sequence;
  observed_at = "2026-01-01T00:00:00Z";
  fields = [];
}

abbrev heard : String → Event String
heard generation = record {
  character = "Aria";
  generation = generation;
  observed_at = "2026-01-01T00:00:00Z";
  kind = "speech";
  summary = "hello";
  payload = observed "hello";
}

-- Three events fill the queue beyond its capacity; then a second session replaces the first.
abbrev morning : List (Publication String)
morning =
    snapshot (seen "g1" 1) ∷ event (heard "g1") ∷ event (heard "g1") ∷ snapshot (seen "g2" 1) ∷ []

abbrev evening : List (Publication String)
evening = event (heard "g2") ∷ snapshot (seen "g2" 5) ∷ []

-- The state after the morning.
abbrev settled : CharacterState String
settled = record {
  display_name = "Aria";
  generation = some "g2";
  sequence = some 1;
  snapshot = some (seen "g2" 1);
  retired_generations = "g1" ∷ [];
  cursor = 4;
  events =
      record { cursor = 3; event = heard "g1" }
      ∷ record { cursor = 4; event = snapshot_event desk none (seen "g2" 1) (some "g1") }
      ∷ [];
}

morning-settled : lookup "Aria" (publish_all desk morning []) ≡ some settled
unfolding publish_all publish publish_snapshot publish_snapshot_to publish_event publish_event_to
    append_if_active append_event admit admit_entered admit_unless enter_from keep_snapshot
    keep_event lookup insert member add same_meaning snapshot_event
morning-settled = refl

published-IsWorld_example : IsWorld desk (publish_all desk morning [])
published-IsWorld_example = published-IsWorld desk morning

publications_advance_example :
    (t : CharacterState String) × (lookup "Aria"
        (publish_all desk evening (publish_all desk morning []))
      ≡ some t)
    × Advances desk settled t
publications_advance_example =
    publications_advance desk morning evening "Aria" settled morning-settled

retired_is_dead_example :
    (publish_snapshot desk (seen "g1" 9) (publish_all desk evening (publish_all desk morning []))
      ≡ (err stale_snapshot_generation, publish_all desk evening (publish_all desk morning [])))
    × (publish_event desk (heard "g1") (publish_all desk evening (publish_all desk morning []))
        ≡ (err stale_event_generation, publish_all desk evening (publish_all desk morning [])))
unfolding member
retired_is_dead_example =
    retired_is_dead desk morning evening (seen "g1" 9) (heard "g1") settled morning-settled refl
      refl refl

settled-IsQueue : IsQueue desk settled
settled-IsQueue = record {
  bounded = omega arith;
  counted = (refl, (refl, tt));
  enough = omega arith;
  kept = λ a b. omega arith;
}

-- A reader at the first event has missed the second one.
look_exact_example :
    (look desk (some settled) 1 ≡ none → 4 ≤ 1)
    × ((b : Batch String) → look desk (some settled) 1 ≡ some b → IsBatch desk settled 1 b)
look_exact_example = look_exact desk settled 1 (omega arith) settled-IsQueue

-- A reader who asks for what follows the last event, and whose two seconds pass.
abbrev looks : List (World String × ℕ)
looks = (("Aria", settled) ∷ [], 10) ∷ (("Aria", settled) ∷ [], 12) ∷ []

abbrev silence : Batch String
silence = timed_out desk "Aria" (some settled)

watched : watch desk 1 "Aria" (some 4) (ticks 2) 10 looks ≡ ok (some silence)
unfolding watch watch_limit wait look batch available character_key lookup strip lstrip rstrip
    drop_nul timed_out is_space
watched = refl

watch-Answers_example :
    (key : String) × (n : ℕ) × (t : ℕ) × (character_key desk "Aria" ≡ ok key)
    × (some 4 ≡ some n)
    × (ticks 2 ≡ ticks t)
    × (t ≤ 30 * 1)
    × OneOf (Answers desk "Aria" key n (10 + t) silence) looks
watch-Answers_example = watch-Answers desk 1 "Aria" (some 4) (ticks 2) 10 looks silence watched

watch_ends_example :
    ((b : Batch String) × (watch desk 1 "Aria" (some 4) (ticks 2) 10 looks ≡ ok (some b)))
    ⊎ ((e : Conflict) × (watch desk 1 "Aria" (some 4) (ticks 2) 10 looks ≡ err e))
watch_ends_example = watch_ends desk 1 "Aria" (some 4) 2 10 looks (inr (inl (omega arith)))
