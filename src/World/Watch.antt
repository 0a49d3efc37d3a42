-- ===== src/World/Watch.antt =====
-- `watch` of `WorldState`.
use lich_agent_bridge.Base.{
  ℕ, ◌+◌, String, true, false, Option, none, some, List, [], ◌∷◌, ◌*◌, leb, ltb, if◌then◌else◌,
}
use lich_agent_bridge.Base.Dict.{lookup}
use lich_agent_bridge.Base.Text.{drop_nul, is_blank, len, strip}
use lich_agent_bridge.World.Types.{
  Batch, CharacterState, Env, blank_character, long_character, Result, ok, err, Stored, World,
  Timeout, bad_type, outside, ticks, bad_cursor, bad_timeout, timeout_range,
}

module _ {V : Type 0} (env : Env V) where
  open env use {casefold}

  -- `[item for item in state.events if item.cursor > cursor]`
  unfoldable pub available : ℕ → List (Stored V) → List (Stored V)
  available cursor [] = []
  available cursor (e ∷ rest) =
      let later = available cursor rest in if ltb cursor e.cursor then e ∷ later else later

  unfoldable pub last_cursor : ℕ → List (Stored V) → ℕ
  last_cursor d [] = d
  last_cursor d (e ∷ rest) = last_cursor e.cursor rest

  abbrev pub oldest_cursor : List (Stored V) → ℕ
  oldest_cursor [] = 0
  oldest_cursor (e ∷ rest) = e.cursor

  -- `available[-1].cursor` is that of the last one. `cursor < oldest_cursor - 1` is an integer
  -- comparison.
  unfoldable pub batch : CharacterState V → ℕ → List (Stored V) → Option (Batch V)
  unfolding last_cursor
  batch s cursor [] = none
  batch s cursor (e ∷ rest) = some (record {
    character = s.display_name;
    cursor = last_cursor e.cursor rest;
    events = e ∷ rest;
    timed_out = false;
    truncated = ltb (cursor + 1) (oldest_cursor s.events);
  })

  -- One look of `watch` at the state, under the condition: the events after the cursor, or none.
  unfoldable pub look : Option (CharacterState V) → ℕ → Option (Batch V)
  unfolding batch
  look none cursor = none
  look (some s) cursor = batch s cursor (available cursor s.events)

  -- What `watch` returns when its time is over.
  unfoldable pub timed_out : String → Option (CharacterState V) → Batch V
  timed_out character none = record {
    character = character;
    cursor = 0;
    events = [];
    timed_out = true;
    truncated = false;
  }
  timed_out character (some s) = record {
    character = s.display_name;
    cursor = s.cursor;
    events = [];
    timed_out = true;
    truncated = false;
  }

  -- `_character_key`
  unfoldable pub character_key : String → Result String
  unfolding strip drop_nul
  character_key value =
      let normalized = strip (drop_nul value) in
      if is_blank normalized
      then err blank_character
      else if ltb 40 (len normalized)
      then err long_character
      else ok (casefold normalized)

  -- The loop of `watch`, up to a deadline of the monotonic clock: at each wake-up the world as the
  -- other threads have left it, and the clock behind the look at it. With no wake-up left it is still
  -- waiting.
  unfoldable pub wait : String → String → ℕ → ℕ → List (World V × ℕ) → Option (Batch V)
  wait character key cursor deadline [] = none
  wait character key cursor deadline ((w, clock) ∷ rest) =
      let again = wait character key cursor deadline rest in
      elim (look (lookup key w) cursor) [
        | some b ↦ some b
        | none ↦ if leb deadline clock then some (timed_out character (lookup key w)) else again
      ]

  -- The checks of `timeout`; `second` is a second in ticks.
  unfoldable pub watch_limit : ℕ → Timeout → Result ℕ
  watch_limit second bad_type = err bad_timeout
  watch_limit second outside = err timeout_range
  watch_limit second (ticks t) = if leb t (30 * second) then ok t else err timeout_range

  -- The check of `cursor`: `none` is what is not an integer, or negative.
  abbrev pub cursor_given : Option ℕ → Result ℕ
  cursor_given none = err bad_cursor
  cursor_given (some n) = ok n

  -- `watch`, called when the monotonic clock reads `started`.
  unfoldable pub watch :
      ℕ → String → Option ℕ → Timeout → ℕ → List (World V × ℕ) → Result (Option (Batch V))
  watch second character cursor timeout started wakes = elim (character_key character) [
    | err e ↦ err e
    | ok key ↦ elim (cursor_given cursor) [
      | err e ↦ err e
      | ok n ↦ elim (watch_limit second timeout) [
        | err e ↦ err e
        | ok t ↦ ok (wait character key n (started + t) wakes)
      ]
    ]
  ]
