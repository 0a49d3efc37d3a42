-- ===== src/Watchers/Profiles.antt =====
-- The profiles of src/lich_agent_bridge/watchers.py: the checks of `CharacterProfile.__post_init__`,
-- the dict that `WatcherReducer.__init__` builds of them, and the reading methods.
use lich_agent_bridge.Base.{
  ℕ, ◌≤◌, String, Bool, true, ◌&&◌, not, ◌≡◌, Option, none, some, List, [], ◌∷◌, leb, if◌then◌else◌,
  eq_iff, is_some, length, arith, All, Option-cases, inl, inr,
}
use lich_agent_bridge.Base.Dict.{lookup, insert, lookup-insert}
use lich_agent_bridge.Base.Text.{is_blank, strip}
use lich_agent_bridge.Watchers.Types.{Alert, Profile, Session}

-- `value is not None and value < 1` is refused.
abbrev is_level : Option ℕ → Bool
is_level none = true
is_level (some n) = leb 1 n

abbrev is_ordered : Option ℕ → Option ℕ → Bool
is_ordered (some low) (some high) = leb low high
is_ordered _ _ = true

no_blank : List String → Bool
unfolding strip
no_blank [] = true
no_blank (s ∷ rest) = not (is_blank (strip s)) && no_blank rest

-- The profiles that `__post_init__` lets pass.
unfoldable pub is_valid : Profile → Bool
unfolding no_blank strip
is_valid p =
    not (is_blank (strip p.character))
    && is_level p.encumbrance_warning
    && is_level p.encumbrance_emergency
    && leb 1 p.severe_wound_level
    && is_ordered p.encumbrance_warning p.encumbrance_emergency
    && leb (length p.expected_hand_item_names) 256
    && leb (length p.required_defensive_spell_ids) 256
    && no_blank p.expected_hand_item_names
    && no_blank p.required_defensive_spell_ids

module _ (casefold : String → String) where
  -- The loop of `WatcherReducer.__init__` over the profiles; a duplicate raises.
  unfoldable pub select_from :
      List (String × Profile) → List Profile → Option (List (String × Profile))
  select_from selected [] = some selected
  select_from selected (p ∷ rest) =
      let key = casefold p.character in
      let chosen = select_from (insert key p selected) rest in
      if is_some (lookup key selected) then none else chosen

  -- `self._profiles`, if the three limits are positive.
  unfoldable pub select_profiles : ℕ → ℕ → ℕ → List Profile → Option (List (String × Profile))
  unfolding select_from
  select_profiles persistence active_limit history_limit profiles =
      let chosen = select_from [] profiles in
      if leb 1 persistence && leb 1 active_limit && leb 1 history_limit then chosen else none

  -- `supports`
  unfoldable pub supports : List (String × Profile) → String → Bool
  supports selected character = is_some (lookup (casefold character) selected)

  alerts_of : Option Session → List Alert
  alerts_of none = []
  alerts_of (some s) = s.active

  history_of : Option Session → List Alert
  history_of none = []
  history_of (some s) = s.history

  -- `active`
  unfoldable pub active_alerts : String → List (String × Session) → List Alert
  unfolding alerts_of
  active_alerts character states = alerts_of (lookup (casefold character) states)

  -- `history`
  unfoldable pub alert_history : String → List (String × Session) → List Alert
  unfolding history_of
  alert_history character states = history_of (lookup (casefold character) states)

  select_from-keeps :
      (profiles : List Profile) (selected chosen : List (String × Profile)) (k : String)
      (p : Profile)
      → select_from selected profiles ≡ some chosen
      → lookup k selected ≡ some p
      → lookup k chosen ≡ some p
  unfolding select_from
  select_from-keeps [] selected chosen k p h e = cc
  select_from-keeps (q ∷ rest) selected chosen k p h e =
      elim (Option-cases (lookup (casefold q.character) selected)) [
        | inr (r, f) ↦ cc (rw f at h)
        | inl f ↦
            select_from-keeps rest (insert (casefold q.character) q selected) chosen k p (rw f at h)
              (ground (
                arith,
                lookup-insert (casefold q.character) k q selected,
                eq_iff (casefold q.character) k,
              ))
      ]

  select_from-holds :
      (profiles : List Profile) (selected chosen : List (String × Profile))
      → select_from selected profiles ≡ some chosen
      → All (λ p. lookup (casefold p.character) chosen ≡ some p) profiles
  unfolding select_from
  select_from-holds [] selected chosen h = tt
  select_from-holds (q ∷ rest) selected chosen h =
      elim (Option-cases (lookup (casefold q.character) selected)) [
        | inr (r, f) ↦ cc (rw f at h)
        | inl f ↦
            let key = casefold q.character in
            (
              select_from-keeps rest (insert key q selected) chosen key q (rw f at h)
                  (ground (arith, lookup-insert key key q selected, eq_iff key key)),
              select_from-holds rest (insert key q selected) chosen (rw f at h),
            )
      ]

  -- A watcher that could be built has each profile that it was given under the folded name of its
  -- character, so that no profile has replaced another; and its limits are positive.
  pub select_profiles-holds :
      (persistence active_limit history_limit : ℕ) (profiles : List Profile)
      (chosen : List (String × Profile))
      → select_profiles persistence active_limit history_limit profiles ≡ some chosen
      → All (λ p. lookup (casefold p.character) chosen ≡ some p) profiles
        × (1 ≤ persistence)
        × (1 ≤ active_limit)
        × (1 ≤ history_limit)
  unfolding select_profiles
  select_profiles-holds persistence active_limit history_limit profiles chosen h = (
    select_from-holds profiles [] chosen (ground (arith, h)),
    ground (arith, h),
    ground (arith, h),
    ground (arith, h),
  )
