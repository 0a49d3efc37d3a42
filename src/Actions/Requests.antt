-- ===== src/Actions/Requests.antt =====
-- What a proposal that `ActionProposal.from_mapping` accepts satisfies.
use lich_agent_bridge.Base.{
  ℕ, suc, ◌≤◌, String, Bool, true, false, ◌&&◌, ◌≡◌, refl, Option, none, some, List, [], ◌∷◌, leb,
  is_some, length, arith, ap, ◌∙◌, sym, inl, inr, Bool-cases, subst,
}
use lich_agent_bridge.Base.Dict.{lookup}
use lich_agent_bridge.Actions.Types.{Proposal}
use lich_agent_bridge.Actions.Parsing.{
  ◌>>=◌, Json, Malformed, Object, Parsed, parsed, refused, array, boolean, integer, below_zero,
  string, null, other, commands_of, demand, order_of, parse_proposal, sequence_of, ttl_of,
}

-- What a chain that gives a result has gone through.
bind-parsed :
    {A B : Type 0} (m : Parsed A) (f : A → Parsed B) (b : B)
    → m >>= f ≡ parsed b
    → (a : A) × (m ≡ parsed a) × (f a ≡ parsed b)
unfolding ◌>>=◌
bind-parsed (parsed a) f b h = (a, refl, h)
bind-parsed (refused e) f b h = cc

demand_lem : (b : Bool) (e : Malformed) (t : Unit {0}) → demand b e ≡ parsed t → b ≡ true
demand_lem true e t h = refl
demand_lem false e t h = cc

module _ (casefold : String → String) (show : Json → String) where
  ttl_of_lem : (o : Option Json) (n : ℕ) → ttl_of casefold show o ≡ parsed n → (1 ≤ n) × (n ≤ 120)
  unfolding ttl_of
  ttl_of_lem none n h = let same : 45 ≡ n = cc in (omega (arith, same), omega (arith, same))
  ttl_of_lem (some (integer m)) n h = elim (Bool-cases (leb 1 m && leb m 120)) [
    | inl p ↦
        let same : m ≡ n = cc (rw p at h) in (ground (arith, same, p), ground (arith, same, p))
    | inr p ↦ cc (rw p at h)
  ]
  ttl_of_lem (some null) n h = cc
  ttl_of_lem (some other) n h = cc
  ttl_of_lem (some (boolean b)) n h = cc
  ttl_of_lem (some (below_zero m)) n h = cc
  ttl_of_lem (some (string s)) n h = cc
  ttl_of_lem (some (array l)) n h = cc

  commands_of_lem :
      (l : List (Option String)) (cs : List String)
      → commands_of casefold show l ≡ parsed cs
      → length cs ≡ length l
  unfolding commands_of
  commands_of_lem [] cs h = let same : [] ≡ cs = cc in ap length (sym same)
  commands_of_lem (none ∷ l) cs h = cc
  commands_of_lem (some s ∷ l) cs h =
      let (c, p, q) = bind-parsed _ _ cs h in
      let (ds, r, t) = bind-parsed _ _ cs q in
      let same : c ∷ ds ≡ cs = cc in ap length (sym same) ∙ ap suc (commands_of_lem l ds r)

  sequence_of_lem :
      (o : Option Json) (cs : List String)
      → sequence_of casefold show o ≡ parsed cs
      → (2 ≤ length cs) × (length cs ≤ 12)
  unfolding sequence_of
  sequence_of_lem none cs h = cc
  sequence_of_lem (some (array l)) cs h =
      let (t, p, q) = bind-parsed _ _ cs h in
      let (ds, r, u) = bind-parsed _ _ cs q in
      let (t', v, w) = bind-parsed _ _ cs u in
      let same : ds ≡ cs = cc in
      let fits = demand_lem _ _ _ p in
      let size : length cs ≡ length l = ap length (sym same) ∙ commands_of_lem l ds r in
      (ground (arith, fits, size), ground (arith, fits, size))
  sequence_of_lem (some null) cs h = cc
  sequence_of_lem (some other) cs h = cc
  sequence_of_lem (some (boolean b)) cs h = cc
  sequence_of_lem (some (integer m)) cs h = cc
  sequence_of_lem (some (below_zero m)) cs h = cc
  sequence_of_lem (some (string s)) cs h = cc

  -- One command, or a sequence of two to twelve.
  abbrev pub IsOrder : Option String → List String → Type 0
  IsOrder (some c) commands = commands ≡ []
  IsOrder none commands = (2 ≤ length commands) × (length commands ≤ 12)

  order_of-IsOrder :
      (value : Object) (o : Option String × List String)
      → order_of casefold show value ≡ parsed o
      → IsOrder o.0 o.1
  unfolding order_of
  order_of-IsOrder value o h = elim (Bool-cases (is_some (lookup "command" value))) [
    | inl p ↦ elim (Bool-cases (is_some (lookup "commands" value))) [
      | inl q ↦ cc (rw (p, q) at h)
      | inr q ↦
          let (c, r, s) = bind-parsed _ _ o (rw (p, q) at h) in
          let same : (some c, []) ≡ o = cc in subst (λ o. IsOrder o.0 o.1) same refl
    ]
    | inr p ↦ elim (Bool-cases (is_some (lookup "commands" value))) [
      | inr q ↦ cc (rw (p, q) at h)
      | inl q ↦
          let (cs, r, s) = bind-parsed _ _ o (rw (p, q) at h) in
          let same : (none, cs) ≡ o = cc in
          subst (λ o. IsOrder o.0 o.1) same (sequence_of_lem (lookup "commands" value) cs r)
    ]
  ]

  -- A proposal that was accepted asks for one command or for a sequence of two to twelve, never for
  -- both, and to live from 1 to 120 seconds; and it sets no deadline, which only the service may.
  pub parse_proposal-IsOrder :
      (value : Object) (p : Proposal)
      → parse_proposal casefold show value ≡ parsed p
      → IsOrder p.command p.commands
        × (1 ≤ p.ttl_seconds)
        × (p.ttl_seconds ≤ 120)
        × (p.deadline ≡ none)
        × (p.controller_deadline ≡ none)
  unfolding parse_proposal
  parse_proposal-IsOrder value p h =
      let (t, h1, k1) = bind-parsed _ _ p h in
      let (order, h2, k2) = bind-parsed _ _ p k1 in
      let (ttl, h3, k3) = bind-parsed _ _ p k2 in
      let (character, h4, k4) = bind-parsed _ _ p k3 in
      let (room, h5, k5) = bind-parsed _ _ p k4 in
      let (generation, h6, k6) = bind-parsed _ _ p k5 in
      let made : Proposal = record {
        character = character;
        command = order.0;
        commands = order.1;
        expected_room_id = room;
        expected_generation = generation;
        ttl_seconds = ttl;
        deadline = none;
        controller_deadline = none;
      } in
      let same : made ≡ p = cc in
      let (low, high) = ttl_of_lem (lookup "ttl_seconds" value) ttl h3 in
      subst
        (λ p.
          IsOrder p.command p.commands
          × (1 ≤ p.ttl_seconds)
          × (p.ttl_seconds ≤ 120)
          × (p.deadline ≡ none)
          × (p.controller_deadline ≡ none))
        same (order_of-IsOrder value order h2, low, high, refl, refl)
