-- ===== src/Actions/Replacement.antt =====
-- The replacement of a character's session.
use lich_agent_bridge.Base.{
  ◌&&◌, not, String, Bool, true, false, ◌≡◌, ◌≢◌, refl, subst, Option, none, some, List, [], ◌∷◌,
  map, arith, if◌then◌else◌, str_eq, eq_iff, All, ◌∙◌, ◌||◌, Bool-cases, inl, inr,
}
use lich_agent_bridge.Base.Dict.{lookup, insert, lookup-insert, member}
use lich_agent_bridge.Actions.Types.{
  Action, Admission, Broker, Env, ok, is_pending, is_launched, cancelled,
}
use lich_agent_bridge.Actions.Exec.{Exec, ◌>>=◌, ◌>>◌, pure, lift}
use lich_agent_bridge.Actions.Fields.{is_stoppable, character_name, generation_name}
use lich_agent_bridge.Actions.Broker.{
  activate, admit_generation, replace_generation, replaced_by, retire, retired_ids,
}
use lich_agent_bridge.Actions.Delivery.{Any, walk-map}
use lich_agent_bridge.Actions.Session.{lifted}
use lich_agent_bridge.Actions.Switch.{All-map}

module _ (env : Env) where
  abbrev retired : String → String → Action → Action
  retired key g x = (retire env key g x).0

  -- An action of the character's earlier sessions that is over or told to stop.
  abbrev pub IsRetired : String → String → Action → Type 0
  IsRetired key g a =
      (str_eq (env.casefold a.character) key && not (str_eq a.generation g)) ≡ true
      → (is_pending a.status ≡ false)
        × ((is_stoppable a && is_launched a.status) ≡ true → a.stop_requested ≡ true)

  -- A pending action of an earlier session, whose id the list holds.
  abbrev pub IsListed : String → String → List String → Action → Type 0
  IsListed key g ids a =
      (str_eq (env.casefold a.character) key && not (str_eq a.generation g) && is_pending a.status)
        ≡ true
      → member a.action_id ids ≡ true

  IsListed-cons :
      (key g j : String) (ids : List String) (l : List Action)
      → All (IsListed key g ids) l
      → All (IsListed key g (j ∷ ids)) l
  unfolding member
  IsListed-cons key g j ids [] h = tt
  IsListed-cons key g j ids (a ∷ l) h =
      (λ p. ground (arith, h.0 p), IsListed-cons key g j ids l h.1)

  listed :
      (key g : String) (t : Bool) (ids : List String) (a : Action) (l : List Action)
      → (str_eq (env.casefold a.character) key
          && not (str_eq a.generation g)
          && is_pending a.status)
        ≡ t
      → All (IsListed key g ids) l
      → All (IsListed key g (if t then a.action_id ∷ ids else ids)) (a ∷ l)
  unfolding member
  listed key g true ids a l e h =
      (λ p. rw ((eq_iff a.action_id a.action_id).1 refl), IsListed-cons key g a.action_id ids l h)
  listed key g false ids a l e h = (λ p. cc, h)

  retired_ids_lem :
      (key g : String) (l : List Action) → All (IsListed key g (retired_ids env key g l)) l
  unfolding retired_ids
  retired_ids_lem key g [] = tt
  retired_ids_lem key g (a ∷ l) = listed key g _ _ a l refl (retired_ids_lem key g l)

  -- The action belongs to an earlier session of the character.
  abbrev pub is_earlier : String → String → Action → Bool
  is_earlier key g a = str_eq (env.casefold a.character) key && not (str_eq a.generation g)

  -- What becomes of an action when the session `g` starts: an earlier one of the character is
  -- cancelled if it is pending, and else told to stop if it can be; any other is left alone.
  pub record IsLeft (key g : String) (x y : Action) : Type 0 where
    pub others : is_earlier key g x ≡ false → y ≡ x
    pub pending :
        is_earlier key g x ≡ true → is_pending x.status ≡ true → y ≡ record x { status = cancelled }
    pub stopped :
        is_earlier key g x ≡ true
        → is_pending x.status ≡ false
        → y ≡ record x {
          stop_requested = (is_stoppable x && is_launched x.status) || x.stop_requested;
        }

  abbrev pub AreLeft : String → String → List Action → List Action → Type 0
  AreLeft key g [] [] = Unit {0}
  AreLeft key g (x ∷ l) (y ∷ m) = IsLeft key g x y × AreLeft key g l m
  AreLeft key g _ _ = ⊥

  -- The id is that of a pending action of an earlier session.
  abbrev pub IsCancelled : String → String → String → Action → Type 0
  IsCancelled key g i a =
      (a.action_id ≡ i) × (is_earlier key g a ≡ true) × (is_pending a.status ≡ true)

  retired-others : (key g : String) (x : Action) → is_earlier key g x ≡ false → retired key g x ≡ x
  retired-others key g x h = ground arith

  retired-pending :
      (key g : String) (x : Action)
      → is_earlier key g x ≡ true
      → is_pending x.status ≡ true
      → retired key g x ≡ record x { status = cancelled }
  retired-pending key g x h p = ground arith

  retired-stopped :
      (key g : String) (x : Action)
      → is_earlier key g x ≡ true
      → is_pending x.status ≡ false
      → retired key g x
        ≡ record x { stop_requested = (is_stoppable x && is_launched x.status) || x.stop_requested }
  retired-stopped key g x h p = ground arith

  retired-AreLeft : (key g : String) (l : List Action) → AreLeft key g l (map (retired key g) l)
  retired-AreLeft key g [] = tt
  retired-AreLeft key g (x ∷ l) = (
    record {
      others = retired-others key g x;
      pending = retired-pending key g x;
      stopped = retired-stopped key g x;
    },
    retired-AreLeft key g l,
  )

  retired_ids-Any :
      (key g i : String) (l : List Action)
      → member i (retired_ids env key g l) ≡ true
      → Any (IsCancelled key g i) l
  unfolding retired_ids member
  retired_ids-Any key g i [] h = cc
  retired_ids-Any key g i (a ∷ l) h = elim (Bool-cases (is_earlier key g a)) [
    | inr e ↦ inr (retired_ids-Any key g i l (rw e at h))
    | inl e ↦ elim (Bool-cases (is_pending a.status)) [
      | inr p ↦ inr (retired_ids-Any key g i l (rw (e, p) at h))
      | inl p ↦ elim (Bool-cases (str_eq a.action_id i)) [
        | inl k ↦ inl ((eq_iff a.action_id i).0 k, e, p)
        | inr k ↦ inr (retired_ids-Any key g i l (rw (e, p, k) at h))
      ]
    ]
  ]

  -- The rest of `admit_generation`, behind the field checks.
  abbrev admit_rest : String → String → Exec Admission
  admit_rest name g b =
      let key = env.casefold name in
      let replaced = replaced_by env g (lookup key b.active_generations) in
      (do
        activate env key g
        ids ← replace_generation env name g replaced
        pure (record {
          character = name;
          generation = g;
          replaced_generation = replaced;
          cancelled_action_ids = ids;
        }))
        b

  admit_parts :
      (character generation : String) (b : Broker)
      → admit_generation env character generation b
        ≡ (do
          name ← lift (character_name character)
          g ← lift (generation_name generation)
          admit_rest name g)
            b
  unfolding admit_generation ◌>>=◌
  admit_parts character generation b = refl

  -- What a successful `admit_generation` leaves.
  pub record IsAdmitted (b : Broker) (admission : Admission) (c : Broker) : Type 0 where
    pub active :
        lookup (env.casefold admission.character) c.active_generations ≡ some admission.generation
    pub replaced :
        (previous : String)
        → admission.replaced_generation ≡ some previous
        → (lookup (env.casefold admission.character) b.active_generations ≡ some previous)
          × (previous ≢ admission.generation)
          × AreLeft (env.casefold admission.character) admission.generation b.actions c.actions
          × All (IsRetired (env.casefold admission.character) admission.generation) c.actions
          × All
              (IsListed
                (env.casefold admission.character)
                admission.generation
                admission.cancelled_action_ids)
              b.actions
          × ((i : String)
              → member i admission.cancelled_action_ids ≡ true
              → Any
                  (IsCancelled (env.casefold admission.character) admission.generation i)
                  b.actions)
    pub kept :
        admission.replaced_generation ≡ none
        → (c.actions ≡ b.actions) × (admission.cancelled_action_ids ≡ [])

  retired-IsRetired : (key g : String) (x : Action) → IsRetired key g (retired key g x)
  retired-IsRetired key g x own = (ground arith, λ h. ground arith)

  -- `admit_rest` for a given previous generation.
  abbrev rest_with : String → String → Option String → Exec Admission
  rest_with name g o b =
      (do
        activate env (env.casefold name) g
        ids ← replace_generation env name g (replaced_by env g o)
        pure (record {
          character = name;
          generation = g;
          replaced_generation = replaced_by env g o;
          cancelled_action_ids = ids;
        }))
        b

  active_after :
      (key g : String) (m : List (String × String)) → lookup key (insert key g m) ≡ some g
  active_after key g m = rw lookup-insert (rw ((eq_iff key key).1 refl))

  replaced_by-some :
      (g : String) (o : Option String) (previous : String)
      → replaced_by env g o ≡ some previous
      → (o ≡ some previous) × (previous ≢ g)
  replaced_by-some g none previous h = cc
  replaced_by-some g (some q) previous h =
      (ground (arith, eq_iff q g), λ e. ground (arith, eq_iff q g))

  -- What `admit_generation` returns.
  abbrev admission_of : String → String → Option String → List String → Admission
  admission_of name g replaced ids = record {
    character = name;
    generation = g;
    replaced_generation = replaced;
    cancelled_action_ids = ids;
  }

  unreplaced_IsAdmitted :
      (name g : String) (b : Broker)
      → IsAdmitted b (admission_of name g none []) (activate env (env.casefold name) g b).1
  unreplaced_IsAdmitted name g b = record {
    active = active_after (env.casefold name) g b.active_generations;
    replaced = λ previous e. cc;
    kept = λ e. (refl, refl);
  }

  replaced_IsAdmitted :
      (name g previous : String) (b c : Broker)
      → lookup (env.casefold name) b.active_generations ≡ some previous
      → previous ≢ g
      → lookup (env.casefold name) c.active_generations ≡ some g
      → c.actions ≡ map (retired (env.casefold name) g) b.actions
      → IsAdmitted b
          (admission_of name g (some previous) (retired_ids env (env.casefold name) g b.actions))
          c
  replaced_IsAdmitted name g previous b c before differs after actions = record {
    active = after;
    replaced = λ q e. (
      before ∙ e,
      λ same. differs (cc (same, e)),
      rw actions (retired-AreLeft (env.casefold name) g b.actions),
      rw actions (
          All-map (IsRetired (env.casefold name) g) (retired (env.casefold name) g) b.actions
            (retired-IsRetired (env.casefold name) g)),
      retired_ids_lem (env.casefold name) g b.actions,
      λ i m. retired_ids-Any (env.casefold name) g i b.actions m,
    );
    kept = λ e. cc;
  }

  as_admission : {b c : Broker} {x y : Admission} → x ≡ y → IsAdmitted b x c → IsAdmitted b y c
  as_admission {b} {c} e h = subst (λ a. IsAdmitted b a c) e h

  rest_with-IsAdmitted :
      (name g : String) (o r : Option String) (b : Broker) (admission : Admission)
      → lookup (env.casefold name) b.active_generations ≡ o
      → replaced_by env g o ≡ r
      → (rest_with name g o b).0 ≡ ok admission
      → IsAdmitted b admission (rest_with name g o b).1
  unfolding ◌>>=◌ replace_generation
  rest_with-IsAdmitted name g o none b admission e f h =
      let same : admission_of name g none [] ≡ admission = cc (rw f at h) in
      rw f (as_admission same (unreplaced_IsAdmitted name g b))
  rest_with-IsAdmitted name g o (some previous) b admission e f h =
      let key = env.casefold name in
      let same : admission_of name g (some previous) (retired_ids env key g b.actions) ≡ admission =
        cc (rw f at h) in
      let (was, differs) = replaced_by-some g o previous f in
      rw f (
        as_admission same (
          replaced_IsAdmitted name g previous b _ (e ∙ was) differs
            (active_after key g b.active_generations)
            (walk-map (retire env key g) b.actions (λ x. refl))))

  pub admit_generation-IsAdmitted :
      (character generation : String) (b : Broker) (admission : Admission)
      → (admit_generation env character generation b).0 ≡ ok admission
      → IsAdmitted b admission (admit_generation env character generation b).1
  admit_generation-IsAdmitted character generation b admission h =
      rw (admit_parts character generation b) (
        lifted env (character_name character)
          (λ name. do g ← lift (generation_name generation); admit_rest name g) b admission
          (λ out. IsAdmitted b admission out.1)
          (λ name _.
            lifted env (generation_name generation) (λ g. admit_rest name g) b admission
              (λ out. IsAdmitted b admission out.1)
              (λ g _. rest_with-IsAdmitted name g _ _ b admission refl refl))
          (rw admit_parts at h))
