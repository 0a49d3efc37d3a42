-- ===== src/Actions/Sequences.antt =====
-- `_evaluate_proposal`: what an accepted sequence of commands is.
use lich_agent_bridge.Base.{
  ◌≤◌, ◌&&◌, not, String, Bool, true, false, ◌≡◌, refl, subst, suc, none, List, [], ◌∷◌, arith,
  if◌then◌else◌, eq_iff, ap, ◌∙◌, sym, length, leb, ◌⊎◌, inl, inr, str_eq, Bool-cases,
}
use lich_agent_bridge.Actions.Types.{
  Env, Result, ok, err, bad_command_count, Decision, control_batched, kind_batched,
}
use lich_agent_bridge.Actions.Fields.{text}
use lich_agent_bridge.Actions.Submit.{
  Evaluation, cons_result, whole_sequence, evaluate_proposal, evaluate_step, evaluate_steps,
  is_batch_kind, total_length,
}
use lich_agent_bridge.Actions.Session.{checked}

module _ (env : Env) where
  open env use {evaluate, is_controller_control}

  -- What a proposed command of a sequence became: the command of a policy decision for it, of a
  -- utility kind and no controller control.
  pub record IsUtility (command c : String) : Type 0 where
    pub checked : String
    pub decision : Decision
    pub bounded : text 160 command ≡ ok checked
    pub decided : evaluate checked ≡ ok decision
    pub same : decision.command ≡ c
    pub kind :
        (decision.kind ≡ "inspection")
        ⊎ ((decision.kind ≡ "inventory") ⊎ (decision.kind ≡ "crafting"))
    pub single : is_controller_control c ≡ false

  batch_kind :
      (k : String)
      → is_batch_kind k ≡ true
      → (k ≡ "inspection") ⊎ ((k ≡ "inventory") ⊎ (k ≡ "crafting"))
  batch_kind k h = elim (Bool-cases (str_eq k "inspection")) [
    | inl e ↦ inl ((eq_iff k "inspection").0 e)
    | inr e ↦ elim (Bool-cases (str_eq k "inventory")) [
      | inl f ↦ inr (inl ((eq_iff k "inventory").0 f))
      | inr f ↦ inr (inr ((eq_iff k "crafting").0 (ground arith)))
    ]
  ]

  decided-IsUtility :
      (command read c : String) (decision : Decision)
      → text 160 command ≡ ok read
      → evaluate read ≡ ok decision
      → (if is_controller_control decision.command
          then err control_batched
          else if not (is_batch_kind decision.kind)
          then err kind_batched
          else ok decision.command)
        ≡ ok c
      → IsUtility command c
  decided-IsUtility command read c decision h k r =
      elim (Bool-cases (is_controller_control decision.command)) [
        | inl e ↦ cc (rw e at r)
        | inr e ↦ elim (Bool-cases (is_batch_kind decision.kind)) [
          | inr f ↦ cc (rw (e, f) at r)
          | inl f ↦
              let same : ok decision.command ≡ ok c = cc (rw (e, f) at r) in
              let equal : decision.command ≡ c = cc in
              record {
                checked = read;
                decision = decision;
                bounded = h;
                decided = k;
                same = equal;
                kind = batch_kind decision.kind f;
                single = ap is_controller_control (sym equal) ∙ e;
              }
        ]
      ]

  evaluate_step-IsUtility :
      (command c : String) → evaluate_step env command ≡ ok c → IsUtility command c
  unfolding evaluate_step
  evaluate_step-IsUtility command c h = bounded (text 160 command) refl h
    where
      evaluated :
          (read : String) (r : Result Decision)
          → text 160 command ≡ ok read
          → evaluate read ≡ r
          → (elim r [
            | err e ↦ err e
            | ok decision ↦
                if is_controller_control decision.command
                then err control_batched
                else if not (is_batch_kind decision.kind)
                then err kind_batched
                else ok decision.command
          ])
            ≡ ok c
          → IsUtility command c
      evaluated read (err e) k l r = cc
      evaluated read (ok d) k l r = decided-IsUtility command read c d k l r

      bounded :
          (r : Result String)
          → text 160 command ≡ r
          → (elim r [
            | err e ↦ err e
            | ok checked ↦ elim (evaluate checked) [
              | err e ↦ err e
              | ok decision ↦
                  if is_controller_control decision.command
                  then err control_batched
                  else if not (is_batch_kind decision.kind)
                  then err kind_batched
                  else ok decision.command
            ]
          ])
            ≡ ok c
          → IsUtility command c
      bounded (err e) k r = cc
      bounded (ok read) k r = evaluated read (evaluate read) k refl r

  cons_result-ok :
      (r : Result String) (s : Result (List String)) (cs : List String)
      → cons_result env r s ≡ ok cs
      → (c : String) × (t : List String) × (r ≡ ok c) × (s ≡ ok t) × (c ∷ t ≡ cs)
  cons_result-ok (err e) s cs h = cc
  cons_result-ok (ok c) (err e) cs h = cc
  cons_result-ok (ok c) (ok t) cs h = (c, t, refl, refl, cc)

  -- A sequence's commands, in the order of the proposed ones: each is a utility command.
  abbrev pub AreBatched : List String → List String → Type 0
  AreBatched [] [] = Unit {0}
  AreBatched (x ∷ xs) (c ∷ cs) = IsUtility x c × AreBatched xs cs
  AreBatched _ _ = ⊥

  AreBatched-length :
      (commands cs : List String) → AreBatched commands cs → length cs ≡ length commands
  AreBatched-length [] [] h = refl
  AreBatched-length (x ∷ xs) (c ∷ cs) h = ap suc (AreBatched-length xs cs h.1)
  AreBatched-length [] (c ∷ cs) h = absurd h
  AreBatched-length (x ∷ xs) [] h = absurd h

  evaluate_steps-ok :
      (commands cs : List String) → evaluate_steps env commands ≡ ok cs → AreBatched commands cs
  unfolding evaluate_steps
  evaluate_steps-ok [] cs h = let e : [] ≡ cs = cc in subst (AreBatched []) e tt
  evaluate_steps-ok (x ∷ xs) cs h =
      let (c, t, single, rest, e) =
        cons_result-ok (evaluate_step env x) (evaluate_steps env xs) cs h in
      subst (AreBatched (x ∷ xs)) e
        (evaluate_step-IsUtility x c single, evaluate_steps-ok xs t rest)

  whole_sequence-ok :
      (r : Result (List String)) (e : Evaluation)
      → whole_sequence env r ≡ ok e
      → (r ≡ ok e.commands)
        × (total_length env e.commands ≤ 1200)
        × (e.confirmation_required ≡ true)
  whole_sequence-ok (err x) e h = cc
  whole_sequence-ok (ok cs) e h = ground arith

  -- An accepted sequence has between 2 and 12 commands, of at most 1200 characters together, and
  -- always needs a confirmation. Each command is, in the order proposed, the command of the policy's
  -- decision for the proposed one, of kind inspection, inventory or crafting, and no controller
  -- control.
  pub sequence_confirmed :
      (commands : List String) (e : Evaluation)
      → evaluate_proposal env none commands ≡ ok e
      → (e.confirmation_required ≡ true)
        × (2 ≤ length e.commands)
        × (length e.commands ≤ 12)
        × (total_length env e.commands ≤ 1200)
        × (length e.commands ≡ length commands)
        × AreBatched commands e.commands
  unfolding evaluate_proposal
  sequence_confirmed [] e h = cc
  sequence_confirmed (c ∷ cs) e h =
      let (sized, made) = sized_sequence (leb 2 (length (c ∷ cs)) && leb (length (c ∷ cs)) 12) h in
      let (steps, short, confirmed) = whole_sequence-ok (evaluate_steps env (c ∷ cs)) e made in
      let batched = evaluate_steps-ok (c ∷ cs) e.commands steps in
      let count = AreBatched-length (c ∷ cs) e.commands batched in
      (confirmed, ground (arith, count), ground (arith, count), short, count, batched)
    where
      sized_sequence :
          (t : Bool)
          → (if t then whole_sequence env (evaluate_steps env (c ∷ cs)) else err bad_command_count)
            ≡ ok e
          → (t ≡ true) × (whole_sequence env (evaluate_steps env (c ∷ cs)) ≡ ok e)
      sized_sequence true h = (refl, h)
      sized_sequence false h = cc
