-- ===== src/Operations/Direct/Accepted.antt =====
-- What an accepted direct command satisfies: `normalize_full_access_command`.
use Prim.Native.Char.{code}
use Prim.Native.String.{String, [], ◌∷◌}
use lich_agent_bridge.Base.{
  ℕ, ◌≤◌, Bool, true, false, ◌≡◌, refl, arith, ◌==◌, ltb, length, Bool-cases, inl, inr, subst,
}
use lich_agent_bridge.Base.Text.{codes, is_blank, strip}
use lich_agent_bridge.Operations.Direct.{
  accepted, by_first, checked, first_word, has_code, has_forbidden, is_eval, lich_command,
  normalize_full_access_command,
}

-- The text after its first character.
abbrev pub tail : String → String
tail [] = []
tail (c ∷ s) = s

abbrev pub starts_with : ℕ → String → Bool
starts_with n [] = false
starts_with n (c ∷ s) = code c == n

-- What follows the semicolon of a Lich command: it is not blank, and runs no Ruby.
pub record IsLich (casefold : String → String) (rest : String) : Type 0 where
  pub nonblank : is_blank (strip rest) ≡ false
  pub no_ruby : is_eval (casefold (first_word (strip rest))) ≡ false

-- A command that is one line for the game, or one Lich command that runs no Ruby.
pub record IsDirect (casefold : String → String) (s : String) : Type 0 where
  pub nonblank : is_blank s ≡ false
  pub short : length (codes s) ≤ 140
  pub no_control : has_forbidden s ≡ false
  pub no_client : starts_with b',' s ≡ false
  pub one_command : has_code b';' (tail s) ≡ false
  pub lich : starts_with b';' s ≡ true → IsLich casefold (tail s)

module _ (casefold : String → String) where
  -- What the tests after the first two leave of the record.
  record Rest (t s : String) : Type 0 where
    same : t ≡ s
    nonblank : is_blank t ≡ false
    no_client : starts_with b',' t ≡ false
    one_command : has_code b';' (tail t) ≡ false
    lich : starts_with b';' t ≡ true → IsLich casefold (tail t)

  by_first-Rest : (t s : String) → by_first casefold t ≡ accepted s → Rest t s
  unfolding by_first lich_command
  by_first-Rest [] s h = cc
  by_first-Rest (c ∷ t) s h = elim (Bool-cases (code c == b',')) [
    | inl a ↦ cc (rw a at h)
    | inr a ↦ elim (Bool-cases (has_code b';' t)) [
      | inl b ↦ elim (Bool-cases (code c == b';')) [
        | inl e ↦ cc (rw (a, e, b) at h)
        | inr e ↦ cc (rw (a, e, b) at h)
      ]
      | inr b ↦ elim (Bool-cases (code c == b';')) [
        | inr e ↦
            let same : accepted (c ∷ t) ≡ accepted s = cc (rw (a, e, b) at h) in
            record { same = cc; nonblank = refl; no_client = a; one_command = b; lich = λ f. cc }
        | inl e ↦ elim (Bool-cases (is_blank (strip t))) [
          | inl d ↦ cc (rw (a, e, b, d) at h)
          | inr d ↦ elim (Bool-cases (is_eval (casefold (first_word (strip t))))) [
            | inl f ↦ cc (rw (a, e, b, d, f) at h)
            | inr f ↦
                let same : accepted (c ∷ t) ≡ accepted s = cc (rw (a, e, b, d, f) at h) in
                record {
                  same = cc;
                  nonblank = refl;
                  no_client = a;
                  one_command = b;
                  lich = λ g. record { nonblank = d; no_ruby = f };
                }
          ]
        ]
      ]
    ]
  ]

  by_first-accepts : (t : String) → IsDirect casefold t → by_first casefold t ≡ accepted t
  unfolding by_first lich_command
  by_first-accepts [] h = cc (h.nonblank)
  by_first-accepts (c ∷ t) h = elim (Bool-cases (code c == b';')) [
    | inr e ↦ rw (h.no_client, e, h.one_command) refl
    | inl e ↦ let l = h.lich e in rw (h.no_client, e, h.one_command, l.nonblank, l.no_ruby) refl
  ]

  checked-IsDirect :
      (t s : String) → checked casefold t ≡ accepted s → (t ≡ s) × IsDirect casefold s
  checked-IsDirect t s h = elim (Bool-cases (ltb 140 (length (codes t)))) [
    | inl a ↦ cc (rw a at h)
    | inr a ↦ elim (Bool-cases (has_forbidden t)) [
      | inl b ↦ cc (rw (a, b) at h)
      | inr b ↦
          let r = by_first-Rest t s (rw (a, b) at h) in
          (
            r.same,
            subst (IsDirect casefold) r.same (record {
              nonblank = r.nonblank;
              short = ground (arith, a);
              no_control = b;
              no_client = r.no_client;
              one_command = r.one_command;
              lich = r.lich;
            }),
          )
    ]
  ]

  pub accepted-IsDirect :
      (c s : String)
      → (normalize_full_access_command casefold c ≡ accepted s
          → (strip c ≡ s) × IsDirect casefold s)
        × (IsDirect casefold (strip c)
            → normalize_full_access_command casefold c ≡ accepted (strip c))
  unfolding normalize_full_access_command
  accepted-IsDirect c s = (λ h. checked-IsDirect (strip c) s h, λ h. accepts (strip c) h)
    where
      accepts : (t : String) → IsDirect casefold t → checked casefold t ≡ accepted t
      accepts t h =
          let short : ltb 140 (length (codes t)) ≡ false = ground (arith, h.short) in
          rw (short, h.no_control) (by_first-accepts t h)
