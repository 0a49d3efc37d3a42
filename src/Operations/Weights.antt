-- ===== src/Operations/Weights.antt =====
-- Sums over the operations, under each change of the dict.
use lich_agent_bridge.Base.{
  ℕ, ◌+◌, ◌≤◌, String, false, ◌≡◌, refl, none, some, List, [], ◌∷◌, ◌++◌, arith, if◌then◌else◌,
  str_eq, eq_iff, length, Bool-cases, inl, inr,
}
use lich_agent_bridge.Operations.Types.{Operation, is_terminal}
use lich_agent_bridge.Operations.Registry.{find, first_ended, remove, store}

unfoldable pub total : (Operation → ℕ) → List Operation → ℕ
total w [] = 0
total w (o ∷ rest) = w o + total w rest

module _ (w : Operation → ℕ) where
  pub total-append : (l m : List Operation) → total w (l ++ m) ≡ total w l + total w m
  unfolding total
  total-append [] m = omega arith
  total-append (o ∷ l) m = omega (arith, total-append l m)

  pub total-one : (o : Operation) → total w (o ∷ []) ≡ w o
  unfolding total
  total-one o = omega arith

  pub total-store :
      (p o : Operation) (l : List Operation)
      → find p.operation_id l ≡ some o
      → total w (store p l) + w o ≡ total w l + w p
  unfolding total find store
  total-store p o [] h = cc
  total-store p o (x ∷ l) h = ground (arith, total-store p o l)

  pub total-remove : (i : String) (l : List Operation) → total w (remove i l) ≤ total w l
  unfolding total remove
  total-remove i [] = omega arith
  total-remove i (o ∷ l) = ground (arith, total-remove i l)

pub length-store : (p : Operation) (l : List Operation) → length (store p l) ≡ length l
unfolding store
length-store p [] = refl
length-store p (x ∷ l) = ground (arith, length-store p l)

pub length-remove :
    (i : String) (o : Operation) (l : List Operation)
    → find i l ≡ some o
    → length (remove i l) + 1 ≡ length l
unfolding remove find
length-remove i o [] h = cc
length-remove i o (x ∷ l) h = ground (arith, length-remove i o l)

pub find-store :
    (j : String) (p o : Operation) (l : List Operation)
    → find p.operation_id l ≡ some o
    → find j (store p l) ≡ (if str_eq p.operation_id j then some p else find j l)
unfolding find store
find-store j p o [] h = cc
find-store j p o (x ∷ l) h = ground (
  arith,
  find-store j p o l,
  eq_iff p.operation_id j,
  eq_iff x.operation_id p.operation_id,
  eq_iff x.operation_id j,
)

pub find-append :
    (j : String) (l : List Operation) (o : Operation)
    → find j l ≡ none
    → find j (l ++ o ∷ []) ≡ (if str_eq o.operation_id j then some o else none)
unfolding find
find-append j [] o h = ground arith
find-append j (x ∷ l) o h = ground (arith, find-append j l o)

pub find-append_there :
    (j : String) (l : List Operation) (o p : Operation)
    → find j l ≡ some p
    → find j (l ++ o ∷ []) ≡ some p
unfolding find
find-append_there j [] o p h = cc
find-append_there j (x ∷ l) o p h = ground (arith, find-append_there j l o p)

pub find-id :
    (i : String) (o : Operation) (l : List Operation) → find i l ≡ some o → o.operation_id ≡ i
unfolding find
find-id i o [] h = cc
find-id i o (x ∷ l) h = ground (arith, find-id i o l, eq_iff x.operation_id i)

pub find-remove :
    (i j : String) (l : List Operation) → str_eq i j ≡ false → find j (remove i l) ≡ find j l
unfolding find remove
find-remove i j [] h = refl
find-remove i j (x ∷ l) h =
    ground (arith, find-remove i j l, eq_iff x.operation_id i, eq_iff x.operation_id j, eq_iff i j)

-- The first one that has ended is there under its id, and has ended: ids are unique.
pub first_ended-find :
    (i : String) (l : List Operation)
    → first_ended l ≡ some i
    → (o : Operation) × (find i l ≡ some o)
unfolding first_ended find
first_ended-find i [] h = cc
first_ended-find i (x ∷ l) h = elim (Bool-cases (is_terminal x.status)) [
  | inl e ↦ (x, ground (arith, eq_iff x.operation_id i))
  | inr e ↦ elim (Bool-cases (str_eq x.operation_id i)) [
    | inl f ↦ (x, rw f refl)
    | inr f ↦ let (o, g) = first_ended-find i l (ground arith) in (o, rw f g)
  ]
]
