-- ===== src/Operations/Logs.antt =====
-- Facts on all operations of the dict, and the cursors of their events.
use lich_agent_bridge.Base.{
  ℕ, ◌≤◌, ◌<◌, String, ◌≡◌, refl, none, some, List, [], ◌∷◌, ◌++◌, arith, if◌then◌else◌, str_eq,
  Bool-cases, inl, inr, All, subst,
}
use lich_agent_bridge.Operations.Types.{Event, Operation}
use lich_agent_bridge.Operations.Registry.{find, remove, store}
use lich_agent_bridge.Operations.Weights.{total}

-- One, if the operation has the id.
abbrev pub one : String → Operation → ℕ
one i o = if str_eq o.operation_id i then 1 else 0

-- The cursors of the events rise strictly, from above `lo` to at most `hi`.
abbrev pub Rising : ℕ → List Event → ℕ → Type 0
Rising lo [] hi = lo ≤ hi
Rising lo (e ∷ es) hi = (lo < e.cursor) × Rising e.cursor es hi

pub Rising-weaken : (lo hi hi' : ℕ) (l : List Event) → hi ≤ hi' → Rising lo l hi → Rising lo l hi'
Rising-weaken lo hi hi' [] h k = omega arith
Rising-weaken lo hi hi' (e ∷ l) h k = (k.0, Rising-weaken e.cursor hi hi' l h k.1)

pub Rising-append :
    (lo hi : ℕ) (l : List Event) (e : Event)
    → hi < e.cursor
    → Rising lo l hi
    → Rising lo (l ++ e ∷ []) e.cursor
Rising-append lo hi [] e h k = (omega arith, omega arith)
Rising-append lo hi (x ∷ l) e h k = (k.0, Rising-append x.cursor hi l e h k.1)

pub All-append_one :
    (P : Operation → Type 0) (l : List Operation) (o : Operation)
    → All P l
    → P o
    → All P (l ++ o ∷ [])
All-append_one P [] o h k = (k, tt)
All-append_one P (x ∷ l) o h k = (h.0, All-append_one P l o h.1 k)

pub All-store :
    (P : Operation → Type 0) (l : List Operation) (p : Operation)
    → All P l
    → P p
    → All P (store p l)
unfolding store
All-store P [] p h k = tt
All-store P (x ∷ l) p h k = elim (Bool-cases (str_eq x.operation_id p.operation_id)) [
  | inl e ↦ rw e (k, h.1)
  | inr e ↦ rw e (h.0, All-store P l p h.1 k)
]

pub All-remove :
    (P : Operation → Type 0) (i : String) (l : List Operation) → All P l → All P (remove i l)
unfolding remove
All-remove P i [] h = tt
All-remove P i (x ∷ l) h = elim (Bool-cases (str_eq x.operation_id i)) [
  | inl e ↦ rw e h.1
  | inr e ↦ rw e (h.0, All-remove P i l h.1)
]

pub All-map :
    (P Q : Operation → Type 0)
    → ((o : Operation) → P o → Q o)
    → (l : List Operation) → All P l
    → All Q l
All-map P Q f [] h = tt
All-map P Q f (x ∷ l) h = (f x h.0, All-map P Q f l h.1)

pub All-find :
    (P : Operation → Type 0) (i : String) (o : Operation) (l : List Operation)
    → All P l
    → find i l ≡ some o
    → P o
unfolding find
All-find P i o [] h e = cc
All-find P i o (x ∷ l) h e = elim (Bool-cases (str_eq x.operation_id i)) [
  | inl p ↦ let same : x ≡ o = cc (rw p at e) in subst P same h.0
  | inr p ↦ All-find P i o l h.1 (rw p at e)
]

-- An id that is not there is on no operation.
pub total-none : (i : String) (l : List Operation) → find i l ≡ none → total (one i) l ≡ 0
unfolding total find
total-none i [] h = refl
total-none i (x ∷ l) h = ground (arith, total-none i l)
