-- ===== src/Actions/Ledger.antt =====
-- What the audit log says of one action id, and what the actions of that id owe to it.
use lich_agent_bridge.Base.{
  ℕ, ◌+◌, ◌≤◌, String, Bool, true, false, ◌&&◌, ◌||◌, ◌≡◌, refl, ap, Option, none, some, List, [],
  ◌∷◌, ◌++◌, arith, if◌then◌else◌, str_eq, eq_iff,
}
use lich_agent_bridge.Actions.Types.{
  Action, Broker, Event, action_dispatched, action_approved, is_queued, is_launched,
}
use lich_agent_bridge.Actions.Loop.{find, store, walk}
use lich_agent_bridge.Actions.Diagram.{Later, Later-refl, Later-trans}

-- 1 for an event that dispatches the action `i`.
abbrev pub dispatch_of : String → Event → ℕ
dispatch_of i (action_dispatched a room) = if str_eq a.action_id i then 1 else 0
dispatch_of i _ = 0

abbrev pub approval_of : String → Event → ℕ
approval_of i (action_approved a room mode) = if str_eq a.action_id i then 1 else 0
approval_of i _ = 0

-- How often the action `i` was dispatched, by the audit log.
abbrev pub dispatches : String → List Event → ℕ
dispatches i [] = 0
dispatches i (e ∷ es) = dispatch_of i e + dispatches i es

abbrev pub approvals : String → List Event → ℕ
approvals i [] = 0
approvals i (e ∷ es) = approval_of i e + approvals i es

pub dispatches-append :
    (i : String) (es fs : List Event) → dispatches i (es ++ fs) ≡ dispatches i es + dispatches i fs
dispatches-append i [] fs = omega arith
dispatches-append i (e ∷ es) fs = omega (arith, dispatches-append i es fs)

pub approvals-append :
    (i : String) (es fs : List Event) → approvals i (es ++ fs) ≡ approvals i es + approvals i fs
approvals-append i [] fs = omega arith
approvals-append i (e ∷ es) fs = omega (arith, approvals-append i es fs)

-- 1 for an action that was sent to the bridge.
abbrev pub spent : Action → ℕ
spent a = if is_launched a.status then 1 else 0

-- 1 for an action that needed a confirmation and has got past it.
abbrev pub confirmed : Action → ℕ
confirmed a =
    if a.confirmation_required && (is_queued a.status || is_launched a.status) then 1 else 0

abbrev pub one : Action → ℕ
one a = 1

abbrev pub weigh : (Action → ℕ) → String → Action → ℕ
weigh w i a = if str_eq a.action_id i then w a else 0

-- The weight of the actions with the id `i`.
unfoldable pub total : (Action → ℕ) → String → List Action → ℕ
total w i [] = 0
total w i (a ∷ rest) = weigh w i a + total w i rest

-- What a change of one action from `x` to `a` with the events `es` does for the id `i`.
pub record Turn (i : String) (x : Action) (es : List Event) (a : Action) : Type 0 where
  pub later : Later x a
  pub sent : weigh spent i a ≡ weigh spent i x + dispatches i es
  pub confirmed : weigh confirmed i a ≤ weigh confirmed i x + approvals i es

module _ (w : Action → ℕ) (i : String) where
  pub total-store :
      (a x : Action) (l : List Action)
      → a.action_id ≡ x.action_id
      → find x.action_id l ≡ some x
      → total w i (store a l) + weigh w i x ≡ total w i l + weigh w i a
  unfolding total store find
  total-store a x [] e h = cc
  total-store a x (y ∷ l) e h = ground (arith, total-store a x l e)

-- `find` after `store`.
pub find-store :
    (i : String) (a x : Action) (l : List Action)
    → a.action_id ≡ x.action_id
    → find x.action_id l ≡ some x
    → find i (store a l) ≡ (if str_eq x.action_id i then some a else find i l)
unfolding store find
find-store i a x [] e h = cc
find-store i a x (y ∷ l) e h = ground (
  arith,
  find-store i a x l e,
  eq_iff y.action_id x.action_id,
  eq_iff y.action_id i,
  eq_iff x.action_id i,
)

-- The action of an id before and after: it may be new, and it is never gone.
abbrev pub Follows : Option Action → Option Action → Type 0
Follows none o = Unit
Follows (some x) none = ⊥
Follows (some x) (some a) = Later x a

pub Follows-refl : (o : Option Action) → Follows o o
Follows-refl none = tt
Follows-refl (some a) = Later-refl a

pub Follows-trans : (o p q : Option Action) → Follows o p → Follows p q → Follows o q
Follows-trans none p q h k = tt
Follows-trans (some a) none q h k = absurd h
Follows-trans (some a) (some b) none h k = absurd k
Follows-trans (some a) (some b) (some c) h k = Later-trans h k

pub Follows-if :
    (b c : Bool) (o p : Option Action) {x a : Action}
    → c ≡ b
    → Later x a
    → Follows o p
    → Follows (if b then some x else o) (if c then some a else p)
Follows-if true true o p e l f = l
Follows-if false false o p e l f = f
Follows-if true false o p e l f = cc
Follows-if false true o p e l f = cc

-- The loop over the actions, when its body makes a turn of each.
module _ {R : Type 0} (i : String) (f : Action → Action × List Event × Option R)
    (turn : (x : Action) → Turn i x (f x).1 (f x).0) where
  pub total-walk-spent :
      (l : List Action) → total spent i (walk f l).0 ≡ total spent i l + dispatches i (walk f l).1
  unfolding walk total
  total-walk-spent [] = omega arith
  total-walk-spent (x ∷ l) =
      ground (arith, (turn x).sent, total-walk-spent l, dispatches-append i (f x).1 (walk f l).1)

  pub total-walk-confirmed :
      (l : List Action)
      → total confirmed i (walk f l).0 ≤ total confirmed i l + approvals i (walk f l).1
  unfolding walk total
  total-walk-confirmed [] = omega arith
  total-walk-confirmed (x ∷ l) =
      ground
        (arith, (turn x).confirmed, total-walk-confirmed l, approvals-append i (f x).1 (walk f l).1)

  pub total-walk-one : (l : List Action) → total one i (walk f l).0 ≡ total one i l
  unfolding walk total
  total-walk-one [] = refl
  total-walk-one (x ∷ l) = ground (arith, (turn x).later.action_id, total-walk-one l)

  -- The list that the loop leaves, behind the first action.
  tail_of : Option R → List Action → List Action
  tail_of none l = (walk f l).0
  tail_of (some r) l = l

  walk-cons : (x : Action) (l : List Action) → (walk f (x ∷ l)).0 ≡ (f x).0 ∷ tail_of (f x).2 l
  unfolding walk tail_of
  walk-cons x l = ground arith

  Follows-tail_of :
      (r : Option R) (l : List Action)
      → Follows (find i l) (find i (walk f l).0)
      → Follows (find i l) (find i (tail_of r l))
  unfolding tail_of
  Follows-tail_of none l h = h
  Follows-tail_of (some r) l h = Follows-refl (find i l)

  pub find-walk : (l : List Action) → Follows (find i l) (find i (walk f l).0)
  unfolding find
  find-walk [] = tt
  find-walk (x ∷ l) = rw walk-cons (
      Follows-if _ _ _ _ (ap (λ (j : String). str_eq j i) (turn x).later.action_id) (turn x).later
        (Follows-tail_of (f x).2 l (find-walk l)))

-- What a method does for one id: its action has moved on, every dispatch that was audited spent an
-- action, every confirmed action has an approval in the log, and the id is not in use twice.
pub record Evolves (i : String) (b c : Broker) : Type 0 where
  pub follows : Follows (find i b.actions) (find i c.actions)
  pub sent :
      total spent i c.actions + dispatches i b.audit
      ≡ total spent i b.actions + dispatches i c.audit
  pub confirmed :
      total confirmed i c.actions + approvals i b.audit
      ≤ total confirmed i b.actions + approvals i c.audit
  pub unique : total one i b.actions ≤ 1 → total one i c.actions ≤ 1

pub Evolves-refl : (i : String) (b : Broker) → Evolves i b b
Evolves-refl i b = record {
  follows = Follows-refl (find i b.actions);
  sent = refl;
  confirmed = omega arith;
  unique = λ h. h;
}

pub Evolves-trans : {i : String} {b c d : Broker} → Evolves i b c → Evolves i c d → Evolves i b d
Evolves-trans {i} {b} {c} {d} p q = record {
  follows =
      Follows-trans (find i b.actions) (find i c.actions) (find i d.actions) p.follows q.follows;
  sent = omega (arith, p.sent, q.sent);
  confirmed = omega (arith, p.confirmed, q.confirmed);
  unique = λ h. q.unique (p.unique h);
}
