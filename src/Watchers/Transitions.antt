-- ===== src/Watchers/Transitions.antt =====
-- What one pass of the alert rules may change: alerts are emitted only where something changes, and
-- they tell every change.
use lich_agent_bridge.Base.{
  ◌≤◌, ◌<◌, String, Bool, true, false, ◌≡◌, refl, Option, none, some, List, [], ◌∷◌, ◌++◌,
  if◌then◌else◌, str_eq, length, append-nil, append_assoc, arith, All, sym, ap, ◌∙◌, Bool-cases,
  inl, inr,
}
use lich_agent_bridge.Watchers.Types.{Alert, Env, Pass, Snapshot, Status, active, cleared}
use lich_agent_bridge.Watchers.Conditions.{alert_at, remember, same_severity, without}

-- What a client does that follows the alerts: an active one replaces what it has under the code, a
-- cleared one removes it.
unfoldable pub follow : Status → Alert → List Alert → List Alert
follow active a alerts = without a.code alerts ++ a ∷ []
follow cleared a alerts = without a.code alerts

unfoldable pub replay : List Alert → List Alert → List Alert
replay [] alerts = alerts
replay (a ∷ rest) alerts = replay rest (follow a.status a alerts)

-- An alert that changes something: it is new or of another severity, or it ends one that is there.
abbrev pub is_news : Status → Option Alert → Alert → Bool
is_news active none a = true
is_news active (some b) a = if same_severity b.severity a.severity then false else true
is_news cleared none a = false
is_news cleared (some b) a = true

abbrev pub AllNews : List Alert → List Alert → Type 0
AllNews [] alerts = Unit
AllNews (a ∷ rest) alerts =
    (is_news a.status (alert_at a.code alerts) a ≡ true) × AllNews rest (follow a.status a alerts)

-- The alert names the snapshot that it was found in.
pub record IsFrom (snapshot : Snapshot) (a : Alert) : Type 0 where
  pub character : a.character ≡ snapshot.character
  pub generation : a.generation ≡ snapshot.generation
  pub sequence : a.snapshot_sequence ≡ snapshot.sequence

replay-append :
    (l m : List Alert) (alerts : List Alert) → replay (l ++ m) alerts ≡ replay m (replay l alerts)
unfolding replay
replay-append [] m alerts = refl
replay-append (a ∷ l) m alerts = replay-append l m (follow a.status a alerts)

AllNews-append :
    (l m : List Alert) (alerts : List Alert)
    → AllNews l alerts
    → AllNews m (replay l alerts)
    → AllNews (l ++ m) alerts
unfolding replay
AllNews-append [] m alerts h k = k
AllNews-append (a ∷ l) m alerts h k = (h.0, AllNews-append l m (follow a.status a alerts) h.1 k)

All-append : (P : Alert → Type 0) (l m : List Alert) → All P l → All P m → All P (l ++ m)
All-append P [] m h k = k
All-append P (a ∷ l) m h k = (h.0, All-append P l m h.1 k)

pub length-without : (code : String) (l : List Alert) → length (without code l) ≤ length l
unfolding without
length-without code [] = omega arith
length-without code (a ∷ l) = ground (arith, length-without code l)

pub length-without_there :
    (code : String) (l : List Alert) (a : Alert)
    → alert_at code l ≡ some a
    → length (without code l) < length l
unfolding without alert_at
length-without_there code [] a h = cc
length-without_there code (b ∷ l) a h = elim (Bool-cases (str_eq b.code code)) [
  | inl p ↦ rw p (omega (arith, length-without code l))
  | inr p ↦ rw p (omega (arith, length-without_there code l a (rw p at h)))
]

module _ (env : Env) where
  -- The deque of alerts after all of them were appended.
  unfoldable pub remember_all : List Alert → List Alert → List Alert
  remember_all [] history = history
  remember_all (a ∷ rest) history = remember_all rest (remember env a history)

  remember_all-append :
      (l m history : List Alert)
      → remember_all (l ++ m) history ≡ remember_all m (remember_all l history)
  unfolding remember_all
  remember_all-append [] m history = refl
  remember_all-append (a ∷ l) m history = remember_all-append l m (remember env a history)

  -- The session and the emitted alerts before and after a part of a pass, which emits `alerts`.
  pub record Moves (snapshot : Snapshot) (p q : Pass) : Type 0 where
    pub alerts : List Alert
    pub emitted : q.emitted ≡ p.emitted ++ alerts
    pub active : q.session.active ≡ replay alerts p.session.active
    pub history : q.session.history ≡ remember_all alerts p.session.history
    pub news : AllNews alerts p.session.active
    pub dated : All (IsFrom snapshot) alerts
    pub generation : q.session.generation ≡ p.session.generation
    pub bounded :
        length p.session.active ≤ env.active_limit → length q.session.active ≤ env.active_limit

  -- A part that emits nothing and leaves the alerts alone.
  pub Moves-quiet :
      (snapshot : Snapshot) (p q : Pass)
      → q.emitted ≡ p.emitted
      → q.session.active ≡ p.session.active
      → q.session.history ≡ p.session.history
      → q.session.generation ≡ p.session.generation
      → Moves snapshot p q
  unfolding replay remember_all
  Moves-quiet snapshot p q e a h g = record {
    alerts = [];
    emitted = e ∙ sym (append-nil p.emitted);
    active = a;
    history = h;
    news = tt;
    dated = tt;
    generation = g;
    bounded = λ b. rw a b;
  }

  pub Moves-refl : (snapshot : Snapshot) (p : Pass) → Moves snapshot p p
  Moves-refl snapshot p = Moves-quiet snapshot p p refl refl refl refl

  pub Moves-trans :
      {snapshot : Snapshot} {p q r : Pass}
      → Moves snapshot p q
      → Moves snapshot q r
      → Moves snapshot p r
  Moves-trans {snapshot} {p} {q} {r} m n = record {
    alerts = m.alerts ++ n.alerts;
    emitted =
        n.emitted ∙ ap (λ l. l ++ n.alerts) m.emitted ∙ append_assoc p.emitted m.alerts n.alerts;
    active =
        n.active
        ∙ ap (replay n.alerts) m.active
        ∙ sym (replay-append m.alerts n.alerts p.session.active);
    history =
        n.history
        ∙ ap (remember_all n.alerts) m.history
        ∙ sym (remember_all-append m.alerts n.alerts p.session.history);
    news = AllNews-append m.alerts n.alerts p.session.active m.news (rw (sym m.active) n.news);
    dated = All-append (IsFrom snapshot) m.alerts n.alerts m.dated n.dated;
    generation = n.generation ∙ m.generation;
    bounded = λ b. n.bounded (m.bounded b);
  }
