-- ===== src/Watchers/Types.antt =====
-- The data of src/lich_agent_bridge/watchers.py, and the fields of a snapshot that its rules read.
use lich_agent_bridge.Base.{ℕ, String, Bool, Option, List}

-- `CharacterProfile`
pub record Profile : Type 0 where
  pub character : String
  pub expected_hand_item_names : List String
  pub expected_hand_item_label : String
  pub encumbrance_warning : Option ℕ
  pub encumbrance_emergency : Option ℕ
  pub required_defensive_spell_ids : List String
  pub severe_wound_level : ℕ

-- `CharacterSnapshot.encumbrance`; an integer there is not negative.
pub data Load : Type 0 where
  words : String → Load
  amount : ℕ → Load

-- An entry of `nearby["corpses"]`: its id, and the other texts.
pub record Corpse : Type 0 where
  pub id : String
  pub texts : List (String × String)

-- `CharacterSnapshot`. `hands` has the name of the item of each hand, or `none` for an empty hand;
-- `wounds` the natural number of each part's "wound" entry, if it has one (a negative level is
-- below every threshold).
pub record Snapshot : Type 0 where
  pub character : String
  pub generation : String
  pub sequence : ℕ
  pub hands : Option (List (Option String))
  pub encumbrance : Option Load
  pub dead : Option Bool
  pub stunned : Option Bool
  pub wounds : Option (List (String × Option ℕ))
  pub active_spells : Option (List String)
  pub scripts : Option (List String)
  pub owners : Option (List (String × Option String))
  pub corpses : Option (List Corpse)

pub data Severity : Type 0 where
  info warning critical : Severity

pub data Status : Type 0 where
  active cleared : Status

-- `WatcherAlert.evidence`, by the rule that found it
pub data Evidence : Type 0 where
  hands : String → List String → Evidence
  load : Option Load → Option ℕ → Option ℕ → Evidence
  flag : Option Bool → Evidence
  wounds : ℕ → List (String × ℕ) → Evidence
  spell : String → List String → Evidence
  script : String → String → List String → Evidence
  owner_released : Evidence
  corpse : Corpse → ℕ → Evidence
  corpse_absent : String → Evidence

-- `WatcherAlert`
pub record Alert : Type 0 where
  pub code : String
  pub severity : Severity
  pub status : Status
  pub character : String
  pub generation : String
  pub snapshot_sequence : ℕ
  pub evidence : Evidence

-- `_CharacterWatcherState`. `active` is in the order of the `OrderedDict`; its key is the alert's
-- code.
pub record Session : Type 0 where
  pub generation : String
  pub sequence : Option ℕ
  pub active : List Alert
  pub history : List Alert
  pub corpse_counts : List (String × ℕ)
  pub corpse_evidence : List (String × Corpse)
  pub seen_required_spells : List String
  pub previous : Option Snapshot

-- The state that `reduce` works on, and the local list `emitted`.
pub record Pass : Type 0 where
  pub session : Session
  pub emitted : List Alert

-- What `isdigit` and `int` make of a text: `isdigit` does not hold, or it does and `int` raises or
-- reads a number.
pub data Reading : Type 0 where
  not_digits unreadable : Reading
  number : ℕ → Reading

-- `WatcherReducer.__init__`, and what the rules take from Python: case folding, the number of a
-- text for which `isdigit` holds (one that `int` reads), and the order in which a set of texts is
-- walked.
pub record Env : Type 0 where
  pub casefold : String → String
  pub decimal : String → Reading
  pub set_order : List String → List String
  pub profiles : List (String × Profile)
  pub corpse_persistence_snapshots : ℕ
  pub active_limit : ℕ
  pub history_limit : ℕ

-- The two `ValidationError`s of `reduce`, and the `ValueError` of `int`.
pub data Refusal : Type 0 where
  no_profile sequence_not_increasing bad_number : Refusal

pub data Result {ℓ} (A : Type ℓ) : Type ℓ where
  ok : A → Result A
  err : Refusal → Result A
