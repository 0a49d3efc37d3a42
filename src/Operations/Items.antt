-- ===== src/Operations/Items.antt =====
-- `item.audit` of src/lich_agent_bridge/operations.py: one exact item, its diagnostics, and its way
-- back to where it was.

use lich_agent_bridge.Base.{
  ℕ, String, Bool, false, ◌&&◌, ◌||◌, not, Option, none, some, List, [], ◌∷◌, ◌++◌, if◌then◌else◌,
  str_eq,
}
use lich_agent_bridge.Base.Dict.{insert, lookup}
use lich_agent_bridge.Base.Text.{concat, is_blank, strip}
use lich_agent_bridge.Operations.Types.{
  Argument, Binding, Item, Location, Method, Session, Status, text, number, texts,
}
use lich_agent_bridge.Operations.Host.{Host, Texts}
use lich_agent_bridge.Operations.Monad.{
  M, call, catch_abort, demand, fail, get_operation, pure, require, update, ◌>>=◌, ◌>>◌,
}
use lich_agent_bridge.Operations.Steps.{
  admit_and_start, progress, run_broker_step, snapshot, unless_cleanup,
}
use lich_agent_bridge.Operations.Objects.{
  method_name, is_spell, same_method, refers_to, all_methods, is_empty, without_hash, only, with_id,
  the_only, in_hand, is_restore, at_place, keep,
}

module _ {W R : Type 0} (py : Texts) (host : Host W R) where
  same_name : String → String → Bool
  same_name a b = str_eq (py.casefold a) (py.casefold b)

  method_of : String → Option Method
  method_of s =
      if str_eq s "look"
      then some Method.look
      else if str_eq s "inspect"
      then some Method.inspect
      else if str_eq s "405"
      then some Method.spell_405
      else if str_eq s "735"
      then some Method.spell_735
      else none

  -- The methods asked for, each a supported one.
  parse_methods : List String → Option (List Method)
  unfolding method_of
  parse_methods [] = some []
  parse_methods (s ∷ rest) = elim (method_of (py.casefold (strip s))) [
    | none ↦ none
    | some m ↦ elim (parse_methods rest) [ none ↦ none | some ms ↦ some (m ∷ ms) ]
  ]

  -- `_is_owned_location`
  abbrev pub is_owned_location : String → Location → Bool
  unfolding same_name
  is_owned_location character l =
      not (is_blank l.location_id) && l.verified_owned && same_name l.owner character

  -- `_require_owned_location`
  unfoldable pub require_owned_location : String → Location → M W (Unit {0})
  require_owned_location character l =
      require (is_owned_location character l) "item location is not positively identified as owned"

  -- The id as a text, where it is given as one or as an integer.
  abbrev pub item_text : Option Argument → Option String
  item_text (some (text s)) = if is_blank (strip s) then none else some s
  item_text (some (number n)) = some (py.decimal n)
  item_text _ = none

  abbrev pub set_item : String → M W (Unit {0})
  set_item i = update (λ o. record o { arguments = insert "item_id" (text i) o.arguments })

  -- An integer is replaced by its text at once.
  abbrev pub set_number : Option Argument → M W (Unit {0})
  set_number (some (number n)) = set_item (py.decimal n)
  set_number _ = pure tt

  abbrev pub methods_given : Option Argument → M W (List String)
  methods_given none = pure ("look" ∷ "inspect" ∷ [])
  methods_given (some (texts l)) = pure l
  methods_given _ = fail "methods must be a sequence"

  any_same : Method → List Method → Bool
  any_same m [] = false
  any_same m (n ∷ ns) = same_method n m || any_same m ns

  -- `_parse_item_audit_arguments`: the id, which it also writes to the arguments, and the methods
  unfoldable pub parse_item_audit_arguments : M W (String × List Method)
  unfolding parse_methods any_same only keep
  parse_item_audit_arguments = do
    o ← get_operation
    require (only ("item_id" ∷ "methods" ∷ []) o.arguments) "unsupported item.audit argument(s)"
    set_number (lookup "item_id" o.arguments)
    s ← demand (item_text (lookup "item_id" o.arguments)) "item.audit requires item_id"
    let i = without_hash s
    require (py.is_digits i) "item_id must be a live numeric object ID"
    set_item i
    given ← methods_given (lookup "methods" o.arguments)
    asked ← demand (parse_methods given) "unsupported item.audit method"
    let methods = keep (λ m. any_same m asked) all_methods
    require (not (is_empty methods)) "item.audit requires at least one method"
    pure (i, methods)

  -- `_exact_item`
  unfoldable pub exact_item : Session → Binding → M W Item
  exact_item s b = do
    x ←
        demand (the_only (with_id b.object_id s.items))
          (concat ("ambiguous item identity for live object #" ∷ b.object_id ∷ []))
    require (str_eq x.dossier_id b.dossier_id && str_eq x.fingerprint b.fingerprint)
        "item dossier/fingerprint changed"
    pure x

  -- `_verify_binding`
  unfoldable pub verify_binding : Session → Binding → M W (Unit {0})
  unfolding same_name
  verify_binding s b = do
    require (same_name s.character b.character) "character changed during operation"
    require (str_eq s.generation b.generation) "stale session generation"
    x ← exact_item s b
    require_owned_location b.character x.location

  -- `_fresh_bound_item`
  unfoldable pub fresh_bound_item : Binding → M W Item
  fresh_bound_item b = do s ← snapshot py host; verify_binding s b; exact_item s b

  -- `_bind_item`
  unfoldable pub bind_item : String → String → Session → M W Binding
  unfolding same_name
  bind_item character i s = do
    require (same_name s.character character) "state belongs to another character"
    require (not (is_blank s.generation)) "active session generation is unavailable"
    x ← demand (the_only (with_id i s.items)) "ambiguous item identity"
    require (not (is_blank x.dossier_id) && not (is_blank x.fingerprint))
        "item dossier/fingerprint is incomplete"
    require_owned_location character x.location
    pure (record {
      character = character;
      generation = s.generation;
      object_id = i;
      dossier_id = x.dossier_id;
      fingerprint = x.fingerprint;
      original_location = x.location;
    })

  -- `_run_action_step`
  unfoldable pub run_action_step : ℕ → Binding → String → String → Bool → M W String
  run_action_step fuel b command detail cleanup = do
    unless_cleanup py host cleanup
    require (refers_to b.object_id command)
        (concat (detail ∷ " command does not reference exact object #" ∷ b.object_id ∷ []))
    s ← snapshot py host
    verify_binding s b
    run_broker_step py host fuel s command detail cleanup

  abbrev pub command_of : Method → String → String
  command_of Method.look i = concat ("look #" ∷ i ∷ [])
  command_of Method.inspect i = concat ("inspect #" ∷ i ∷ [])
  command_of Method.spell_405 i = concat ("diagnose item 405 exact #" ∷ i ∷ [])
  command_of Method.spell_735 i = concat ("diagnose item 735 exact #" ∷ i ∷ [])

  -- `_run_diagnostic`
  unfoldable pub run_diagnostic : ℕ → Binding → Method → M W (Unit {0})
  run_diagnostic fuel b m = do
    o ← get_operation
    r ← call (host.register o.operation_id m b)
    progress py host (concat ("registered " ∷ method_name m ∷ " evidence expectation" ∷ []))
    i ←
        run_action_step fuel b (command_of m b.object_id)
          (concat ("running " ∷ method_name m ∷ " diagnostic" ∷ [])) false
    fresh_bound_item b
    found ← call (host.verify r i)
    e ← demand found (concat ("registered " ∷ method_name m ∷ " evidence was not observed" ∷ []))
    require
        (same_method e.method m
          && str_eq e.generation b.generation
          && str_eq e.object_id b.object_id)
        (concat ("registered " ∷ method_name m ∷ " evidence did not match the bound item" ∷ []))
    update (λ p. record p { evidence = p.evidence ++ e ∷ [] })
    progress py host (concat ("verified " ∷ method_name m ∷ " evidence for #" ∷ b.object_id ∷ []))

  unfoldable pub run_diagnostics : ℕ → Binding → List Method → M W (Unit {0})
  run_diagnostics fuel b [] = pure tt
  run_diagnostics fuel b (m ∷ ms) = do run_diagnostic fuel b m; run_diagnostics fuel b ms

  -- The item is taken in hand, and seen there.
  unfoldable pub take_in_hand : ℕ → Binding → M W (Unit {0})
  take_in_hand fuel b = do
    run_action_step fuel b (concat ("get #" ∷ b.object_id ∷ []))
        "taking exact item for spell diagnostics" false
    held ← fresh_bound_item b
    require (in_hand held) "exact item was not verified in hand after take"

  unfoldable pub restore_failed : Status → String → M W String
  restore_failed t d = fail (concat ("restore failed: " ∷ d ∷ []))

  unfoldable pub bring_back : ℕ → Binding → String → M W (Unit {0})
  bring_back fuel b command = do
    catch_abort
        (run_action_step fuel b command "restoring exact item to original owned location" false)
        restore_failed
    x ← fresh_bound_item b
    require (at_place x b.original_location) "restore failed: same-ID restoration was not verified"
    progress py host "verified same-ID restoration"

  -- `_restore_original`
  unfoldable pub restore_original : ℕ → Binding → M W (Unit {0})
  restore_original fuel b = do
    x ← fresh_bound_item b
    if at_place x b.original_location
        then progress py host "same-ID item already in original owned location"
        else (do
          require (is_restore b.original_location.restore_command)
              "original owned location has no exact restore command"
          command ←
              demand b.original_location.restore_command
                "original owned location has no exact restore command"
          bring_back fuel b command)

  unfoldable pub run_spells : ℕ → Binding → List Method → M W (Unit {0})
  run_spells fuel b [] = pure tt
  run_spells fuel b (m ∷ ms) = do
    x ← fresh_bound_item b
    (if in_hand x then pure tt else take_in_hand fuel b)
    run_diagnostics fuel b (m ∷ ms)

  -- `_run_item_audit`
  unfoldable pub run_item_audit : ℕ → Binding → List Method → M W (Unit {0})
  unfolding keep
  run_item_audit fuel b methods = do
    run_diagnostics fuel b (keep (λ m. not (is_spell m)) methods)
    run_spells fuel b (keep is_spell methods)
    restore_original fuel b

  -- The end of `_execute_item_audit`.
  unfoldable pub conclude : Binding → M W String
  conclude b = do
    end ← snapshot py host
    verify_binding end b
    x ← exact_item end b
    require (at_place x b.original_location)
        "same-ID item was not restored to its original location"
    update (λ o. record o { end_state = some end })
    pure
        "registered diagnostic evidence collected and the exact same item was restored to its original owned location"

  -- `_execute_item_audit`
  unfoldable pub execute_item_audit : ℕ → M W String
  execute_item_audit fuel = do
    (i, methods) ← parse_item_audit_arguments
    start ← snapshot py host
    update (λ o. record o { start_state = some start })
    o ← get_operation
    b ← bind_item o.character i start
    update (λ o. record o { binding = some b })
    admit_and_start py host "item identity and session admitted" "item audit running"
    run_item_audit fuel b methods
    conclude b
