-- ===== src/Watchers/Names.antt =====
-- The texts that the rules of src/lich_agent_bridge/watchers.py compare.
use Prim.Native.Char.{code}
use Prim.Native.String.{String, [], ◌∷◌, ◌++◌}
use mathlib.Core.List
use lich_agent_bridge.Base.{
  ℕ, ◌+◌, Bool, true, false, ◌&&◌, ◌||◌, Option, none, some, ◌==◌, if◌then◌else◌,
}
use lich_agent_bridge.Base.Dict.{lookup}
use lich_agent_bridge.Base.Text.{is_space, lstrip, strip}
use lich_agent_bridge.Watchers.Types.{
  Env, Load, words, amount, Reading, not_digits, unreadable, number, Result, ok, err, bad_number,
}

-- What follows the given prefix, if the text has it.
unfoldable pub after_prefix : String → String → Option String
after_prefix [] s = some s
after_prefix (p ∷ ps) [] = none
after_prefix (p ∷ ps) (c ∷ s) =
    let rest = after_prefix ps s in if code p == code c then rest else none

last_from : String → String → String
last_from best [] = best
last_from best (c ∷ s) = last_from (if code c == b':' then s else best) s

-- `code.rsplit(":", 1)[-1]`
unfoldable pub last_part : String → String
unfolding last_from
last_part s = last_from s s

-- One letter of an article under `re.IGNORECASE`; Python folds U+017F to `s`.
is_letter : ℕ → ℕ → Bool
is_letter l c = c == l || c + 32 == l || (l == b's' && c == 0x17f)

after_letters : String → String → Option String
unfolding is_letter
after_letters [] s = some s
after_letters (l ∷ ls) [] = none
after_letters (l ∷ ls) (c ∷ s) =
    let rest = after_letters ls s in if is_letter (code l) (code c) then rest else none

-- `\s+` after the article: at least one.
after_spaces : Option String → Option String
unfolding is_space
after_spaces none = none
after_spaces (some []) = none
after_spaces (some (c ∷ s)) = if is_space (code c) then some (lstrip s) else none

or_option : Option String → Option String → Option String
or_option (some s) o = some s
or_option none o = o

or_same : Option String → String → String
or_same none s = s
or_same (some t) s = t

-- `re.sub(r"\A(?:a|an|some)\s+", "", value, flags=re.IGNORECASE)`
unfoldable pub drop_article : String → String
unfolding after_letters after_spaces or_option or_same
drop_article s =
    or_same
      (or_option (after_spaces (after_letters "a" s))
        (or_option (after_spaces (after_letters "an" s)) (after_spaces (after_letters "some" s))))
      s

-- After a space of the run that `\s+` matches, the rest of the run is dropped.
squeeze_after : Bool → String → String
unfolding is_space
squeeze_after b [] = []
squeeze_after true (c ∷ s) =
    let skipped = squeeze_after true s in
    let kept = c ∷ squeeze_after false s in if is_space (code c) then skipped else kept
squeeze_after false (c ∷ s) =
    let squeezed = " " ++ squeeze_after true s in
    let kept = c ∷ squeeze_after false s in if is_space (code c) then squeezed else kept

-- `re.sub(r"\s+", " ", value)`
unfoldable pub squeeze : String → String
unfolding squeeze_after
squeeze s = squeeze_after false s

-- The levels of the dict `exact`.
abbrev pub exact : List.List (String × ℕ)
exact =
    List.◌∷◌ ("none", 0)
      (List.◌∷◌ ("unencumbered", 0)
        (List.◌∷◌ ("not encumbered", 0)
          (List.◌∷◌ ("no noticeable encumbrance", 0)
            (List.◌∷◌ ("light", 1)
              (List.◌∷◌ ("lightly encumbered", 1)
                (List.◌∷◌ ("moderate", 2)
                  (List.◌∷◌ ("moderately encumbered", 2)
                    (List.◌∷◌ ("heavy", 3)
                      (List.◌∷◌ ("heavily encumbered", 3)
                        (List.◌∷◌ ("very heavy", 4)
                          (List.◌∷◌ ("severely encumbered", 4)
                            (List.◌∷◌ ("overburdened", 5) List.[]))))))))))))

module _ (env : Env) where
  open env use {casefold, decimal}

  -- `_normalize_item_name`
  unfoldable pub normalize_item_name : String → String
  unfolding squeeze drop_article strip
  normalize_item_name value = casefold (squeeze (drop_article (strip value)))

  level_of : Reading → String → Result (Option ℕ)
  unfolding lookup
  level_of (number n) folded = ok (some n)
  level_of unreadable folded = err bad_number
  level_of not_digits folded = ok (lookup folded exact)

  -- `_encumbrance_level`: `" ".join(value.casefold().split())` strips too.
  unfoldable pub encumbrance_level : Option Load → Result (Option ℕ)
  unfolding level_of squeeze strip
  encumbrance_level none = ok none
  encumbrance_level (some (amount n)) = ok (some n)
  encumbrance_level (some (words value)) =
      let folded = squeeze (strip (casefold value)) in level_of (decimal folded) folded
