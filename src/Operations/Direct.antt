-- ===== src/Operations/Direct.antt =====
-- `normalize_full_access_command` of src/lich_agent_bridge/actions.py.
pub mod Accepted
use Prim.Native.Char.{code}
use Prim.Native.String.{String, [], ◌∷◌}
use lich_agent_bridge.Base.{ℕ, Bool, false, ◌||◌, ◌==◌, ltb, if◌then◌else◌, str_eq, length}
use lich_agent_bridge.Base.Text.{codes, is_blank, is_space, strip}

-- Whether the code point occurs in the text.
unfoldable pub has_code : ℕ → String → Bool
has_code n [] = false
has_code n (c ∷ s) = code c == n || has_code n s

-- One of NUL, CR, LF, `|` and `&`.
unfoldable pub has_forbidden : String → Bool
unfolding has_code
has_forbidden s =
    has_code 0 s || has_code b'\r' s || has_code b'\n' s || has_code b'|' s || has_code b'&' s

-- `text.split(None, 1)[0]`, of a text that is stripped
unfoldable pub first_word : String → String
unfolding is_space
first_word [] = []
first_word (c ∷ s) = let rest = first_word s in if is_space (code c) then [] else c ∷ rest

-- `DIRECT_LICH_EVAL_COMMANDS`
abbrev pub is_eval : String → Bool
is_eval v =
    str_eq v "e"
    || str_eq v "eq"
    || str_eq v "exec"
    || str_eq v "execq"
    || str_eq v "en"
    || str_eq v "execname"

pub data Direct : Type 0 where
  accepted refused : String → Direct

module _ (casefold : String → String) where
  -- What follows the leading semicolon.
  unfoldable pub lich_command : String → String → Direct
  unfolding strip has_code first_word
  lich_command whole rest =
      if has_code b';' rest
      then refused "command chaining or control characters are forbidden"
      else if is_blank (strip rest)
      then refused "Lich command must not be blank"
      else if is_eval (casefold (first_word (strip rest)))
      then refused "inline Ruby Lich commands are forbidden"
      else accepted whole

  unfoldable pub by_first : String → Direct
  unfolding lich_command has_code
  by_first [] = refused "command must contain 1 to 140 characters"
  by_first (c ∷ rest) =
      if code c == b','
      then refused "frontend client commands are forbidden"
      else if code c == b';'
      then lich_command (c ∷ rest) rest
      else if has_code b';' rest
      then refused "command chaining or control characters are forbidden"
      else accepted (c ∷ rest)

  abbrev pub checked : String → Direct
  checked s =
      if ltb 140 (length (codes s))
      then refused "command must contain 1 to 140 characters"
      else if has_forbidden s
      then refused "command chaining or control characters are forbidden"
      else by_first s

  -- `normalize_full_access_command`, of a text
  unfoldable pub normalize_full_access_command : String → Direct
  normalize_full_access_command command = checked (strip command)
