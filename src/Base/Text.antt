-- ===== src/Base/Text.antt =====
-- What the components use of Python's `str`: code points, `strip`, `len`, and tests on characters.
use Prim.Native.Nat.{ℕ}
use Prim.Native.Char.{Char, code}
use Prim.Native.String.{String, [], ◌∷◌, ◌++◌}
use mathlib.Core.Bool.{Bool, true, false, ◌&&◌, ◌||◌}
use mathlib.Core.List.{List}
use mathlib.Core.List
use lich_agent_bridge.Base.Tests.{leb, ◌==◌, if◌then◌else◌, length}

abbrev pub codes : String → List.List ℕ
codes [] = List.[]
codes (c ∷ s) = List.◌∷◌ (code c) (codes s)

-- `len(value)`: the number of code points.
abbrev pub len : String → ℕ
len s = length (codes s)

abbrev pub is_blank : String → Bool
is_blank [] = true
is_blank (c ∷ s) = false

-- The code points for which `str.isspace` holds.
unfoldable pub is_space : ℕ → Bool
is_space c =
    (leb 9 c && leb c 13)
    || (leb 28 c && leb c 32)
    || c == 0x85
    || c == 0xa0
    || c == 0x1680
    || (leb 0x2000 c && leb c 0x200a)
    || c == 0x2028
    || c == 0x2029
    || c == 0x202f
    || c == 0x205f
    || c == 0x3000

unfoldable pub is_digit : ℕ → Bool
is_digit c = leb b'0' c && leb c b'9'

-- `value.lstrip()`
unfoldable pub lstrip : String → String
unfolding is_space
lstrip [] = []
lstrip (c ∷ s) = let rest = lstrip s in if is_space (code c) then rest else c ∷ s

abbrev cons_unless_trailing : Char → String → String
cons_unless_trailing c [] = if is_space (code c) then [] else c ∷ []
cons_unless_trailing c (d ∷ s) = c ∷ d ∷ s

-- `value.rstrip()`
unfoldable pub rstrip : String → String
unfolding is_space
rstrip [] = []
rstrip (c ∷ s) = cons_unless_trailing c (rstrip s)

-- `value.strip()`
unfoldable pub strip : String → String
unfolding lstrip rstrip
strip s = rstrip (lstrip s)

-- `value.replace("\x00", "")`
unfoldable pub drop_nul : String → String
drop_nul [] = []
drop_nul (c ∷ s) = let rest = drop_nul s in if code c == 0 then rest else c ∷ rest

-- An f-string: its pieces in order.
abbrev pub concat : List.List String → String
concat List.[] = []
concat (List.◌∷◌ s rest) = s ++ concat rest
