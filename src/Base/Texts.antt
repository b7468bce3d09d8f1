-- ===== src/Base/Texts.antt =====
-- The methods of Python's `str` that the agents call, on ASCII texts.
use Prim.Native.Nat.{ℕ, zero, suc, ◌-◌}
use Prim.Native.Char.{Char, code}
use Prim.Native.String.{String, [], ◌∷◌, char_at}
use mathlib.Core.Option.{Option, none, some}
use mathlib.Core.Bool.{Bool, ◌&&◌, ◌||◌}
use loop_revops_agents.Base.Tests.{leb, ◌==◌, if◌then◌else◌}

abbrev pub is_space : Char → Bool
is_space c = (leb 9 (code c) && leb (code c) 13) || (leb 28 (code c) && leb (code c) 32)

abbrev is_slash : Char → Bool
is_slash c = code c == b'/'

abbrev keep_unless : (Char → Bool) → Char → String → String
keep_unless drops c [] = if drops c then [] else c ∷ []
keep_unless drops c (d ∷ s) = c ∷ d ∷ s

trim_right : (Char → Bool) → String → String
trim_right drops [] = []
trim_right drops (c ∷ s) = keep_unless drops c (trim_right drops s)

unfoldable pub trim_left : (Char → Bool) → String → String
trim_left drops [] = []
trim_left drops (c ∷ s) = let rest = trim_left drops s in if drops c then rest else c ∷ s

-- `s.strip()`
unfoldable pub strip : String → String
unfolding trim_left trim_right
strip s = trim_left is_space (trim_right is_space s)

-- `s.rstrip("/")`
unfoldable pub rstrip_slash : String → String
unfolding trim_right
rstrip_slash s = trim_right is_slash s

abbrev lower_char : Char → Char
lower_char c =
    if leb 65 (code c) && leb (code c) 90
    then char_at "abcdefghijklmnopqrstuvwxyz" (code c - 65)
    else c

-- `s.lower()`
unfoldable pub lower : String → String
lower [] = []
lower (c ∷ s) = lower_char c ∷ lower s

-- What follows the first `@`, if there is one.
unfoldable pub after_at : String → Option String
after_at [] = none
after_at (c ∷ s) = let rest = after_at s in if code c == b'@' then some s else rest

-- `s[:n]`
unfoldable pub take_text : ℕ → String → String
take_text zero s = []
take_text (suc n) [] = []
take_text (suc n) (c ∷ s) = c ∷ take_text n s
