-- ===== src/Dispatcher/Commands.antt =====
-- `parse_command` and `dispatch` of shared/slack_dispatcher.py, on ASCII texts, up to the call of the
-- handler. The registry is the list of the registered names.
use Prim.Native.Nat.{ℕ, zero, suc, ◌+◌}
use Prim.Native.Char.{Char, code}
use Prim.Native.String.{String, [], ◌∷◌}
use loop_revops_agents.Base.{
  Bool, true, false, Option, none, some, List, ◌&&◌, ◌||◌, ◌==◌, not, leb, str_eq, contains,
  if◌then◌else◌,
}
use loop_revops_agents.Dispatcher.{canonical}
use loop_revops_agents.Base.Texts.{strip, lower, is_space, trim_left}

-- `[A-Z0-9]`
abbrev is_id_char : Char → Bool
is_id_char c = (leb 65 (code c) && leb (code c) 90) || (leb 48 (code c) && leb (code c) 57)

-- How many characters a match of `[A-Z0-9]*>` takes.
id_length : String → Option ℕ
id_length [] = none
id_length (c ∷ s) = elim (is_id_char c) [
  | true ↦ elim (id_length s) [ none ↦ none | some n ↦ some (n + 1) ]
  | false ↦ if code c == b'>' then some 1 else none
]

-- How many characters a match of `@[A-Z0-9]+>` takes.
abbrev mention_length : String → Option ℕ
mention_length (a ∷ c ∷ s) =
    if (code a == b'@') && is_id_char c
    then elim (id_length s) [ none ↦ none | some n ↦ some (n + 2) ]
    else none
mention_length _ = none

-- `re.sub(r"<@[A-Z0-9]+>", "", s)`, after as many characters as are left of a match.
unfoldable pub drop_mentions : ℕ → String → String
unfolding id_length
drop_mentions skip [] = []
drop_mentions (suc skip) (c ∷ s) = drop_mentions skip s
drop_mentions zero (c ∷ s) = elim (if code c == b'<' then mention_length s else none) [
  | some n ↦ drop_mentions n s
  | none ↦ c ∷ drop_mentions zero s
]

-- What follows `oo `, in any case, where the text starts with it.
abbrev after_oo : String → Option String
after_oo (a ∷ b ∷ c ∷ s) = if str_eq (lower (a ∷ b ∷ c ∷ [])) "oo " then some s else none
after_oo _ = none

-- `s.split(maxsplit=1)` of a text without spaces around it: the first word, and the rest or the empty
-- text.
unfoldable pub split_word : String → String × String
unfolding trim_left
split_word [] = ([], [])
split_word (c ∷ s) =
    let (word, rest) = split_word s in
    if is_space c then ([], trim_left is_space s) else (c ∷ word, rest)

-- The text without mentions and without a leading `oo `.
unfoldable pub cleaned : String → String
unfolding drop_mentions strip lower
cleaned text_in =
    let s = strip (drop_mentions zero text_in) in
    elim (after_oo s) [ none ↦ s | some rest ↦ strip rest ]

unfoldable pub parse_command : List String → String → Option String × String
unfolding cleaned split_word lower
parse_command registry text_in =
    let s = cleaned text_in in
    let (word, rest) = split_word s in
    let first = canonical (lower word) in
    if str_eq s ""
    then (none, "")
    else if contains first registry && not (str_eq first "oo")
    then (some first, rest)
    else (none, s)

-- The handler that is called and the text that it gets; `none` is the reply of an error.
unfoldable pub dispatch : List String → String → Option (String × String)
unfolding parse_command
dispatch registry text_in =
    let (agent, rest) = parse_command registry text_in in
    let target : String = elim agent [ none ↦ "oo" | some name ↦ name ] in
    if contains target registry then some (target, rest) else none
