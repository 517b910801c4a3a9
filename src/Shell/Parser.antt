-- ===== src/Shell/Parser.antt =====
-- posix-shell/src/parser.c: the syntax check of a group of commands.
use systems_suite.Prelude.{
  ℕ, Bool, true, false, not, ◌&&◌, ◌||◌, Option, none, some, List, [], ◌∷◌, ◌==◌, if◌then◌else◌,
}
use systems_suite.Shell.Text.{Text, is_empty, trim_whitespace, strtok, last, but_last, is_char}
use systems_suite.Shell.Spacing.{pipe}

abbrev pub ampersand : ℕ
ampersand = 38

abbrev pub semicolon : ℕ
semicolon = 59

abbrev pub first : Text → Option ℕ
first [] = none
first (c ∷ cs) = some c

-- An ampersand behind nothing.
unfoldable pub lone_ampersand : Text → Bool
lone_ampersand input =
    let trimmed = trim_whitespace input in
    is_char ampersand (last trimmed) && is_empty (but_last trimmed)

unfoldable pub any_empty : List Text → Bool
any_empty [] = false
any_empty (t ∷ ts) = let rest = any_empty ts in is_empty t || rest

unfoldable pub pipes_ok : Text → Bool
pipes_ok trimmed =
    if is_char pipe (first trimmed) || is_char pipe (last trimmed)
    then false
    else not (any_empty (strtok (λ c. c == pipe) trimmed))

-- The loop over the groups: an empty group ends it.
unfoldable pub groups_ok : List Text → Bool
groups_ok [] = true
groups_ok (g ∷ gs) =
    let rest = groups_ok gs in
    if is_empty (trim_whitespace g)
    then next_empty gs
    else if pipes_ok (trim_whitespace g)
    then rest
    else false
  where
    next_empty : List Text → Bool
    next_empty [] = true
    next_empty (next ∷ _) = is_empty next

unfoldable pub parse_input : Text → Bool
parse_input input =
    let groups = strtok (λ c. c == semicolon) input in
    if lone_ampersand input
    then false
    else if no_groups groups && not (is_empty input)
    then false
    else groups_ok groups
  where
    no_groups : List Text → Bool
    no_groups [] = true
    no_groups (_ ∷ _) = false
