-- ===== src/Shell/Spacing.antt =====
-- posix-shell/src/shell.c, `add_spaces_around_redirects`: how much it writes into its buffer.
use systems_suite.Prelude.{ℕ, Bool, true, false, ◌&&◌, ◌||◌, [], ◌∷◌, ◌++◌, ◌==◌, if◌then◌else◌}
use systems_suite.Shell.Text.{Text}

abbrev pub greater : ℕ
greater = 62

abbrev pub less : ℕ
less = 60

abbrev pub pipe : ℕ
pipe = 124

abbrev pub is_operator : ℕ → Bool
is_operator c = c == greater || (c == less || c == pipe)

-- What is written for a character that is not the first of `>>`.
unfoldable pub spaced_char : ℕ → Text
spaced_char c = if is_operator c then 32 ∷ c ∷ 32 ∷ [] else c ∷ []

unfoldable pub add_spaces_around_redirects : Text → Text
add_spaces_around_redirects [] = []
add_spaces_around_redirects (c ∷ []) = spaced_char c
add_spaces_around_redirects (c ∷ d ∷ cs) = elim (c == greater && d == greater) [
  | true ↦ 32 ∷ greater ∷ greater ∷ 32 ∷ add_spaces_around_redirects cs
  | false ↦ spaced_char c ++ add_spaces_around_redirects (d ∷ cs)
]
