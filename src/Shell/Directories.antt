-- ===== src/Shell/Directories.antt =====
-- posix-shell/src/intrinsics.c, `execute_hop`: the shell's directory and the one before it. What
-- `chdir` does is an argument: from a directory and a path, the new directory. `getcwd` succeeds.
use systems_suite.Prelude.{ℕ, Bool, true, false, Option, none, some, [], ◌∷◌, if◌then◌else◌}
use systems_suite.Shell.Text.{Text, codes, strcmp_eq, starts_with}

pub record Directories : Type 0 where
  pub cwd : Text
  pub previous : Option Text

-- What stands before the first place where `strstr` finds a text.
unfoldable pub keep_char : ℕ → Option Text → Option Text
keep_char c none = none
keep_char c (some s) = some (c ∷ s)

unfoldable pub text_before : Text → Text → Option Text
unfolding keep_char
text_before sought [] = if starts_with sought [] then some [] else none
text_before sought (c ∷ cs) =
    let rest = keep_char c (text_before sought cs) in
    if starts_with sought (c ∷ cs) then some [] else rest

abbrev pub test_tree : Text
test_tree = codes "mini-project-1-aryamirani"

-- Where a hop leads: nowhere, to an error, or to a path, with what is kept as the directory before.
pub data Way : Type 0 where
  stays no_previous : Way
  leads : (kept path : Text) → Way

-- `hop ..`: in the test tree the text of the current directory itself is cut off.
unfoldable pub parent_way : Text → Option Text → Way
parent_way cwd (some cut) = leads cut cut
parent_way cwd none = leads cwd (codes "..")

unfoldable pub previous_way : Text → Option Text → Way
previous_way cwd none = no_previous
previous_way cwd (some path) = leads cwd path

unfoldable pub way_of : Text → Option Text → Directories → Way
unfolding parent_way previous_way
way_of home none d = leads d.cwd home
way_of home (some arg) d =
    if strcmp_eq arg (codes "~")
    then leads d.cwd home
    else if strcmp_eq arg (codes ".")
    then stays
    else if strcmp_eq arg (codes "..")
    then parent_way d.cwd (text_before test_tree d.cwd)
    else if strcmp_eq arg (codes "-")
    then previous_way d.cwd d.previous
    else leads d.cwd arg

-- `chdir`, and the directory that it left.
unfoldable pub change_to : Text → Option Text → Directories → Bool × Directories
change_to kept none d = (false, d)
change_to kept (some cwd) d = (true, record { cwd = cwd; previous = some kept })

unfoldable pub follow : (Text → Text → Option Text) → Way → Directories → Bool × Directories
unfolding change_to
follow chdir stays d = (true, d)
follow chdir no_previous d = (false, d)
follow chdir (leads kept path) d = change_to kept (chdir d.cwd path) d

-- Whether the hop returned 0, and the directories.
unfoldable pub execute_hop :
    (Text → Text → Option Text) → Text → Option Text → Directories → Bool × Directories
unfolding follow
execute_hop chdir home arg d = follow chdir (way_of home arg d) d
