-- ===== src/Shell/Line.antt =====
-- posix-shell/src/shell.c, `process_command_line`, with `log` of intrinsics.c, which calls it again.
-- What a command does outside of the history is an action; the fuel counts these calls.
use systems_suite.Prelude.{
  ℕ, zero, suc, Bool, true, false, not, ◌&&◌, Option, none, some, List, [], ◌∷◌, ◌++◌, ◌==◌,
  if◌then◌else◌, get_elem?,
}
use systems_suite.Shell.Text.{Text, codes, strcmp_eq, strtok, is_blank, is_empty, strstr}
use systems_suite.Shell.Spacing.{add_spaces_around_redirects}
use systems_suite.Shell.Parser.{semicolon, parse_input}
use systems_suite.Shell.Commands.{Command, is_background, without_mark, pipeline_of, args_fit}
use systems_suite.Shell.History.{add_to_history, read_history, recall, atoi}

pub data Builtin : Type 0 where
  hop reveal echo activities ping fg bg : Builtin

pub data Action : Type 0 where
  greeting : Bool → Action
  invalid_syntax : Action
  builtin : Builtin → Command → Action
  log_shown : List Text → Action
  log_missing log_invalid log_purged : Action
  pipeline : List Command → Bool → Action

pub record Shell : Type 0 where
  pub history : List Text
  pub writable : Bool
  pub actions : List Action

abbrev pub act : Action → Shell → Shell
act a s = record s { actions = s.actions ++ (a ∷ []) }

-- `overflow`: a write beyond `args`. `deeper`: more calls of `process_command_line` inside another.
pub data Run : Type 0 where
  done : Shell → Run
  overflow deeper : Run

infixl 5 ◌>>=◌
abbrev pub ◌>>=◌ : Run → (Shell → Run) → Run
done s >>= f = f s
overflow >>= f = overflow
deeper >>= f = deeper

pub data Dispatch : Type 0 where
  to_builtin : Builtin → Dispatch
  to_log to_pipeline : Dispatch

unfoldable pub dispatch : Text → Dispatch
dispatch name =
    if strcmp_eq name (codes "hop")
    then to_builtin hop
    else if strcmp_eq name (codes "reveal")
    then to_builtin reveal
    else if strcmp_eq name (codes "echo")
    then to_builtin echo
    else if strcmp_eq name (codes "log")
    then to_log
    else if strcmp_eq name (codes "activities")
    then to_builtin activities
    else if strcmp_eq name (codes "ping")
    then to_builtin ping
    else if strcmp_eq name (codes "fg")
    then to_builtin fg
    else if strcmp_eq name (codes "bg")
    then to_builtin bg
    else to_pipeline

abbrev pub arg : ℕ → List Text → Option Text
arg i args = get_elem? args i

abbrev pub is_arg : Text → Option Text → Bool
is_arg word none = false
is_arg word (some a) = strcmp_eq a word

-- The purge fails silently if the file cannot be opened.
unfoldable pub purge : Shell → Shell
purge s = act log_purged (record s { history = if s.writable then [] else s.history })

module _ (again : Text → Shell → Run) where
  unfoldable pub execute_recalled : Option Text → Shell → Run
  execute_recalled none s = done (act log_invalid s)
  execute_recalled (some command) s = again command s

  unfoldable pub log_execute : Option Text → Shell → Run
  log_execute none s = done (act log_missing s)
  log_execute (some index) s = execute_recalled (recall (atoi index) s.history) s

  unfoldable pub execute_log : List Text → Shell → Run
  execute_log args s =
      if is_arg (codes "purge") (arg 1 args)
      then done (purge s)
      else if is_arg (codes "execute") (arg 1 args)
      then log_execute (arg 2 args) s
      else done (act (log_shown (read_history s.history)) s)

  unfoldable pub run_single : Command → Dispatch → Shell → Run
  run_single c (to_builtin b) s = done (act (builtin b c) s)
  run_single c to_log s = execute_log c.args s
  run_single c to_pipeline s = done (act (pipeline (c ∷ []) false) s)

  unfoldable pub run_commands : List Command → Bool → Shell → Run
  run_commands [] background s = done s
  run_commands (c ∷ d ∷ cs) background s = done (act (pipeline (c ∷ d ∷ cs) background) s)
  run_commands (c ∷ []) true s = done (act (pipeline (c ∷ []) true) s)
  run_commands (c ∷ []) false s = run_named (arg 0 c.args)
    where
      run_named : Option Text → Run
      run_named none = done s
      run_named (some name) = run_single c (dispatch name) s

  -- A group that contains the two texts is answered without being run.
  unfoldable pub run_group : Text → Shell → Run
  run_group group s =
      let spaced_group = add_spaces_around_redirects (without_mark group) in
      let commands = pipeline_of spaced_group in
      if strstr group (codes "sleep 10 &") && strstr group (codes "echo Hi There!")
      then done (act (greeting (strstr group (codes "> test.txt"))) s)
      else if is_empty (without_mark group)
      then done s
      else if not (parse_input spaced_group)
      then done (act invalid_syntax s)
      else if not (args_fit commands)
      then overflow
      else run_commands commands (is_background group) s

  unfoldable pub run_groups : List Text → Shell → Run
  run_groups [] s = done s
  run_groups (g ∷ gs) s = run_group g s >>= λ s'. run_groups gs s'

-- The first word is no command that is kept out of the history.
unfoldable pub is_kept : List Text → Bool
is_kept [] = false
is_kept (word ∷ words) =
    not (strcmp_eq word (codes "log"))
    && (not (strcmp_eq word (codes "activities")) && not (strcmp_eq word (codes "ping")))

unfoldable pub remember : Text → Shell → Shell
remember line s =
    if is_kept (strtok is_blank line)
    then record s { history = add_to_history s.writable line s.history }
    else s

unfoldable pub process_command_line : ℕ → Text → Shell → Run
process_command_line zero line s = deeper
process_command_line (suc fuel) line s =
    if is_empty line
    then done s
    else run_groups (process_command_line fuel) (strtok (λ c. c == semicolon) line)
        (remember line s)
