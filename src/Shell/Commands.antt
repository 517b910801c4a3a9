-- ===== src/Shell/Commands.antt =====
-- posix-shell/src/shell.c, `process_command_line`: from a group of commands to its pipeline.
use systems_suite.Prelude.{
  ℕ, zero, suc, Bool, true, false, ◌&&◌, Option, none, some, List, [], ◌∷◌, ◌++◌, ltb, ◌==◌,
  if◌then◌else◌, length,
}
use systems_suite.Shell.Text.{
  Text, codes, strcmp_eq, strtok, is_blank, trim_back, last, but_last, is_char,
}
use systems_suite.Shell.Spacing.{pipe}
use systems_suite.Shell.Parser.{ampersand}

abbrev pub max_args : ℕ
max_args = 64

abbrev pub max_piped_cmds : ℕ
max_piped_cmds = 16

pub record Command : Type 0 where
  pub args : List Text
  pub input_file : Option Text
  pub output_file : Option Text
  pub append_output : Bool

abbrev pub no_command : Command
no_command = record { args = []; input_file = none; output_file = none; append_output = false }

-- The background mark: an ampersand behind which there are only spaces. It is cut off together with
-- what follows.
unfoldable pub is_background : Text → Bool
is_background group = is_char ampersand (last (trim_back group))

unfoldable pub without_mark : Text → Text
without_mark group = if is_background group then but_last (trim_back group) else group

pub data TokenKind : Type 0 where
  reads_from writes_to appends_to is_word : TokenKind

unfoldable pub kind_of : Text → TokenKind
kind_of token =
    if strcmp_eq token (codes "<")
    then reads_from
    else if strcmp_eq token (codes ">")
    then writes_to
    else if strcmp_eq token (codes ">>")
    then appends_to
    else is_word

-- What a file name, or the want of one, does to the command.
unfoldable pub redirect : TokenKind → Text → Command → Command
redirect reads_from file c = record c { input_file = some file }
redirect writes_to file c = record c { output_file = some file; append_output = false }
redirect appends_to file c = record c { output_file = some file; append_output = true }
redirect is_word file c = record c { args = c.args ++ (file ∷ []) }

unfoldable pub gather : List Text → Command → Command
gather [] c = c
gather (t ∷ []) c = elim (kind_of t) [
  | reads_from ↦ c
  | writes_to ↦ c
  | appends_to ↦ c
  | is_word ↦ redirect is_word t c
]
gather (t ∷ u ∷ ts) c = elim (kind_of t) [
  | reads_from ↦ gather ts (redirect reads_from u c)
  | writes_to ↦ gather ts (redirect writes_to u c)
  | appends_to ↦ gather ts (redirect appends_to u c)
  | is_word ↦ gather (u ∷ ts) (redirect is_word t c)
]

-- A command without words is overwritten by the next.
unfoldable pub command_of : Text → List Command
command_of segment =
    let c = gather (strtok is_blank segment) no_command in if length c.args == 0 then [] else c ∷ []

-- At most `room` commands: the rest of the pipeline is dropped.
unfoldable pub commands_of : ℕ → List Text → List Command
commands_of zero segments = []
commands_of (suc room) [] = []
commands_of (suc room) (s ∷ ss) = elim (command_of s) [
  | [] ↦ commands_of (suc room) ss
  | c ∷ _ ↦ c ∷ commands_of room ss
]

unfoldable pub pipeline_of : Text → List Command
pipeline_of spaced_group = commands_of max_piped_cmds (strtok (λ c. c == pipe) spaced_group)

-- The words of each command leave room for the NULL behind them in `args`.
unfoldable pub args_fit : List Command → Bool
args_fit [] = true
args_fit (c ∷ cs) = let rest = args_fit cs in ltb (length c.args) max_args && rest
