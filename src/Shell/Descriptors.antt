-- ===== src/Shell/Descriptors.antt =====
-- posix-shell/src/execute.c, `execute_pipeline`: the file descriptors of the shell and of its children.
-- What `pipe` and `open` return are arguments.
use systems_suite.Prelude.{ℕ, zero, suc, ◌-◌, Bool, Option, none, some, ltb, if◌then◌else◌, write}
use systems_suite.Shell.Text.{Text}
use systems_suite.Shell.Commands.{Command}

-- What a descriptor stands for: an end of the pipeline's pipe `k`, a file that was opened, or anything
-- that the shell had before.
pub data Stream : Type 0 where
  read_end write_end : (k : ℕ) → Stream
  input : Text → Stream
  output : Text → Bool → Stream
  other : ℕ → Stream

-- A process's table of descriptors.
abbrev pub Descriptors : Type 0
Descriptors = ℕ → Option Stream

-- The descriptors of pipe `k`: `pipes[k][0]` and `pipes[k][1]`.
pub record Pipe : Type 0 where
  pub reads : ℕ
  pub writes : ℕ

unfoldable pub dup2 : ℕ → ℕ → Descriptors → Descriptors
dup2 old new t = write t new (t old)

unfoldable pub close : ℕ → Descriptors → Descriptors
close fd t = write t fd none

-- `pipe` for the first `n` pipes.
unfoldable pub open_pipes : ℕ → (ℕ → Pipe) → Descriptors → Descriptors
open_pipes zero pipes t = t
open_pipes (suc n) pipes t =
    write (write (open_pipes n pipes t) (pipes n).reads (some (read_end n))) (pipes n).writes
      (some (write_end n))

unfoldable pub close_pipes : ℕ → (ℕ → Pipe) → Descriptors → Descriptors
unfolding close
close_pipes zero pipes t = t
close_pipes (suc n) pipes t = close (pipes n).writes (close (pipes n).reads (close_pipes n pipes t))

-- The pipes of child `i` of `num_cmds` become its standard input and output; all ends are closed.
unfoldable pub attach_pipes : ℕ → (ℕ → Pipe) → ℕ → Descriptors → Descriptors
unfolding dup2 close_pipes
attach_pipes num_cmds pipes i t =
    let fed = if ltb 0 i then dup2 (pipes (i - 1)).reads 0 t else t in
    let feeding = if ltb i (num_cmds - 1) then dup2 (pipes i).writes 1 fed else fed in
    close_pipes (num_cmds - 1) pipes feeding

-- A file in the place of a standard descriptor, where `fd` is what `open` returns; `none` ends the
-- child.
unfoldable pub redirect_to : ℕ → Option Stream → Option ℕ → Descriptors → Option Descriptors
unfolding dup2 close
redirect_to target none fd t = some t
redirect_to target (some file) none t = none
redirect_to target (some file) (some fd) t =
    some (close fd (dup2 fd target (write t fd (some file))))

abbrev pub input_of : Command → Option Stream
input_of c = elim c.input_file [ none ↦ none | some name ↦ some (input name) ]

abbrev pub output_of : Command → Option Stream
output_of c = elim c.output_file [ none ↦ none | some name ↦ some (output name c.append_output) ]

-- The descriptors with which child `i` comes to its command, if it does.
unfoldable pub child_descriptors :
    ℕ → (ℕ → Pipe) → ℕ → Command → Option ℕ → Option ℕ → Descriptors → Option Descriptors
child_descriptors num_cmds pipes i c in_fd out_fd t =
    elim (redirect_to 0 (input_of c) in_fd (attach_pipes num_cmds pipes i t)) [
      | none ↦ none
      | some t' ↦ redirect_to 1 (output_of c) out_fd t'
    ]

-- The shell after its children were made.
unfoldable pub parent_descriptors : ℕ → (ℕ → Pipe) → Descriptors → Descriptors
unfolding open_pipes close_pipes
parent_descriptors num_cmds pipes t =
    close_pipes (num_cmds - 1) pipes (open_pipes (num_cmds - 1) pipes t)
