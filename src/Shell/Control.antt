-- ===== src/Shell/Control.antt =====
-- posix-shell/src/execute.c and intrinsics.c: the name of a pipeline's job, and `bg` and `ping`. What
-- `kill` answers is an argument.
use systems_suite.Prelude.{
  ℕ, ◌%◌, Bool, true, false, Option, none, some, List, [], ◌∷◌, ◌++◌, ltb, if◌then◌else◌, write,
}
use systems_suite.Shell.Jobs.{
  JobState, is_running, is_stopped, JobTable, get_job_by_jid, get_most_recent_job,
}
use systems_suite.Shell.Text.{Text}
use systems_suite.Shell.Commands.{Command}

-- `args[0]`; the reading of a command line keeps only commands with a word.
abbrev pub first_word : List Text → Text
first_word [] = []
first_word (w ∷ ws) = w

-- The name of a job: the commands' first words, joined by ` | `.
unfoldable pub full_cmd : List Command → Text
full_cmd [] = []
full_cmd (c ∷ []) = first_word c.args
full_cmd (c ∷ d ∷ cs) = first_word c.args ++ (32 ∷ 124 ∷ 32 ∷ full_cmd (d ∷ cs))

-- The argument of `bg`, as `atoi` reads it.
pub data JobArg : Type 0 where
  most_recent below_zero : JobArg
  by_id : ℕ → JobArg

unfoldable pub find_job : JobArg → JobTable → Option ℕ
find_job most_recent t = get_most_recent_job t
find_job below_zero t = none
find_job (by_id n) t = get_job_by_jid n t

abbrev pub set_state : ℕ → JobState → JobTable → JobTable
set_state i state t = record t {
  job_list = write t.job_list i (record (t.job_list i) { state = state });
}

unfoldable pub bg_at : Option ℕ → Bool → JobTable → Bool × JobTable
bg_at none continued t = (false, t)
bg_at (some i) continued t = elim (t.job_list i).state [
  | is_running ↦ (false, t)
  | is_stopped ↦ if continued then (true, set_state i is_running t) else (false, t)
]

unfoldable pub execute_bg : JobArg → Bool → JobTable → Bool × JobTable
unfolding bg_at
execute_bg arg continued t = bg_at (find_job arg t) continued t

-- The signal that `ping` sends for the numbers that `atoi` has read, if it sends one; `none` stands
-- for a word that is missing and for a number below 0.
unfoldable pub ping_signal : Option ℕ → Option ℕ → Option (ℕ × ℕ)
ping_signal none signal = none
ping_signal (some pid) none = none
ping_signal (some pid) (some signal) = if ltb 0 pid then some (pid, signal % 32) else none
