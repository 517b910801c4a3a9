-- ===== src/Shell/Examples.antt =====
-- posix-shell/src: the theorems at a table with one job and at short command lines.
use systems_suite.Prelude.{◌≡◌, refl, ◌==◌, if◌then◌else◌, none, some, [], ◌∷◌, arith}
use systems_suite.Shell.Jobs.{is_running, JobTable, reap_background_jobs, stopped, ended}
use systems_suite.Shell.Ids.{IdsOk, reaps, Use-IdsOk}
use systems_suite.Prelude.{All, List, true, false, length, ◌↔◌, ◌+◌, ◌*◌, ◌≤◌, arith}
use systems_suite.Shell.Text.{
  Text, codes, strcmp_eq, strtok, is_blank, is_empty, strstr, fields, extend_first, non_empty,
  trim_back, trim_front, trim_whitespace,
}
use systems_suite.Shell.Spacing.{add_spaces_around_redirects, spaced_char}
use systems_suite.Shell.Words.{
  operators, without_blanks, IsToken, add_spaces-fits, add_spaces-IsToken,
}
use systems_suite.Shell.Parser.{parse_input, lone_ampersand, groups_ok, pipes_ok, any_empty}
use systems_suite.Shell.Commands.{
  Command, is_background, without_mark, pipeline_of, commands_of, command_of, gather, redirect,
  kind_of, args_fit,
}
use systems_suite.Shell.History.{max_history_size, add_to_history, read_history, repeats, recall}
use systems_suite.Shell.Line.{
  Shell, pipeline, log_shown, act, Run, deeper, done, run_group, run_groups, run_commands,
  run_single, execute_log, dispatch, is_kept, remember, process_command_line,
}
use systems_suite.Shell.Recall.{add_to_history-recall}
use systems_suite.Shell.Loops.{process_command_line-deeper}

abbrev one_job : JobTable
one_job = record {
  job_list = λ i. record {
    pgid = if i == 0 then some 321 else none;
    command_name = [];
    state = is_running;
    job_id = 4;
  };
  next_job_id = 5;
}

one_job-IdsOk : IdsOk one_job
one_job-IdsOk = record {
  range = λ i lt used. (omega arith, omega arith);
  differ = λ i j lt lt' used used' e. ground arith;
  positive = omega arith;
}

Use-IdsOk_example : IdsOk (reap_background_jobs (stopped 321 ∷ ended 321 ∷ []) one_job)
Use-IdsOk_example = Use-IdsOk (omega arith) (reaps (stopped 321 ∷ ended 321 ∷ [])) one_job-IdsOk

add_spaces-fits_example :
    (length (add_spaces_around_redirects (codes "ls|wc")) + 1 ≤ 11)
    ↔ (2 * operators (codes "ls|wc") ≤ 5)
add_spaces-fits_example = add_spaces-fits (codes "ls|wc")

spaced_test : add_spaces_around_redirects (codes "a>>b|c") ≡ codes "a >> b | c"
unfolding add_spaces_around_redirects spaced_char
spaced_test = refl

add_spaces-IsToken_example :
    (without_blanks (add_spaces_around_redirects (codes "a>>b|c")) ≡ codes "a>>b|c")
    × All IsToken (strtok is_blank (add_spaces_around_redirects (codes "a>>b|c")))
add_spaces-IsToken_example = add_spaces-IsToken (codes "a>>b|c")

abbrev two_lines : List Text
two_lines = codes "ls" ∷ codes "wc -l" ∷ []

add_to_history-recall_example :
    (length (add_to_history true (codes "echo hi") two_lines) ≤ max_history_size)
    × (recall 1 (add_to_history true (codes "echo hi") two_lines) ≡ some (codes "echo hi"))
add_to_history-recall_example = add_to_history-recall (codes "echo hi") two_lines (omega arith)

abbrev looping_line : Text
looping_line = codes "ls;log execute 1"

abbrev ls_command : Command
ls_command = record {
  args = codes "ls" ∷ [];
  input_file = none;
  output_file = none;
  append_output = false;
}

abbrev new_shell : Shell
new_shell = record { history = []; writable = true; actions = [] }

ls_plain :
    (again : Text → Shell → Run) (s : Shell)
    → run_group again (codes "ls") s ≡ done (act (pipeline (ls_command ∷ []) false) s)
unfolding run_group add_spaces_around_redirects spaced_char without_mark is_background trim_back
    is_empty strstr parse_input lone_ampersand groups_ok pipes_ok any_empty strtok fields
    extend_first non_empty trim_whitespace trim_front pipeline_of commands_of command_of gather
    redirect kind_of args_fit run_commands run_single dispatch strcmp_eq
ls_plain again s = refl

process_command_line-deeper_example : process_command_line 100 looping_line new_shell ≡ deeper
unfolding strtok fields extend_first non_empty is_kept strcmp_eq is_empty
process_command_line-deeper_example =
    process_command_line-deeper looping_line (codes "ls") [] (pipeline (ls_command ∷ []) false) refl
      refl refl ls_plain 100 new_shell refl (omega arith)

-- Without the loop one call is enough.
plain_test :
    process_command_line 1 (codes "ls; log") new_shell
    ≡ done (record {
      history = codes "ls; log" ∷ [];
      writable = true;
      actions = pipeline (ls_command ∷ []) false ∷ log_shown (codes "ls; log" ∷ []) ∷ [];
    })
unfolding process_command_line remember add_to_history repeats read_history is_kept run_groups
    run_group execute_log add_spaces_around_redirects spaced_char without_mark is_background
    trim_back is_empty strstr parse_input lone_ampersand groups_ok pipes_ok any_empty strtok fields
    extend_first non_empty trim_whitespace trim_front pipeline_of commands_of command_of gather
    redirect kind_of args_fit run_commands run_single dispatch strcmp_eq
plain_test = refl
