-- ===== src/Shell/Loops.antt =====
-- posix-shell/src/shell.c: a line that recalls itself.
use systems_suite.Prelude.{
  ℕ, zero, suc, ◌≤◌, ◌≡◌, refl, ◌∙◌, ap, true, false, List, ◌∷◌, length, ◌==◌,
}
use systems_suite.Shell.Text.{
  Text, codes, strcmp_eq, strtok, is_blank, is_empty, strstr, fields, extend_first, non_empty,
  trim_back, trim_front, trim_whitespace,
}
use systems_suite.Shell.Spacing.{add_spaces_around_redirects, spaced_char}
use systems_suite.Shell.Parser.{
  semicolon, parse_input, lone_ampersand, groups_ok, pipes_ok, any_empty,
}
use systems_suite.Shell.Commands.{
  is_background, without_mark, pipeline_of, commands_of, command_of, gather, redirect, kind_of,
  args_fit,
}
use systems_suite.Shell.History.{max_history_size, add_to_history, recall, atoi, digits}
use systems_suite.Shell.Line.{
  Shell, Action, act, Run, deeper, done, run_group, run_groups, run_commands, run_single,
  execute_log, log_execute, execute_recalled, dispatch, ◌>>=◌, is_kept, remember,
  process_command_line,
}
use systems_suite.Shell.Recall.{add_to_history-recall}

abbrev pub log_execute_1 : Text
log_execute_1 = codes "log execute 1"

log_execute_1-runs :
    (again : Text → Shell → Run) (s : Shell)
    → run_group again log_execute_1 s ≡ execute_recalled again (recall 1 s.history) s
unfolding run_group add_spaces_around_redirects spaced_char without_mark is_background trim_back
    is_empty strstr parse_input lone_ampersand groups_ok pipes_ok any_empty strtok fields
    extend_first non_empty trim_whitespace trim_front pipeline_of commands_of command_of gather
    redirect kind_of args_fit run_commands run_single dispatch execute_log log_execute atoi digits
    strcmp_eq
log_execute_1-runs again s = refl

remember_kept :
    (line : Text) (s : Shell)
    → is_kept (strtok is_blank line) ≡ true
    → s.writable ≡ true
    → remember line s ≡ record s { history = add_to_history true line s.history }
unfolding remember
remember_kept line s kept w = rw (kept, w) refl

-- A line that goes into the history, whose first group does nothing to the history, and whose second
-- is `log execute 1`, calls itself without end: no number of calls is enough.
pub process_command_line-deeper :
    (line g : Text) (gs : List Text) (a : Action)
    → is_empty line ≡ false
    → is_kept (strtok is_blank line) ≡ true
    → strtok (λ c. c == semicolon) line ≡ g ∷ log_execute_1 ∷ gs
    → ((again : Text → Shell → Run) (s : Shell) → run_group again g s ≡ done (act a s))
    → (fuel : ℕ) (s : Shell) → s.writable ≡ true
    → length s.history ≤ max_history_size
    → process_command_line fuel line s ≡ deeper
unfolding process_command_line run_groups execute_recalled
process_command_line-deeper line g gs a some_text kept groups plain zero s w h = refl
process_command_line-deeper line g gs a some_text kept groups plain (suc fuel) s w h =
    let (short, recalled) = add_to_history-recall line s.history h in
    let s' = record s { history = add_to_history true line s.history } in
    rw (some_text, groups, remember_kept line s kept w)
      (ap (λ r. r >>= run_groups (process_command_line fuel) (log_execute_1 ∷ gs))
          (plain (process_command_line fuel) s')
        ∙ ap (λ r. r >>= run_groups (process_command_line fuel) gs)
            (log_execute_1-runs (process_command_line fuel) (act a s')
              ∙ ap (λ c. execute_recalled (process_command_line fuel) c (act a s')) recalled
              ∙ process_command_line-deeper line g gs a some_text kept groups plain fuel (act a s')
                  w short))
