-- ===== src/Shell/Plumbing.antt =====
-- posix-shell/src: pipelines, directories and jobs at concrete inputs.
use systems_suite.Prelude.{
  ℕ, ◌+◌, ◌*◌, refl, false, none, some, [], ◌∷◌, arith, ◌==◌, if◌then◌else◌,
}
use systems_suite.Shell.Text.{codes}
use systems_suite.Shell.Commands.{Command, no_command}
use systems_suite.Shell.Descriptors.{
  read_end, output, other, Descriptors, Pipe, open_pipes, child_descriptors,
}
use systems_suite.Shell.Pipes.{Fresh}
use systems_suite.Shell.Attach.{with_standard}
use systems_suite.Shell.Wiring.{Wired, child_wiring}

-- The shell's three descriptors.
abbrev standard : Descriptors
standard fd =
    if fd == 0
    then some (other 0)
    else if fd == 1
    then some (other 1)
    else if fd == 2
    then some (other 2)
    else none

abbrev next_pipes : ℕ → Pipe
next_pipes k = record { reads = 3 + 2 * k; writes = 4 + 2 * k }

next_pipes-Fresh : Fresh 2 next_pipes standard
next_pipes-Fresh = record {
  reads_high = λ k lt. omega arith;
  writes_high = λ k lt. omega arith;
  reads_apart = λ j k lt lt' e. absurd (omega arith);
  writes_apart = λ j k lt lt' e. absurd (omega arith);
  crossed = λ j k lt lt' e. absurd (omega arith);
  reads_unused = λ k lt. ground arith;
  writes_unused = λ k lt. ground arith;
}

abbrev sorting : Command
sorting = record no_command { args = codes "sort" ∷ []; output_file = some (codes "out") }

child_wiring_example :
    Wired false
      (child_descriptors 3 next_pipes 1 sorting none (some 7) (open_pipes 2 next_pipes standard))
      (with_standard (some (read_end 0)) (some (output (codes "out") false)) standard)
child_wiring_example =
    child_wiring 3 1 next_pipes sorting none (some 7) standard (omega arith) next_pipes-Fresh tt
      (omega arith, refl)
