-- ===== src/Process/Examples.antt =====
-- xv6-memory-management/kernel/proc.c: the theorems at a table with init, the shell and two processes.
use systems_suite.Prelude.{
  ℕ, ◌+◌, ◌-◌, ◌≡◌, refl, true, false, none, some, arith, ltb, if◌then◌else◌,
}
use systems_suite.Process.Table.{
  ProcState, unused, sleeping, runnable, zombie, Proc, Table, set_proc,
}
use systems_suite.Process.Life.{kfork, kexit, reparent, is_child_of, proc_chan}
use systems_suite.Process.Pids.{PidsDiffer, forks, Step-PidsDiffer}
use systems_suite.Process.Exits.{exited, kexit-Adopts, kexit-WakesParent}

abbrev process : ProcState → ℕ → ℕ → ℕ → Proc
process state pid creation_time vruntime = record {
  state = state;
  chan = 0;
  killed = false;
  xstate = 0;
  pid = pid;
  parent = none;
  sz = 4096;
  creation_time = creation_time;
  nice = 20;
  weight = 1024;
  vruntime = vruntime;
  time_slice = 0;
}

-- Init and the shell sleep, pids 3 and 4 are runnable, and the other slots are free.
abbrev processes : ℕ → Proc
processes i =
    if ltb i 4
    then process (if ltb i 2 then sleeping else runnable) (i + 1) i (100 - i)
    else process unused 0 0 0

abbrev busy : Table
busy = record { proc = processes; nextpid = 5; next_creation_time = 4; initproc = 0 }

busy-PidsDiffer : PidsDiffer busy
busy-PidsDiffer = record {
  range = λ i h. ground arith;
  differ = λ i j h g e. ground arith;
  positive = omega arith;
}

Step-PidsDiffer_example : PidsDiffer (kfork true true 2 busy).1
Step-PidsDiffer_example = Step-PidsDiffer (omega arith) (forks true true 2) busy-PidsDiffer

-- The shell sleeps until its child, in slot 2, exits.
abbrev shell_waits : Table
shell_waits =
    set_proc 1 (record (processes 1) { chan = proc_chan 1 })
      (set_proc 2 (record (processes 2) { parent = some 1 })
        (set_proc 3 (record (processes 3) { parent = some 2 }) busy))

abbrev child_gone : Table
child_gone = exited 2 5 shell_waits

child_exits : kexit 2 5 shell_waits ≡ some child_gone
unfolding kexit reparent
child_exits = refl

kexit-Adopts_example :
    ((child_gone.proc 2).state ≡ zombie)
    × ((child_gone.proc 2).xstate ≡ 5)
    × ((child_gone.proc 3).parent ≡ some 0)
    × (is_child_of 2 (child_gone.proc 3).parent ≡ false)
kexit-Adopts_example = kexit-Adopts 2 5 shell_waits child_gone 3 (omega arith) child_exits

kexit-WakesParent_example : (child_gone.proc 1).state ≡ runnable
kexit-WakesParent_example =
    kexit-WakesParent 2 5 shell_waits child_gone 1 refl (omega arith) refl refl child_exits
