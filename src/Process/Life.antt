-- ===== src/Process/Life.antt =====
-- xv6-memory-management/kernel/proc.c: the life of a process, from `allocproc` to `kwait`. The outcome
-- of each allocation and copy is an argument; files, memory and registers are left out here.
use systems_suite.Prelude.{
  ℕ, zero, suc, ◌+◌, ◌-◌, ◌^◌, Bool, true, false, not, ◌&&◌, ◌||◌, Option, none, some, ltb, ◌==◌,
  if◌then◌else◌, write, earliest,
}
use systems_suite.Process.Table.{
  nproc, unused, used, sleeping, runnable, zombie, is_unused, is_sleeping, is_zombie, Proc, Table,
  set_proc, nth, nice_to_weight, is_user_runnable, first_such, allocpid,
}

-- The scan of `allocproc` for the least `vruntime` of a runnable user process; 0 if there is none.
-- A least value of 2^64 - 1 counts as none.
unfoldable pub min_vruntime : Table → ℕ
min_vruntime t =
    elim (earliest (λ i. is_user_runnable (t.proc i)) (λ i. (t.proc i).vruntime) nproc) [
      | none ↦ 0
      | some i ↦ if (t.proc i).vruntime == 2 ^ 64 - 1 then 0 else (t.proc i).vruntime
    ]

unfoldable pub freeproc : ℕ → Table → Table
freeproc i t =
    set_proc i
      (record (t.proc i) {
        sz = 0;
        pid = 0;
        parent = none;
        chan = 0;
        killed = false;
        xstate = 0;
        creation_time = 0;
        state = unused;
      })
      t

-- Slot `i`, which was unused, gets a pid, the scheduler's fields and a creation time.
unfoldable pub init_proc : ℕ → Table → Table
unfolding allocpid min_vruntime
init_proc i t =
    let (pid, t') = allocpid t in
    record t' {
      proc = write t.proc i (record (t.proc i) {
        pid = pid;
        state = used;
        nice = 20;
        weight = nth nice_to_weight 20;
        vruntime = min_vruntime t;
        time_slice = 0;
        creation_time = t.next_creation_time;
      });
      next_creation_time = t.next_creation_time + 1;
    }

-- `allocated` says whether `kalloc` and `proc_pagetable` both succeed.
unfoldable pub allocproc_at : Bool → Option ℕ → Table → Option ℕ × Table
unfolding init_proc freeproc
allocproc_at allocated none t = (none, t)
allocproc_at true (some i) t = (some i, init_proc i t)
allocproc_at false (some i) t = (none, freeproc i (init_proc i t))

unfoldable pub allocproc : Bool → Table → Option ℕ × Table
unfolding allocproc_at first_such
allocproc allocated t =
    allocproc_at allocated (first_such (λ i. is_unused (t.proc i).state) nproc) t

-- The scan of `kfork`, which keeps 2^64 - 1 for "none yet".
unfoldable pub least_vruntime : (ℕ → Proc) → ℕ → ℕ
least_vruntime proc zero = 2 ^ 64 - 1
least_vruntime proc (suc n) =
    let least = least_vruntime proc n in
    if is_user_runnable (proc n) && (least == 2 ^ 64 - 1 || ltb (proc n).vruntime least)
    then (proc n).vruntime
    else least

unfoldable pub child_vruntime : ℕ → Table → ℕ
unfolding least_vruntime
child_vruntime p t =
    let least = least_vruntime t.proc nproc in
    if least == 2 ^ 64 - 1 then (t.proc p).vruntime else least

-- The child in slot `i` of the process in slot `p`, once `uvmcopy` has succeeded.
unfoldable pub init_child : ℕ → ℕ → Table → Table
unfolding child_vruntime
init_child p i t =
    set_proc i
      (record (t.proc i) {
        sz = (t.proc p).sz;
        nice = (t.proc p).nice;
        weight = (t.proc p).weight;
        vruntime = child_vruntime p t;
        parent = some p;
        state = runnable;
      })
      t

unfoldable pub kfork_from : Bool → ℕ → Option ℕ × Table → Option ℕ × Table
unfolding init_child freeproc
kfork_from copied p (none, t) = (none, t)
kfork_from true p (some i, t) = (some (t.proc i).pid, init_child p i t)
kfork_from false p (some i, t) = (none, freeproc i t)

-- The pid of the child, or `none` for -1.
unfoldable pub kfork : Bool → Bool → ℕ → Table → Option ℕ × Table
unfolding kfork_from allocproc
kfork allocated copied p t = kfork_from copied p (allocproc allocated t)

-- A process sleeps on the address of an entry of the table: a channel for each slot.
abbrev pub proc_chan : ℕ → ℕ
proc_chan i = i + 1

abbrev pub parent_chan : Option ℕ → ℕ
parent_chan none = 0
parent_chan (some i) = proc_chan i

-- `wakeup(chan)`, called by the process in slot `me`.
unfoldable pub wakeup : ℕ → ℕ → Table → Table
wakeup me chan t = record t {
  proc = λ i.
      if not (i == me) && (is_sleeping (t.proc i).state && (t.proc i).chan == chan)
      then record (t.proc i) { state = runnable }
      else t.proc i;
}

abbrev pub is_child_of : ℕ → Option ℕ → Bool
is_child_of p none = false
is_child_of p (some q) = q == p

-- One round of the loop of `reparent`.
unfoldable pub reparent_slot : ℕ → ℕ → Table → Table
unfolding wakeup
reparent_slot i p t =
    if is_child_of p (t.proc i).parent
    then (let t' = set_proc i (record (t.proc i) { parent = some t.initproc }) t in
        if is_zombie (t.proc i).state then wakeup p (proc_chan t.initproc) t' else t')
    else t

unfoldable pub reparent_below : ℕ → ℕ → Table → Table
unfolding reparent_slot
reparent_below zero p t = t
reparent_below (suc n) p t = reparent_slot n p (reparent_below n p t)

unfoldable pub reparent : ℕ → Table → Table
unfolding reparent_below
reparent p t = reparent_below nproc p t

-- `none` is the panic of an exiting init.
unfoldable pub kexit : ℕ → ℕ → Table → Option Table
unfolding reparent wakeup
kexit p status t =
    if p == t.initproc
    then none
    else (let t' = reparent p t in
        let t'' = wakeup p (parent_chan (t'.proc p).parent) t' in
        some (set_proc p (record (t''.proc p) { xstate = status; state = zombie }) t''))

pub data WaitResult : Type 0 where
  reaped : (pid : ℕ) → WaitResult
  failed : WaitResult  -- returns -1
  sleeps : WaitResult  -- and looks again after a wakeup

-- `sleep(chan)` up to the switch.
unfoldable pub sleep : ℕ → ℕ → Table → Table
sleep p chan t = set_proc p (record (t.proc p) { chan = chan; state = sleeping }) t

-- The end of `sleep`, when the process runs again.
unfoldable pub wake : ℕ → Table → Table
wake p t = set_proc p (record (t.proc p) { chan = 0 }) t

-- With no zombie child at hand.
unfoldable pub kwait_none : ℕ → Table → WaitResult × Table
unfolding sleep first_such
kwait_none p t = elim (first_such (λ i. is_child_of p (t.proc i).parent) nproc) [
  | none ↦ (failed, t)
  | some _ ↦ if (t.proc p).killed then (failed, t) else (sleeps, sleep p (proc_chan p) t)
]

-- One scan of `kwait`; `copied` says whether the exit status could be copied out, or was not asked for.
unfoldable pub kwait : Bool → ℕ → Table → WaitResult × Table
unfolding kwait_none freeproc
kwait copied p t =
    elim (first_such (λ i. is_child_of p (t.proc i).parent && is_zombie (t.proc i).state) nproc) [
      | none ↦ kwait_none p t
      | some i ↦ if copied then (reaped (t.proc i).pid, freeproc i t) else (failed, t)
    ]

unfoldable pub kill_slot : ℕ → Table → Table
kill_slot i t =
    set_proc i
      (record (t.proc i) {
        killed = true;
        state = if is_sleeping (t.proc i).state then runnable else (t.proc i).state;
      })
      t

-- Whether a process was found, and the table.
unfoldable pub kkill : ℕ → Table → Bool × Table
unfolding kill_slot first_such
kkill pid t = elim (first_such (λ i. (t.proc i).pid == pid) nproc) [
  | none ↦ (false, t)
  | some i ↦ (true, kill_slot i t)
]

unfoldable pub setkilled : ℕ → Table → Table
setkilled p t = set_proc p (record (t.proc p) { killed = true }) t

unfoldable pub yield : ℕ → Table → Table
yield p t = set_proc p (record (t.proc p) { state = runnable }) t
