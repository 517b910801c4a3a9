-- ===== src/Process/Scheduler.antt =====
-- xv6-memory-management/kernel/proc.c, `scheduler`: one round of its loop under each of the three
-- policies. What a process does from `swtch` to its return is the argument `body`.
use systems_suite.Prelude.{
  ℕ, zero, suc, ◌+◌, ◌*◌, ◌/◌, ◌%◌, ◌^◌, Bool, true, false, Option, none, some, ltb, if◌then◌else◌,
  earliest, count,
}
use systems_suite.Process.Table.{
  nproc, running, is_runnable, Table, set_proc, is_user_runnable, first_such,
}

abbrev pub target_latency : ℕ
target_latency = 48

abbrev pub min_time_slice : ℕ
min_time_slice = 3

unfoldable pub num_runnable : Table → ℕ
num_runnable t = count (λ i. is_user_runnable (t.proc i)) nproc

unfoldable pub slice_of : ℕ → ℕ
slice_of n =
    let slice = if ltb 0 n then target_latency / n else target_latency in
    if ltb slice min_time_slice then min_time_slice else slice

-- The system's processes stand in where there is no user process to run.
unfoldable pub any_runnable : Table → Option ℕ
unfolding first_such
any_runnable t = first_such (λ i. is_runnable (t.proc i).state) nproc

abbrev pub or_else {ℓ} : {A : Type ℓ} → Option A → Option A → Option A
or_else (some a) b = some a
or_else none b = b

-- The process that the CFS policy runs.
unfoldable pub cfs_choice : Table → Option ℕ
unfolding any_runnable
cfs_choice t =
    or_else (earliest (λ i. is_user_runnable (t.proc i)) (λ i. (t.proc i).vruntime) nproc)
      (any_runnable t)

-- The process that the FCFS policy runs.
unfoldable pub fcfs_choice : Table → Option ℕ
unfolding any_runnable
fcfs_choice t =
    or_else (earliest (λ i. is_user_runnable (t.proc i)) (λ i. (t.proc i).creation_time) nproc)
      (any_runnable t)

-- What the processes do while they run.
abbrev pub Body : Type 0
Body = ℕ → Table → Table

-- `vruntime += time_slice * 1024 / weight`, on 64 bits.
unfoldable pub charge : ℕ → Table → Table
charge i t =
    set_proc i
      (record (t.proc i) {
        vruntime =
            ((t.proc i).vruntime + (t.proc i).time_slice * 1024 / (t.proc i).weight) % 2 ^ 64;
      })
      t

unfoldable pub cfs_run : Body → ℕ → Option ℕ → Table → Table
unfolding charge
cfs_run body slice none t = t
cfs_run body slice (some i) t =
    charge i (body i (set_proc i (record (t.proc i) { time_slice = slice; state = running }) t))

unfoldable pub cfs_round : Body → Table → Table
unfolding cfs_run cfs_choice slice_of num_runnable
cfs_round body t = cfs_run body (slice_of (num_runnable t)) (cfs_choice t) t

unfoldable pub switch_to : Body → Option ℕ → Table → Table
switch_to body none t = t
switch_to body (some i) t = body i (set_proc i (record (t.proc i) { state = running }) t)

unfoldable pub fcfs_round : Body → Table → Table
unfolding switch_to fcfs_choice
fcfs_round body t = switch_to body (fcfs_choice t) t

-- The pass of the round-robin policy over the slots below `n`: the table, and whether one was run.
unfoldable pub rr_pass : Body → ℕ → Table → Table × Bool
rr_pass body zero t = (t, false)
rr_pass body (suc n) t =
    let (t', found) = rr_pass body n t in
    if is_user_runnable (t'.proc n)
    then (body n (set_proc n (record (t'.proc n) { state = running }) t'), true)
    else (t', found)

unfoldable pub rr_fallback : Body → Table × Bool → Table
unfolding switch_to any_runnable
rr_fallback body (t, true) = t
rr_fallback body (t, false) = switch_to body (any_runnable t) t

unfoldable pub rr_round : Body → Table → Table
unfolding rr_fallback rr_pass
rr_round body t = rr_fallback body (rr_pass body nproc t)
