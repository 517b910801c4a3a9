-- ===== src/Process/Unassisted.antt =====
-- xv6-scheduling/xv6-riscv/kernel/proc.c, `scheduler`: the FCFS and round-robin policies of the other
-- kernel, which have no fallback to init and the shell.
use systems_suite.Prelude.{
  ℕ, zero, suc, ◌<◌, ◌≡◌, refl, false, Option, none, some, arith, earliest, Finds, earliest-Finds,
  ap,
}
use systems_suite.Process.Table.{nproc, Table, is_user_runnable}
use systems_suite.Process.Scheduler.{Body, switch_to, rr_pass}

unfoldable pub user_fcfs_choice : Table → Option ℕ
user_fcfs_choice t =
    earliest (λ i. is_user_runnable (t.proc i)) (λ i. (t.proc i).creation_time) nproc

unfoldable pub user_fcfs_round : Body → Table → Table
unfolding user_fcfs_choice switch_to
user_fcfs_round body t = switch_to body (user_fcfs_choice t) t

unfoldable pub user_rr_round : Body → Table → Table
unfolding rr_pass
user_rr_round body t = (rr_pass body nproc t).0

-- With no user process to run, a pass runs none.
idle_pass :
    (body : Body) (t : Table) (n : ℕ)
    → ((i : ℕ) → i < n → is_user_runnable (t.proc i) ≡ false)
    → rr_pass body n t ≡ (t, false)
unfolding rr_pass
idle_pass body t zero idle = refl
idle_pass body t (suc n) idle =
    rw (idle_pass body t n (λ i lt. idle i (omega arith)), idle n (omega arith)) refl

idle_choice :
    (t : Table) (o : Option ℕ)
    → Finds (λ i. is_user_runnable (t.proc i)) (λ i. (t.proc i).creation_time) nproc o
    → ((i : ℕ) → i < nproc → is_user_runnable (t.proc i) ≡ false)
    → o ≡ none
idle_choice t none f idle = refl
idle_choice t (some i) f idle = absurd (ground (arith, idle i f.below, f.fits_it))

-- While no process with a pid above 2 is runnable, rounds of both policies leave the table as it is:
-- init and the shell are not run, runnable or not.
pub system_never_runs :
    (body : Body) (t : Table)
    → ((i : ℕ) → i < nproc → is_user_runnable (t.proc i) ≡ false)
    → (user_fcfs_round body t ≡ t) × (user_rr_round body t ≡ t)
unfolding user_fcfs_round user_rr_round switch_to
system_never_runs body t idle = (
  rw (idle_choice t (user_fcfs_choice t) (earliest-Finds _ _ nproc) idle) refl,
  ap (λ r. r.0) (idle_pass body t nproc idle),
)
