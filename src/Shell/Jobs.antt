-- ===== src/Shell/Jobs.antt =====
-- posix-shell/src/jobs.c and include/jobs.h: the table of jobs. Process group ids that a free entry
-- does not have are numbers, and -1 is `none`; what is printed is left out.
use systems_suite.Prelude.{
  ℕ, zero, suc, ◌+◌, ◌-◌, ◌%◌, ◌^◌, Bool, true, false, ◌&&◌, Option, none, some, List, [], ◌∷◌, ltb,
  ◌==◌, if◌then◌else◌, take, write,
}
use systems_suite.Process.Table.{first_such}

abbrev pub max_jobs : ℕ
max_jobs = 64

abbrev pub max_cmd_name : ℕ
max_cmd_name = 1024

pub data JobState : Type 0 where
  is_running is_stopped : JobState

pub record Job : Type 0 where
  pub pgid : Option ℕ
  pub command_name : List ℕ
  pub state : JobState
  pub job_id : ℕ

pub record JobTable : Type 0 where
  pub job_list : ℕ → Job
  pub next_job_id : ℕ

abbrev pub in_use : Job → Bool
in_use job = elim job.pgid [ none ↦ false | some _ ↦ true ]

abbrev pub has_pgid : ℕ → Job → Bool
has_pgid pgid job = elim job.pgid [ none ↦ false | some p ↦ p == pgid ]

unfoldable pub initialize_jobs : JobTable → JobTable
initialize_jobs t = record {
  job_list = λ i. if ltb i max_jobs then record (t.job_list i) { pgid = none } else t.job_list i;
  next_job_id = 1;
}

-- The first free entry takes the job, with its name cut to the buffer's length. An id is an `int`,
-- here as its 32 bits: from 2 ^ 31 on it is negative.
unfoldable pub add_at : ℕ → List ℕ → JobState → Option ℕ → JobTable → Option ℕ × JobTable
add_at pgid name state none t = (none, t)
add_at pgid name state (some i) t = (
  some i,
  record t {
    job_list = write t.job_list i (record {
      pgid = some pgid;
      command_name = take (max_cmd_name - 1) name;
      state = state;
      job_id = t.next_job_id;
    });
    next_job_id = (t.next_job_id + 1) % 2 ^ 32;
  },
)

abbrev pub is_free : Job → Bool
is_free job = elim job.pgid [ none ↦ true | some _ ↦ false ]

unfoldable pub add_job : ℕ → List ℕ → JobState → JobTable → Option ℕ × JobTable
unfolding add_at first_such
add_job pgid name state t =
    add_at pgid name state (first_such (λ i. is_free (t.job_list i)) max_jobs) t

unfoldable pub free_at : Option ℕ → JobTable → JobTable
free_at none t = t
free_at (some i) t = record t {
  job_list = write t.job_list i (record (t.job_list i) { pgid = none });
}

unfoldable pub remove_job_by_pgid : ℕ → JobTable → JobTable
unfolding free_at first_such
remove_job_by_pgid pgid t = free_at (first_such (λ i. has_pgid pgid (t.job_list i)) max_jobs) t

unfoldable pub get_job_by_jid : ℕ → JobTable → Option ℕ
unfolding first_such
get_job_by_jid jid t =
    first_such (λ i. in_use (t.job_list i) && (t.job_list i).job_id == jid) max_jobs

-- A negative id is not above `max_jid`'s first value, -1.
unfoldable pub newer : JobTable → ℕ → Option ℕ → Option ℕ
newer t i none = some i
newer t i (some recent) =
    if ltb (t.job_list recent).job_id (t.job_list i).job_id then some i else some recent

unfoldable pub most_recent_below : ℕ → JobTable → Option ℕ
unfolding newer
most_recent_below zero t = none
most_recent_below (suc n) t =
    let recent = most_recent_below n t in
    if in_use (t.job_list n) && ltb (t.job_list n).job_id (2 ^ 31) then newer t n recent else recent

unfoldable pub get_most_recent_job : JobTable → Option ℕ
unfolding most_recent_below
get_most_recent_job t = most_recent_below max_jobs t

-- What `waitpid` reports of a child: it has ended, or it has stopped.
pub data Report : Type 0 where
  ended stopped : (pgid : ℕ) → Report

unfoldable pub stop_at : Option ℕ → JobTable → JobTable
stop_at none t = t
stop_at (some i) t = record t {
  job_list = write t.job_list i (record (t.job_list i) { state = is_stopped });
}

unfoldable pub reap_one : Report → JobTable → JobTable
unfolding remove_job_by_pgid stop_at first_such
reap_one (ended pgid) t = remove_job_by_pgid pgid t
reap_one (stopped pgid) t = stop_at (first_such (λ i. has_pgid pgid (t.job_list i)) max_jobs) t

-- The reports that `waitpid` has for the shell, in order.
unfoldable pub reap_background_jobs : List Report → JobTable → JobTable
unfolding reap_one
reap_background_jobs [] t = t
reap_background_jobs (r ∷ reports) t = reap_background_jobs reports (reap_one r t)
