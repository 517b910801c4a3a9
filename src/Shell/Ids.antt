-- ===== src/Shell/Ids.antt =====
-- posix-shell/src/jobs.c: the ids of the jobs.
use systems_suite.Prelude.{
  ℕ, ◌+◌, ◌^◌, ◌≤◌, ◌<◌, ◌≡◌, true, Option, none, some, List, [], ◌∷◌, arith,
}
use systems_suite.Shell.Jobs.{
  max_jobs, JobState, JobTable, in_use, initialize_jobs, add_at, add_job, free_at,
  remove_job_by_pgid, Report, ended, stopped, stop_at, reap_one, reap_background_jobs,
}

-- The jobs of the table have ids of their own, from 1 on and below the next one.
pub record IdsOk (t : JobTable) : Type 0 where
  pub range :
      (i : ℕ)
      → i < max_jobs
      → in_use (t.job_list i) ≡ true
      → (1 ≤ (t.job_list i).job_id) × ((t.job_list i).job_id < t.next_job_id)
  pub differ :
      (i j : ℕ)
      → i < max_jobs
      → j < max_jobs
      → in_use (t.job_list i) ≡ true
      → in_use (t.job_list j) ≡ true
      → (t.job_list i).job_id ≡ (t.job_list j).job_id
      → i ≡ j
  pub positive : 1 ≤ t.next_job_id

initialize_jobs-IdsOk : (t : JobTable) → IdsOk (initialize_jobs t)
unfolding initialize_jobs
initialize_jobs-IdsOk t = record {
  range = λ i lt used. absurd (ground (arith, used, lt));
  differ = λ i j lt lt' used. absurd (ground (arith, used, lt));
  positive = omega arith;
}

add_at-IdsOk :
    (pgid : ℕ) (name : List ℕ) (state : JobState) (o : Option ℕ) (t : JobTable)
    → t.next_job_id + 1 < 2 ^ 31
    → IdsOk t
    → IdsOk (add_at pgid name state o t).1
unfolding add_at
add_at-IdsOk pgid name state none t low h = h
add_at-IdsOk pgid name state (some k) t low h = record {
  range = λ i lt used. ground (arith, h.range i lt, h.positive);
  differ =
      λ i j lt lt' used used' e. ground (arith, h.range i lt, h.range j lt', h.differ i j lt lt');
  positive = omega arith;
}

free_at-IdsOk : (o : Option ℕ) (t : JobTable) → IdsOk t → IdsOk (free_at o t)
unfolding free_at
free_at-IdsOk none t h = h
free_at-IdsOk (some k) t h = record {
  range = λ i lt used. ground (arith, h.range i lt);
  differ = λ i j lt lt' used used' e. ground (arith, h.differ i j lt lt');
  positive = h.positive;
}

stop_at-IdsOk : (o : Option ℕ) (t : JobTable) → IdsOk t → IdsOk (stop_at o t)
unfolding stop_at
stop_at-IdsOk none t h = h
stop_at-IdsOk (some k) t h = record {
  range = λ i lt used. ground (arith, h.range i lt);
  differ = λ i j lt lt' used used' e. ground (arith, h.differ i j lt lt');
  positive = h.positive;
}

reap_one-IdsOk : (r : Report) (t : JobTable) → IdsOk t → IdsOk (reap_one r t)
unfolding reap_one remove_job_by_pgid
reap_one-IdsOk (ended pgid) t h = free_at-IdsOk _ t h
reap_one-IdsOk (stopped pgid) t h = stop_at-IdsOk _ t h

reap-IdsOk : (rs : List Report) (t : JobTable) → IdsOk t → IdsOk (reap_background_jobs rs t)
unfolding reap_background_jobs
reap-IdsOk [] t h = h
reap-IdsOk (r ∷ rs) t h = reap-IdsOk rs (reap_one r t) (reap_one-IdsOk r t h)

-- What the shell does to its table.
pub data Use (t : JobTable) : JobTable → Type 0 where
  initializes : Use t (initialize_jobs t)
  adds : (pgid : ℕ) (name : List ℕ) (state : JobState) → Use t (add_job pgid name state t).1
  removes : (pgid : ℕ) → Use t (remove_job_by_pgid pgid t)
  reaps : (rs : List Report) → Use t (reap_background_jobs rs t)

-- While the next id is below 2^31 - 1, setting up the table, adding and removing a job, and reaping
-- children that ended or stopped keep the ids of the jobs in use different, from 1 on and below the
-- next one.
pub Use-IdsOk : {t u : JobTable} → t.next_job_id + 1 < 2 ^ 31 → Use t u → IdsOk t → IdsOk u
unfolding add_job remove_job_by_pgid
Use-IdsOk {t} low initializes h = initialize_jobs-IdsOk t
Use-IdsOk {t} low (adds pgid name state) h = add_at-IdsOk pgid name state _ t low h
Use-IdsOk {t} low (removes pgid) h = free_at-IdsOk _ t h
Use-IdsOk {t} low (reaps rs) h = reap-IdsOk rs t h
