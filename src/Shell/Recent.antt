-- ===== src/Shell/Recent.antt =====
-- posix-shell/src/jobs.c: the job that was added last.
use systems_suite.Prelude.{
  ℕ, zero, suc, ◌^◌, ◌<◌, ◌≡◌, refl, ◌≢◌, inl, inr, Bool, true, false, ◌&&◌, Option, none, some,
  List, arith, ltb, ◌==◌, if◌then◌else◌, Bool-cases, sym, lt→ltb, dec_lt,
}
use mathlib.Core.Option.{some-injective, none-ne-some}
use systems_suite.Process.Choice.{Searches, first_such-Searches}
use systems_suite.Shell.Jobs.{
  max_jobs, JobState, JobTable, in_use, is_free, add_at, add_job, get_job_by_jid, newer,
  most_recent_below, get_most_recent_job,
}
use systems_suite.Shell.Ids.{IdsOk}

-- A job that a scan finds is one of those it saw.
Seen : JobTable → ℕ → Option ℕ → Type 0
Seen t n none = Unit
Seen t n (some b) = (b < n) × (in_use (t.job_list b) ≡ true)

newer-Seen :
    (t : JobTable) (n : ℕ) (o : Option ℕ) (b : Bool)
    → (b ≡ true → in_use (t.job_list n) ≡ true)
    → Seen t n o
    → Seen t (suc n) (if b then newer t n o else o)
unfolding newer Seen
newer-Seen t n none true used h = (omega arith, used refl)
newer-Seen t n none false used h = tt
newer-Seen t n (some k) true used h =
    elim (Bool-cases (ltb (t.job_list k).job_id (t.job_list n).job_id)) [
      | inl later ↦ rw later (omega arith, used refl)
      | inr old ↦ rw old (omega (arith, h.0), h.1)
    ]
newer-Seen t n (some k) false used h = (omega (arith, h.0), h.1)

most_recent_below-Seen : (t : JobTable) (n : ℕ) → Seen t n (most_recent_below n t)
unfolding most_recent_below Seen
most_recent_below-Seen t zero = tt
most_recent_below-Seen t (suc n) =
    newer-Seen t n (most_recent_below n t)
      (in_use (t.job_list n) && ltb (t.job_list n).job_id (2 ^ 31)) (λ e. ground arith)
      (most_recent_below-Seen t n)

-- Of the first `n` jobs, `k` is in use and no other has an id as great.
record IsNewest (t : JobTable) (k n : ℕ) : Type 0 where
  used : in_use (t.job_list k) ≡ true
  low : (t.job_list k).job_id < 2 ^ 31
  greatest :
      (j : ℕ)
      → j < n
      → in_use (t.job_list j) ≡ true
      → j ≢ k
      → (t.job_list j).job_id < (t.job_list k).job_id

newer_wins :
    (t : JobTable) (k : ℕ) (o : Option ℕ) → IsNewest t k (suc k) → Seen t k o → newer t k o ≡ some k
unfolding newer Seen
newer_wins t k none h seen = refl
newer_wins t k (some b) h seen =
    rw
      (lt→ltb (t.job_list b).job_id (t.job_list k).job_id
        (h.greatest b (omega (arith, seen.0)) seen.1 (λ e. omega (arith, e, seen.0))))
      refl

newest_found : (t : JobTable) (k n : ℕ) → k < n → IsNewest t k n → most_recent_below n t ≡ some k
unfolding most_recent_below newer
newest_found t k zero lt h = elim lt [ ]
newest_found t k (suc n) lt h = elim (dec_lt k n) [
  | yes below ↦
      let ih =
        newest_found t k n below
          (record { used = h.used; low = h.low; greatest = λ j lt'. h.greatest j (omega arith) }) in
      ground (arith, ih, h.greatest n (omega arith))
  | no last ↦
      let e : n ≡ k = omega arith in
      rw e (
        rw (h.used, lt→ltb (t.job_list k).job_id (2 ^ 31) h.low)
          (newer_wins t k (most_recent_below k t) (rw e at h) (most_recent_below-Seen t k)))
]

pub unique_found :
    (fits : ℕ → Bool) (n i : ℕ) (o : Option ℕ)
    → Searches fits n o
    → i < n
    → fits i ≡ true
    → ((j : ℕ) → j < n → fits j ≡ true → j ≡ i)
    → o ≡ some i
unique_found fits n i none f lt fit only = absurd (ground (arith, f i lt, fit))
unique_found fits n i (some k) f lt fit only = rw (only k f.below f.fits_it) refl

-- The table with a job in entry `i`.
abbrev added : ℕ → List ℕ → JobState → ℕ → JobTable → JobTable
added pgid name state i t = (add_at pgid name state (some i) t).1

added-IsNewest :
    (pgid : ℕ) (name : List ℕ) (state : JobState) (i : ℕ) (t : JobTable)
    → t.next_job_id < 2 ^ 31
    → IdsOk t
    → IsNewest (added pgid name state i t) i max_jobs
unfolding add_at
added-IsNewest pgid name state i t low h = record {
  used = ground arith;
  low = ground (arith, low);
  greatest = λ j lt used ne. ground (arith, h.range j lt);
}

added_id :
    (pgid : ℕ) (name : List ℕ) (state : JobState) (i : ℕ) (t : JobTable) (j : ℕ)
    → IdsOk t
    → j < max_jobs
    → let job = (added pgid name state i t).job_list j in
      (in_use job && job.job_id == t.next_job_id) ≡ true → j ≡ i
unfolding add_at
added_id pgid name state i t j h lt e = ground (arith, h.range j lt)

added_there :
    (pgid : ℕ) (name : List ℕ) (state : JobState) (i : ℕ) (t : JobTable)
    → let job = (added pgid name state i t).job_list i in
      (in_use job && job.job_id == t.next_job_id) ≡ true
unfolding add_at
added_there pgid name state i t = ground arith

added_found :
    (pgid : ℕ) (name : List ℕ) (state : JobState) (i : ℕ) (t : JobTable)
    → i < max_jobs
    → t.next_job_id < 2 ^ 31
    → IdsOk t
    → (get_job_by_jid t.next_job_id (added pgid name state i t) ≡ some i)
      × (get_most_recent_job (added pgid name state i t) ≡ some i)
unfolding get_job_by_jid get_most_recent_job
added_found pgid name state i t lt low h =
    let t' = added pgid name state i t in
    let fits = λ (j : ℕ). in_use (t'.job_list j) && (t'.job_list j).job_id == t.next_job_id in
    (
      unique_found fits max_jobs i _ (first_such-Searches fits max_jobs) lt
          (added_there pgid name state i t) (λ j lt'. added_id pgid name state i t j h lt'),
      newest_found t' i max_jobs lt (added-IsNewest pgid name state i t low h),
    )

add_at-found :
    (pgid : ℕ) (name : List ℕ) (state : JobState) (t : JobTable) (o : Option ℕ) (i : ℕ)
    → Searches (λ j. is_free (t.job_list j)) max_jobs o
    → t.next_job_id < 2 ^ 31
    → IdsOk t
    → (add_at pgid name state o t).0 ≡ some i
    → (get_job_by_jid t.next_job_id (add_at pgid name state o t).1 ≡ some i)
      × (get_most_recent_job (add_at pgid name state o t).1 ≡ some i)
unfolding add_at
add_at-found pgid name state t none i f low h e = absurd (none-ne-some i e)
add_at-found pgid name state t (some k) i f low h e =
    rw (sym (some-injective k i e)) (added_found pgid name state k t f.below low h)

-- If the jobs of the table have ids of their own below the next one, which is below 2^31, a job that
-- is added is found by its id and is the most recent one.
pub add_job-found :
    (pgid : ℕ) (name : List ℕ) (state : JobState) (t : JobTable) (i : ℕ)
    → t.next_job_id < 2 ^ 31
    → IdsOk t
    → (add_job pgid name state t).0 ≡ some i
    → (get_job_by_jid t.next_job_id (add_job pgid name state t).1 ≡ some i)
      × (get_most_recent_job (add_job pgid name state t).1 ≡ some i)
unfolding add_job
add_job-found pgid name state t i low h e =
    add_at-found pgid name state t _ i (first_such-Searches (λ j. is_free (t.job_list j)) max_jobs)
      low h e
