-- ===== src/Process/Choice.antt =====
-- xv6-memory-management/kernel/proc.c, `scheduler`: which process each policy runs.
use systems_suite.Prelude.{
  ℕ, zero, suc, ◌<◌, ◌≡◌, refl, Bool, true, false, Option, none, some, arith, if◌then◌else◌, dec_lt,
  IsEarliest, Finds, earliest-Finds,
}
use systems_suite.Process.Table.{nproc, is_runnable, Table, is_user_runnable, first_such}
use systems_suite.Process.Scheduler.{any_runnable, or_else, fcfs_choice}

-- What a search for the first entry below `n` may answer.
pub record IsFirst (fits : ℕ → Bool) (n i : ℕ) : Type 0 where
  pub below : i < n
  pub fits_it : fits i ≡ true
  pub first : (j : ℕ) → j < i → fits j ≡ false

abbrev pub Searches : (ℕ → Bool) → ℕ → Option ℕ → Type 0
Searches fits n none = (j : ℕ) → j < n → fits j ≡ false
Searches fits n (some i) = IsFirst fits n i

last-Searches :
    (fits : ℕ → Bool) (n : ℕ) (b : Bool)
    → fits n ≡ b
    → ((j : ℕ) → j < n → fits j ≡ false)
    → Searches fits (suc n) (if b then some n else none)
last-Searches fits n true fit none_yet = record {
  below = omega arith;
  fits_it = fit;
  first = none_yet;
}
last-Searches fits n false no_fit none_yet = λ j lt. elim (dec_lt j n) [
  | yes old ↦ none_yet j old
  | no new ↦ let e : j ≡ n = omega arith in rw e no_fit
]

-- A search finds the first entry that passes its test, and one if there is one.
pub first_such-Searches : (fits : ℕ → Bool) (n : ℕ) → Searches fits n (first_such fits n)
unfolding first_such
first_such-Searches fits zero = λ j lt. elim lt [ ]
first_such-Searches fits (suc n) = step (first_such fits n) (first_such-Searches fits n)
  where
    step :
        (o : Option ℕ)
        → Searches fits n o
        → Searches fits
            (suc n)
            (elim o [ none ↦ if fits n then some n else none | some i ↦ some i ])
    step none f = last-Searches fits n (fits n) refl f
    step (some i) f = record {
      below = omega (arith, f.below);
      fits_it = f.fits_it;
      first = f.first;
    }

-- The slot that a policy with the given key runs.
pub data Chosen (t : Table) (key : ℕ → ℕ) : Option ℕ → Type 0 where
  user : (i : ℕ) → IsEarliest (λ j. is_user_runnable (t.proc j)) key nproc i → Chosen t key (some i)
  system :
      (i : ℕ)
      → ((j : ℕ) → j < nproc → is_user_runnable (t.proc j) ≡ false)
      → IsFirst (λ j. is_runnable (t.proc j).state) nproc i
      → Chosen t key (some i)
  idle : ((j : ℕ) → j < nproc → is_runnable (t.proc j).state ≡ false) → Chosen t key none

or_else-Chosen :
    (t : Table) (key : ℕ → ℕ) (o s : Option ℕ)
    → Finds (λ j. is_user_runnable (t.proc j)) key nproc o
    → Searches (λ j. is_runnable (t.proc j).state) nproc s
    → Chosen t key (or_else o s)
or_else-Chosen t key (some i) s f g = user i f
or_else-Chosen t key none (some i) f g = system i f g
or_else-Chosen t key none none f g = idle g

-- FCFS runs the runnable user process with the least `creation_time`, the first in the table of
-- several; where no user process is runnable, the first that is; and none only if none is.
pub fcfs_choice-Chosen : (t : Table) → Chosen t (λ i. (t.proc i).creation_time) (fcfs_choice t)
unfolding fcfs_choice any_runnable
fcfs_choice-Chosen t =
    or_else-Chosen t (λ i. (t.proc i).creation_time) _ _ (earliest-Finds _ _ nproc)
      (first_such-Searches (λ i. is_runnable (t.proc i).state) nproc)
