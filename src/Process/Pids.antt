-- ===== src/Process/Pids.antt =====
-- xv6-memory-management/kernel/proc.c: pids of live processes stay different.
use systems_suite.Prelude.{
  ℕ, zero, suc, ◌+◌, ◌^◌, ◌≤◌, ◌<◌, ◌≡◌, refl, inl, inr, Bool, true, false, ◌&&◌, Option, none,
  some, arith, ◌==◌, if_both, Option-cases, guard_passed, subst,
}
use systems_suite.Process.Table.{
  nproc, zombie, running, is_unused, is_zombie, is_runnable, Proc, Table, set_proc, first_such,
  allocpid,
}
use systems_suite.Process.Life.{
  freeproc, init_proc, allocproc_at, allocproc, init_child, kfork_from, kfork, wakeup,
  reparent_slot, reparent_below, reparent, kexit, parent_chan, kwait_none, kwait, WaitResult, sleep,
  wake, kill_slot, kkill, setkilled, yield, is_child_of,
}

-- The pids of the slots in use lie above 0 and below `nextpid`, and no two are alike.
pub record PidsDiffer (t : Table) : Type 0 where
  pub range :
      (i : ℕ)
      → is_unused (t.proc i).state ≡ false
      → (1 ≤ (t.proc i).pid) × ((t.proc i).pid < t.nextpid)
  pub differ :
      (i j : ℕ)
      → is_unused (t.proc i).state ≡ false
      → is_unused (t.proc j).state ≡ false
      → (t.proc i).pid ≡ (t.proc j).pid
      → i ≡ j
  pub positive : 1 ≤ t.nextpid

-- No slot comes into use, and those in use keep their pids.
pub record KeepsPids (t u : Table) : Type 0 where
  pub kept :
      (i : ℕ)
      → is_unused (u.proc i).state ≡ false
      → (is_unused (t.proc i).state ≡ false) × ((u.proc i).pid ≡ (t.proc i).pid)
  pub next : u.nextpid ≡ t.nextpid

KeepsPids-PidsDiffer : {t u : Table} → KeepsPids t u → PidsDiffer t → PidsDiffer u
KeepsPids-PidsDiffer k d = record {
  range = λ i h. ground (arith, k.next, k.kept i h, d.range i (k.kept i h).0);
  differ = λ i j h g e.
      d.differ i j (k.kept i h).0 (k.kept j g).0 (ground (arith, k.kept i h, k.kept j g, e));
  positive = ground (arith, k.next, d.positive);
}

KeepsPids-trans : {t u v : Table} → KeepsPids t u → KeepsPids u v → KeepsPids t v
KeepsPids-trans k l = record {
  kept = λ i h. ground (arith, l.kept i h, k.kept i (l.kept i h).0);
  next = ground (arith, k.next, l.next);
}

KeepsPids-refl : (t : Table) → KeepsPids t t
KeepsPids-refl t = record { kept = λ i h. (h, refl); next = refl }

freeproc-KeepsPids : (i : ℕ) (t : Table) → KeepsPids t (freeproc i t)
unfolding freeproc
freeproc-KeepsPids i t = record { kept = λ j h. ground arith; next = refl }

-- Slots and their pids as they were.
record SamePids (t u : Table) : Type 0 where
  same :
      (i : ℕ)
      → (is_unused (u.proc i).state ≡ is_unused (t.proc i).state)
        × ((u.proc i).pid ≡ (t.proc i).pid)
  next : u.nextpid ≡ t.nextpid

wakeup-SamePids : (me chan : ℕ) (t : Table) → SamePids t (wakeup me chan t)
unfolding wakeup
wakeup-SamePids me chan t = record { same = λ j. ground arith; next = refl }

-- A write of a process that was in use, with its pid.
set_proc-KeepsPids :
    (i : ℕ) (p : Proc) (t : Table)
    → is_unused (t.proc i).state ≡ false
    → p.pid ≡ (t.proc i).pid
    → KeepsPids t (set_proc i p t)
set_proc-KeepsPids i p t live same = record { kept = λ j h. ground arith; next = refl }

reparent_slot-SamePids : (i p : ℕ) (t : Table) → SamePids t (reparent_slot i p t)
unfolding reparent_slot wakeup
reparent_slot-SamePids i p t = record { same = λ j. ground arith; next = ground arith }

SamePids-trans : {t u v : Table} → SamePids t u → SamePids u v → SamePids t v
SamePids-trans k l = record {
  same = λ i. ground (arith, k.same i, l.same i);
  next = ground (arith, k.next, l.next);
}

reparent_below-SamePids : (n p : ℕ) (t : Table) → SamePids t (reparent_below n p t)
unfolding reparent_below
reparent_below-SamePids zero p t = record { same = λ i. (refl, refl); next = refl }
reparent_below-SamePids (suc n) p t =
    SamePids-trans (reparent_below-SamePids n p t)
      (reparent_slot-SamePids n p (reparent_below n p t))

SamePids-KeepsPids : {t u : Table} → SamePids t u → KeepsPids t u
SamePids-KeepsPids k = record { kept = λ i h. ground (arith, k.same i, h); next = k.next }

-- The slot that `init_proc` takes gets the next pid.
init_proc-PidsDiffer :
    (i : ℕ) (t : Table) → t.nextpid + 1 < 2 ^ 31 → PidsDiffer t → PidsDiffer (init_proc i t)
unfolding init_proc allocpid
init_proc-PidsDiffer i t low d = record {
  range = λ j h. ground (arith, d.range j, d.positive);
  differ = λ j k h g e. ground (arith, d.range j, d.range k, d.differ j k);
  positive = omega arith;
}

allocproc_at-PidsDiffer :
    (ok : Bool) (o : Option ℕ) (t : Table)
    → t.nextpid + 1 < 2 ^ 31
    → PidsDiffer t
    → PidsDiffer (allocproc_at ok o t).1
unfolding allocproc_at
allocproc_at-PidsDiffer ok none t low d = d
allocproc_at-PidsDiffer true (some i) t low d = init_proc-PidsDiffer i t low d
allocproc_at-PidsDiffer false (some i) t low d =
    KeepsPids-PidsDiffer (freeproc-KeepsPids i (init_proc i t)) (init_proc-PidsDiffer i t low d)

-- A process gets a slot that is then in use.
allocproc_at-live :
    (ok : Bool) (o : Option ℕ) (t : Table) (i : ℕ)
    → (allocproc_at ok o t).0 ≡ some i
    → is_unused ((allocproc_at ok o t).1.proc i).state ≡ false
unfolding allocproc_at init_proc allocpid
allocproc_at-live ok none t i e = cc
allocproc_at-live true (some j) t i e = ground arith
allocproc_at-live false (some j) t i e = cc

kfork_from-PidsDiffer :
    (copied : Bool) (p : ℕ) (o : Option ℕ) (t : Table)
    → ((i : ℕ) → o ≡ some i → is_unused (t.proc i).state ≡ false)
    → PidsDiffer t
    → PidsDiffer (kfork_from copied p (o, t)).1
unfolding kfork_from init_child
kfork_from-PidsDiffer copied p none t live d = d
kfork_from-PidsDiffer true p (some i) t live d =
    KeepsPids-PidsDiffer (set_proc-KeepsPids i _ t (live i refl) refl) d
kfork_from-PidsDiffer false p (some i) t live d = KeepsPids-PidsDiffer (freeproc-KeepsPids i t) d

kfork-PidsDiffer :
    (allocated copied : Bool) (p : ℕ) (t : Table)
    → t.nextpid + 1 < 2 ^ 31
    → PidsDiffer t
    → PidsDiffer (kfork allocated copied p t).1
unfolding kfork allocproc
kfork-PidsDiffer allocated copied p t low d =
    let o = first_such (λ i. is_unused (t.proc i).state) nproc in
    kfork_from-PidsDiffer copied p (allocproc_at allocated o t).0 (allocproc_at allocated o t).1
      (allocproc_at-live allocated o t) (allocproc_at-PidsDiffer allocated o t low d)

exited-KeepsPids :
    (p status : ℕ) (t u : Table)
    → is_unused (t.proc p).state ≡ false
    → SamePids t u
    → KeepsPids t (set_proc p (record (u.proc p) { xstate = status; state = zombie }) u)
exited-KeepsPids p status t u live k = record {
  kept = λ j h. ground (arith, k.same j, k.same p, live);
  next = k.next;
}

kexit-KeepsPids :
    (p status : ℕ) (t u : Table)
    → is_unused (t.proc p).state ≡ false
    → kexit p status t ≡ some u
    → KeepsPids t u
unfolding kexit reparent
kexit-KeepsPids p status t u live e =
    let t' = reparent_below nproc p t in
    let t'' = wakeup p (parent_chan (t'.proc p).parent) t' in
    subst (λ v. KeepsPids t v) (guard_passed (p == t.initproc) e).1
      (exited-KeepsPids p status t t'' live
        (SamePids-trans (reparent_below-SamePids nproc p t) (wakeup-SamePids p _ t')))

kwait_none-KeepsPids :
    (p : ℕ) (t : Table) → is_unused (t.proc p).state ≡ false → KeepsPids t (kwait_none p t).1
unfolding kwait_none sleep
kwait_none-KeepsPids p t live =
    elim (Option-cases (first_such (λ i. is_child_of p (t.proc i).parent) nproc)) [
      | inl e ↦ rw (e, kwait_none) (KeepsPids-refl t)
      | inr (i, e) ↦
          rw (e, kwait_none)
            (if_both (λ (r : WaitResult × Table). KeepsPids t r.1) (t.proc p).killed
              (KeepsPids-refl t) (set_proc-KeepsPids p _ t live refl))
    ]

kwait-KeepsPids :
    (copied : Bool) (p : ℕ) (t : Table)
    → is_unused (t.proc p).state ≡ false
    → KeepsPids t (kwait copied p t).1
unfolding kwait
kwait-KeepsPids copied p t live =
    elim (Option-cases
      (first_such (λ i. is_child_of p (t.proc i).parent && is_zombie (t.proc i).state) nproc)) [
        | inl e ↦ rw (e, kwait) (kwait_none-KeepsPids p t live)
        | inr (i, e) ↦
            rw (e, kwait)
              (if_both (λ (r : WaitResult × Table). KeepsPids t r.1) copied (freeproc-KeepsPids i t)
                (KeepsPids-refl t))
      ]

kkill-KeepsPids : (pid : ℕ) (t : Table) → KeepsPids t (kkill pid t).1
unfolding kkill kill_slot
kkill-KeepsPids pid t = record { kept = λ j h. ground arith; next = ground arith }

-- The calls by which processes change the table, each by a process in use, and the scheduler's
-- switch to one that is runnable.
pub data Step (t : Table) : Table → Type 0 where
  forks : (allocated copied : Bool) (p : ℕ) → Step t (kfork allocated copied p t).1
  exits :
      (p status : ℕ) {u : Table}
      → is_unused (t.proc p).state ≡ false
      → kexit p status t ≡ some u
      → Step t u
  waits : (copied : Bool) (p : ℕ) → is_unused (t.proc p).state ≡ false → Step t (kwait copied p t).1
  kills : (pid : ℕ) → Step t (kkill pid t).1
  wakes : (me chan : ℕ) → Step t (wakeup me chan t)
  sleeps : (p chan : ℕ) → is_unused (t.proc p).state ≡ false → Step t (sleep p chan t)
  wakes_up : (p : ℕ) → is_unused (t.proc p).state ≡ false → Step t (wake p t)
  dispatches :
      (p : ℕ)
      → is_runnable (t.proc p).state ≡ true
      → Step t (set_proc p (record (t.proc p) { state = running }) t)
  yields : (p : ℕ) → is_unused (t.proc p).state ≡ false → Step t (yield p t)
  killed_by_kernel : (p : ℕ) → is_unused (t.proc p).state ≡ false → Step t (setkilled p t)

-- While the next pid is below 2^31 - 1, no call of a process in use, nor a switch to a runnable one,
-- gives two processes one pid: forks, exits, waits, kills, sleeps, wakeups and yields keep the pids
-- of the slots in use different, above 0 and below the next one.
pub Step-PidsDiffer :
    {t u : Table} → t.nextpid + 1 < 2 ^ 31 → Step t u → PidsDiffer t → PidsDiffer u
unfolding sleep wake yield setkilled
Step-PidsDiffer {t} low (forks allocated copied p) d = kfork-PidsDiffer allocated copied p t low d
Step-PidsDiffer {t} low (exits p status {u} live e) d =
    KeepsPids-PidsDiffer (kexit-KeepsPids p status t u live e) d
Step-PidsDiffer {t} low (waits copied p live) d =
    KeepsPids-PidsDiffer (kwait-KeepsPids copied p t live) d
Step-PidsDiffer {t} low (kills pid) d = KeepsPids-PidsDiffer (kkill-KeepsPids pid t) d
Step-PidsDiffer {t} low (wakes me chan) d =
    KeepsPids-PidsDiffer (SamePids-KeepsPids (wakeup-SamePids me chan t)) d
Step-PidsDiffer {t} low (sleeps p chan live) d =
    KeepsPids-PidsDiffer (set_proc-KeepsPids p _ t live refl) d
Step-PidsDiffer {t} low (wakes_up p live) d =
    KeepsPids-PidsDiffer (set_proc-KeepsPids p _ t live refl) d
Step-PidsDiffer {t} low (dispatches p ready) d =
    KeepsPids-PidsDiffer (set_proc-KeepsPids p _ t (ground arith) refl) d
Step-PidsDiffer {t} low (yields p live) d =
    KeepsPids-PidsDiffer (set_proc-KeepsPids p _ t live refl) d
Step-PidsDiffer {t} low (killed_by_kernel p live) d =
    KeepsPids-PidsDiffer (set_proc-KeepsPids p _ t live refl) d
