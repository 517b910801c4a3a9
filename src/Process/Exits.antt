-- ===== src/Process/Exits.antt =====
-- xv6-memory-management/kernel/proc.c, `kexit` and `reparent`: what an exit leaves behind.
use systems_suite.Prelude.{
  ℕ, zero, suc, ◌<◌, ◌≡◌, refl, ◌∙◌, ◌≢◌, ◌⊎◌, inl, false, ◌&&◌, Option, some, arith, ltb, ◌==◌,
  if◌then◌else◌, guard_passed, subst,
}
use systems_suite.Process.Table.{nproc, sleeping, runnable, zombie, Proc, Table, set_proc}
use systems_suite.Process.Life.{
  wakeup, is_child_of, proc_chan, parent_chan, reparent_slot, reparent_below, reparent, kexit,
}

-- The parent of slot `i` once the children of `p` among the first `n` slots are init's.
abbrev adopted : ℕ → ℕ → Table → ℕ → Option ℕ
adopted n p t i =
    if ltb i n && is_child_of p (t.proc i).parent then some t.initproc else (t.proc i).parent

-- What `reparent` may do to a process besides: it may wake it.
record Woken (q r : Proc) : Type 0 where
  chan : r.chan ≡ q.chan
  state : (r.state ≡ q.state) ⊎ (r.state ≡ runnable)

Woken-trans : {q r s : Proc} → Woken q r → Woken r s → Woken q s
Woken-trans v w = record { chan = w.chan ∙ v.chan; state = ground (arith, v.state, w.state) }

reparent_slot-parent :
    (n p : ℕ) (t : Table) (i : ℕ)
    → ((reparent_slot n p t).initproc ≡ t.initproc)
      × (((reparent_slot n p t).proc i).parent ≡ (
          if i == n && is_child_of p (t.proc i).parent then some t.initproc else (t.proc i).parent))
unfolding reparent_slot wakeup
reparent_slot-parent n p t i = ground arith

reparent_slot-Woken :
    (n p : ℕ) (t : Table) (i : ℕ) → Woken (t.proc i) ((reparent_slot n p t).proc i)
unfolding reparent_slot wakeup
reparent_slot-Woken n p t i = record { chan = ground arith; state = ground arith }

reparent_below-Woken :
    (n p : ℕ) (t : Table) (i : ℕ) → Woken (t.proc i) ((reparent_below n p t).proc i)
unfolding reparent_below
reparent_below-Woken zero p t i = record { chan = refl; state = inl refl }
reparent_below-Woken (suc n) p t i =
    Woken-trans (reparent_below-Woken n p t i) (reparent_slot-Woken n p (reparent_below n p t) i)

reparent_below-parent :
    (n p : ℕ) (t : Table) (i : ℕ)
    → ((reparent_below n p t).initproc ≡ t.initproc)
      × (((reparent_below n p t).proc i).parent ≡ adopted n p t i)
unfolding reparent_below
reparent_below-parent zero p t i = (refl, ground arith)
reparent_below-parent (suc n) p t i =
    ground (arith, reparent_below-parent n p t i, reparent_slot-parent n p (reparent_below n p t) i)

-- No child is left to a process other than init.
adopted_none :
    (p : ℕ) (t : Table) (i : ℕ)
    → i < nproc
    → (p == t.initproc) ≡ false
    → is_child_of p (adopted nproc p t i) ≡ false
adopted_none p t i lt other = ground arith

-- What `kexit` returns.
abbrev pub exited : ℕ → ℕ → Table → Table
exited p status t =
    let t' = reparent_below nproc p t in
    let t'' = wakeup p (parent_chan (t'.proc p).parent) t' in
    set_proc p (record (t''.proc p) { xstate = status; state = zombie }) t''

kexit-exited :
    (p status : ℕ) (t u : Table)
    → kexit p status t ≡ some u
    → ((p == t.initproc) ≡ false) × (exited p status t ≡ u)
unfolding kexit reparent
kexit-exited p status t u e = guard_passed (p == t.initproc) e

exited-Adopts :
    (p status : ℕ) (t : Table) (i : ℕ)
    → (((exited p status t).proc p).state ≡ zombie)
      × (((exited p status t).proc p).xstate ≡ status)
      × (((exited p status t).proc i).parent ≡ adopted nproc p t i)
unfolding wakeup
exited-Adopts p status t i = ground (arith, reparent_below-parent nproc p t i)

-- An exit, which init does not survive, leaves a zombie with the status, and gives every child of
-- the process to init and no other process: none is left to it.
pub kexit-Adopts :
    (p status : ℕ) (t u : Table) (i : ℕ)
    → i < nproc
    → kexit p status t ≡ some u
    → ((u.proc p).state ≡ zombie)
      × ((u.proc p).xstate ≡ status)
      × ((u.proc i).parent
          ≡ (if is_child_of p (t.proc i).parent then some t.initproc else (t.proc i).parent))
      × (is_child_of p (u.proc i).parent ≡ false)
kexit-Adopts p status t u i lt e =
    let (other, at) = kexit-exited p status t u e in
    let a =
      subst
        (λ v.
          ((v.proc p).state ≡ zombie)
          × ((v.proc p).xstate ≡ status)
          × ((v.proc i).parent ≡ adopted nproc p t i))
        at (exited-Adopts p status t i) in
    (a.0, a.1, ground (arith, a.2), ground (arith, a.2, adopted_none p t i lt other))

exited-Wakes :
    (p status : ℕ) (t : Table) (q : ℕ)
    → (t.proc p).parent ≡ some q
    → q ≢ p
    → (t.proc q).state ≡ sleeping
    → (t.proc q).chan ≡ proc_chan q
    → ((exited p status t).proc q).state ≡ runnable
unfolding wakeup
exited-Wakes p status t q child apart asleep waits =
    ground
      (arith, reparent_below-parent nproc p t p, reparent_below-Woken nproc p t q, child, apart)

-- No wakeup is lost: a parent that sleeps in `kwait` is runnable once its child has exited.
pub kexit-WakesParent :
    (p status : ℕ) (t u : Table) (q : ℕ)
    → (t.proc p).parent ≡ some q
    → q ≢ p
    → (t.proc q).state ≡ sleeping
    → (t.proc q).chan ≡ proc_chan q
    → kexit p status t ≡ some u
    → (u.proc q).state ≡ runnable
kexit-WakesParent p status t u q child apart asleep waits e =
    subst (λ v. (v.proc q).state ≡ runnable) (kexit-exited p status t u e).1
      (exited-Wakes p status t q child apart asleep waits)
