-- ===== src/Process/Kills.antt =====
-- xv6-memory-management/kernel/proc.c, `kkill` and `allocproc`: a kill of pid 0.
use systems_suite.Prelude.{ℕ, zero, suc, ◌≡◌, refl, Bool, true, some, arith, ◌==◌, ◌∙◌}
use systems_suite.Process.Table.{nproc, is_unused, Table, first_such, allocpid}
use systems_suite.Process.Life.{allocproc_at, allocproc, init_proc, kill_slot, kkill}

first_such_congr :
    (f g : ℕ → Bool) (n : ℕ) → ((i : ℕ) → f i ≡ g i) → first_such f n ≡ first_such g n
unfolding first_such
first_such_congr f g zero h = refl
first_such_congr f g (suc n) h = ground (arith, first_such_congr f g n h, h n)

killed_slot :
    (pid i : ℕ) (t : Table)
    → first_such (λ j. (t.proc j).pid == pid) nproc ≡ some i
    → (kkill pid t) ≡ (true, kill_slot i t)
unfolding kkill
killed_slot pid i t e = rw (e, kkill) refl

kill_slot_unused :
    (i : ℕ) (t : Table) (j : ℕ)
    → is_unused ((kill_slot i t).proc j).state ≡ is_unused (t.proc j).state
unfolding kill_slot
kill_slot_unused i t j = ground arith

killed_stays : (i : ℕ) (t : Table) → ((init_proc i (kill_slot i t)).proc i).killed ≡ true
unfolding init_proc allocpid kill_slot
killed_stays i t = ground arith

-- A kill of pid 0 finds a free slot, if the first slot with pid 0 is the first free one, and reports
-- success; and the next process that is created, in that slot, is marked as killed from the start.
pub kill_zero_taints :
    (i : ℕ) (t : Table)
    → first_such (λ j. (t.proc j).pid == 0) nproc ≡ some i
    → first_such (λ j. is_unused (t.proc j).state) nproc ≡ some i
    → ((kkill 0 t).0 ≡ true)
      × ((allocproc true (kkill 0 t).1).0 ≡ some i)
      × (((allocproc true (kkill 0 t).1).1.proc i).killed ≡ true)
unfolding allocproc allocproc_at
kill_zero_taints i t found free =
    let again =
      first_such_congr _ (λ j. is_unused (t.proc j).state) nproc (kill_slot_unused i t) ∙ free in
    rw (killed_slot 0 i t found) (rw again (refl, refl, killed_stays i t))
