-- ===== src/Paging/Order.antt =====
-- xv6-memory-management/kernel/vm.c, `try_evict_one`: the page that FIFO replacement picks.
use systems_suite.Prelude.{
  ℕ, zero, suc, ◌^◌, ◌≤◌, ◌<◌, ◌≡◌, refl, inl, inr, Bool, true, Option, none, some, arith, ltb,
  Bool-cases, earliest, better, Finds, earliest-Finds, subst, sym,
}
use systems_suite.Paging.Space.{pgmeta_size, PageMeta, Space}
use systems_suite.Paging.Evict.{is_candidate, age, older, oldest, fifo_victim}

-- The scan for the greatest age is the scan for a least key, where greater ages are lesser keys.
module _ (fits : ℕ → Bool) (ages key : ℕ → ℕ)
    (turned : (i j : ℕ)
      → fits i ≡ true
      → fits j ≡ true
      → ltb (ages i) (ages j) ≡ ltb (key j) (key i)) where
  older-better :
      (n : ℕ) (o : Option ℕ) → fits n ≡ true → Finds fits key n o → older ages n o ≡ better key n o
  unfolding older better
  older-better n none fit f = refl
  older-better n (some b) fit f = rw (turned b n f.fits_it fit) refl

  oldest-earliest : (n : ℕ) → oldest fits ages n ≡ earliest fits key n
  unfolding oldest earliest
  oldest-earliest zero = refl
  oldest-earliest (suc n) = elim (Bool-cases (fits n)) [
    | inl fit ↦
        rw (fit, oldest-earliest n)
          (older-better n (earliest fits key n) fit (earliest-Finds fits key n))
    | inr no_fit ↦ rw (no_fit, oldest-earliest n) refl
  ]

turned_ages :
    (now : ℕ) (m n : PageMeta)
    → now < 2 ^ 64
    → m.seq ≤ now
    → n.seq ≤ now
    → ltb (age now m) (age now n) ≡ ltb n.seq m.seq
unfolding age
turned_ages now m n small h k = ground arith

-- While no candidate has a number beyond the counter, FIFO replacement picks, of the resident pages
-- but the one at address 0, which it never picks, the one with the least number, the first in the
-- table of several, and none only if there is no such page.
pub fifo_victim-Finds :
    (s : Space)
    → s.page_seq_ctr < 2 ^ 64
    → ((i : ℕ) → is_candidate (s.pgmeta i) ≡ true → (s.pgmeta i).seq ≤ s.page_seq_ctr)
    → Finds (λ i. is_candidate (s.pgmeta i)) (λ i. (s.pgmeta i).seq) pgmeta_size (fifo_victim s)
unfolding fifo_victim
fifo_victim-Finds s small numbered =
    subst (λ o. Finds (λ i. is_candidate (s.pgmeta i)) (λ i. (s.pgmeta i).seq) pgmeta_size o)
      (sym (
        oldest-earliest (λ i. is_candidate (s.pgmeta i)) (λ i. age s.page_seq_ctr (s.pgmeta i))
          (λ i. (s.pgmeta i).seq)
          (λ i j h k.
            turned_ages s.page_seq_ctr (s.pgmeta i) (s.pgmeta j) small (numbered i h)
              (numbered j k))
          pgmeta_size))
      (earliest-Finds (λ i. is_candidate (s.pgmeta i)) (λ i. (s.pgmeta i).seq) pgmeta_size)
