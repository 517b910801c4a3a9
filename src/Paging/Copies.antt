-- ===== src/Paging/Copies.antt =====
-- xv6-memory-management/kernel/vm.c, `uvmcopy`: the copies, where there is memory for them.
use systems_suite.Prelude.{
  ℕ, zero, suc, ◌*◌, ◌<◌, ◌≡◌, ◌≢◌, refl, sym, subst, ap, ◌∙◌, Bool, true, false, Option, none,
  some, arith, ℕ_discrete,
}
use systems_suite.Paging.Space.{Pte, Space}
use systems_suite.Paging.Evict.{Outside, kalloc_or_evict}
use systems_suite.Paging.Fault.{pgsize}
use systems_suite.Paging.Hand.{write_here, write_there}
use systems_suite.Paging.Fork.{
  Copying, copy_page, or_undo, then_page, copy_pages, page_count, uvmcopy,
}
use systems_suite.Paging.Forked.{OnlyBelow, Unmapped, recorded}

-- There is memory for the page, without an eviction, and `mappages` succeeds.
abbrev pub Granted : Copying → Type 0
Granted a = (a.outside.kalloc ≡ true) × (a.outside.mapped ≡ true)

-- The page `va` was copied, and the others were left alone.
record HasCopied (va : ℕ) (o : Option Pte) (p c : Space) (r : Bool × Space × Space) : Type 0 where
  ok : r.0 ≡ true
  parent : r.1 ≡ p
  copied : r.2.pagetable va ≡ o
  others : (x : ℕ) → x ≢ va → r.2.pagetable x ≡ c.pagetable x

no_eviction : (o : Outside) (p : Space) → o.kalloc ≡ true → kalloc_or_evict o p ≡ (true, p)
unfolding kalloc_or_evict
no_eviction o p e = simp e refl

copy_page-HasCopied :
    (a : Copying) (va : ℕ) (o : Option Pte) (p c : Space)
    → Granted a
    → p.pagetable va ≡ o
    → c.pagetable va ≡ none
    → HasCopied va o p c (copy_page a va o p c)
unfolding copy_page
copy_page-HasCopied a va none p c g here free = record {
  ok = refl;
  parent = refl;
  copied = free;
  others = λ x ne. refl;
}
copy_page-HasCopied a va (some pte) p c g here free =
    simp (no_eviction a.outside p g.0, g.1, here)
      (record {
        ok = refl;
        parent = refl;
        copied =
            ap (λ t. t va) (recorded pte.perm va pte.content c)
            ∙ write_here c.pagetable va (some pte);
        others = λ x ne.
            ap (λ t. t x) (recorded pte.perm va pte.content c)
            ∙ write_there c.pagetable va x (some pte) ne;
      })

-- The first `n` pages of the child are the parent's, and there are no others.
record AreCopies (n : ℕ) (p : Space) (r : Bool × Space × Space) : Type 0 where
  all_ok : r.0 ≡ true
  same_parent : r.1 ≡ p
  copies : (k : ℕ) → k < n → r.2.pagetable (k * pgsize) ≡ p.pagetable (k * pgsize)
  only : OnlyBelow n r.2

one_more :
    (n : ℕ) (p c : Space) (r : Bool × Space × Space)
    → ((k : ℕ) → k < n → c.pagetable (k * pgsize) ≡ p.pagetable (k * pgsize))
    → OnlyBelow n c
    → HasCopied (n * pgsize) (p.pagetable (n * pgsize)) p c r
    → AreCopies (suc n) p (or_undo n r)
one_more n p c (false, p', c') below only h = absurd (let e = h.ok in cc)
one_more n p c (true, p', c') below only h = record {
  all_ok = refl;
  same_parent = h.parent;
  copies = λ k lt. elim (ℕ_discrete k n) [
    | yes same ↦
        subst (λ j. c'.pagetable (j * pgsize) ≡ p.pagetable (j * pgsize)) (sym same) h.copied
    | no differs ↦
        h.others (k * pgsize) (let ne : k * 4096 ≢ n * 4096 = omega arith in ne)
        ∙ below k (omega arith)
  ];
  only = λ va other.
      h.others va (λ e. other n (omega arith) (sym e)) ∙ only va (λ k lt. other k (omega arith));
}

then_page-AreCopies :
    (a : Copying) (n : ℕ) (p : Space) (r : Bool × Space × Space)
    → Granted a
    → AreCopies n p r
    → AreCopies (suc n) p (then_page a n r)
then_page-AreCopies a n p (false, p', c) g h = absurd (let e = h.all_ok in cc)
then_page-AreCopies a n p (true, p', c) g h =
    subst
      (λ q.
        AreCopies (suc n) p (or_undo n (copy_page a (n * pgsize) (q.pagetable (n * pgsize)) q c)))
      (sym h.same_parent)
      (one_more n p c _ h.copies h.only (
        copy_page-HasCopied a (n * pgsize) (p.pagetable (n * pgsize)) p c g refl
          (h.only (n * pgsize) (λ k lt. let ne : k * 4096 ≢ n * 4096 = omega arith in ne))))

copy_pages-AreCopies :
    (answers : ℕ → Copying) (n : ℕ) (p c : Space)
    → ((k : ℕ) → k < n → Granted (answers k))
    → Unmapped c
    → AreCopies n p (copy_pages answers n p c)
unfolding copy_pages
copy_pages-AreCopies answers zero p c g fresh = record {
  all_ok = refl;
  same_parent = refl;
  copies = λ k lt. absurd (omega arith);
  only = λ va other. fresh va;
}
copy_pages-AreCopies answers (suc n) p c g fresh =
    then_page-AreCopies (answers n) n p (copy_pages answers n p c) (g n (omega arith))
      (copy_pages-AreCopies answers n p c (λ k lt. g k (omega arith)) fresh)

-- Where there is memory for each page, without an eviction, and each can be mapped: a child that had
-- no pages gets those of the parent's pages below `sz` that are mapped, with their bytes and
-- permissions, and no others, and the parent is as before. So it gets no page that lies in the
-- parent's swap file.
pub uvmcopy_copies :
    (answers : ℕ → Copying) (sz : ℕ) (p c : Space)
    → ((k : ℕ) → k < page_count sz → Granted (answers k))
    → ((va : ℕ) → c.pagetable va ≡ none)
    → let r = uvmcopy answers sz p c in
      (r.0 ≡ true)
      × (r.1 ≡ p)
      × ((k : ℕ) → k < page_count sz → r.2.pagetable (k * pgsize) ≡ p.pagetable (k * pgsize))
      × OnlyBelow (page_count sz) r.2
unfolding uvmcopy
uvmcopy_copies answers sz p c g fresh =
    let h = copy_pages-AreCopies answers (page_count sz) p c g fresh in
    (h.all_ok, h.same_parent, h.copies, h.only)
