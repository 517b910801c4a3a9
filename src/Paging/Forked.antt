-- ===== src/Paging/Forked.antt =====
-- xv6-memory-management/kernel/vm.c, `uvmcopy`: the pages of the child.
use systems_suite.Prelude.{
  ℕ, zero, suc, ◌*◌, ◌<◌, ◌≡◌, ◌≢◌, refl, sym, subst, ap, ◌∙◌, ◌⊎◌, inl, inr, Bool, true, false,
  Option, none, List, some, arith, write, Bool-cases, ℕ_discrete,
}
use systems_suite.Paging.Space.{Perm, Pte, Space, pgmeta_find, pgmeta_alloc, alloc_from, take_free}
use systems_suite.Paging.Evict.{kalloc_or_evict}
use systems_suite.Paging.Fault.{pgsize}
use systems_suite.Paging.Hand.{write_here, write_there}
use systems_suite.Paging.Fork.{
  Copying, frame_bytes, copied_meta, map_into, copy_page, unmap_pages, or_undo, then_page,
  copy_pages, page_count, uvmcopy,
}

-- No page is mapped but the first `n`.
abbrev pub OnlyBelow : ℕ → Space → Type 0
OnlyBelow n c = (va : ℕ) → ((k : ℕ) → k < n → k * pgsize ≢ va) → c.pagetable va ≡ none

abbrev pub Unmapped : Space → Type 0
Unmapped c = (va : ℕ) → c.pagetable va ≡ none

alloc_from-pagetable :
    (va : ℕ) (at free : Option ℕ) (s : Space) → ((take_free va free s).1.pagetable ≡ s.pagetable)
unfolding take_free
alloc_from-pagetable va at none s = refl
alloc_from-pagetable va at (some i) s = refl

alloc_at-pagetable :
    (va : ℕ) (at : Option ℕ) (s : Space) → (alloc_from va at s).1.pagetable ≡ s.pagetable
unfolding alloc_from
alloc_at-pagetable va (some i) s = refl
alloc_at-pagetable va none s = alloc_from-pagetable va none _ s

pgmeta_alloc-pagetable : (va : ℕ) (s : Space) → (pgmeta_alloc va s).1.pagetable ≡ s.pagetable
unfolding pgmeta_alloc
pgmeta_alloc-pagetable va s = alloc_at-pagetable va (pgmeta_find va s) s

copied_meta-pagetable :
    (flags : Perm) (r : Option ℕ × Space) → (copied_meta flags r).pagetable ≡ r.1.pagetable
unfolding copied_meta
copied_meta-pagetable flags (none, c) = refl
copied_meta-pagetable flags (some i, c) = refl

-- The child's page table with a page more.
pub recorded :
    (flags : Perm) (va : ℕ) (content : List ℕ) (c : Space)
    → (copied_meta flags (pgmeta_alloc va (map_into va flags content c))).pagetable
      ≡ write c.pagetable va (some (record { perm = flags; content = content }))
recorded flags va content c =
    copied_meta-pagetable flags _ ∙ pgmeta_alloc-pagetable va (map_into va flags content c)

-- A page that is copied leaves the other pages of the child alone, and one that is not leaves it as it
-- was.
abbrev Kept : ℕ → Space → Bool × Space × Space → Type 0
Kept va c (true, p, c') = (x : ℕ) → x ≢ va → c'.pagetable x ≡ c.pagetable x
Kept va c (false, p, c') = c' ≡ c

copy_page-Kept :
    (a : Copying) (va : ℕ) (o : Option Pte) (p c : Space) → Kept va c (copy_page a va o p c)
unfolding copy_page
copy_page-Kept a va none p c = λ x ne. refl
copy_page-Kept a va (some pte) p c = elim (Bool-cases (kalloc_or_evict a.outside p).0) [
  | inr e ↦ rw e refl
  | inl e ↦ rw e (elim (Bool-cases a.outside.mapped) [
    | inr m ↦ simp m refl
    | inl m ↦ simp m (λ x ne.
        let content = frame_bytes a.freed ((kalloc_or_evict a.outside p).1.pagetable va) in
        ap (λ t. t x) (recorded pte.perm va content c) ∙ write_there c.pagetable va x _ ne)
  ])
]

-- A page is one of the first `n`, or none of them.
page_cases :
    (n va : ℕ) → ((k : ℕ) × (k < n) × (k * pgsize ≡ va)) ⊎ ((k : ℕ) → k < n → k * pgsize ≢ va)
page_cases zero va = inr (λ k lt. absurd (omega arith))
page_cases (suc n) va = elim (page_cases n va) [
  | inl (k, lt, e) ↦ inl (k, omega arith, e)
  | inr other ↦ elim (ℕ_discrete (n * pgsize) va) [
    | yes e ↦ inl (n, omega arith, e)
    | no ne ↦ inr (λ k lt. elim (ℕ_discrete k n) [
      | yes same ↦ subst (λ j. j * pgsize ≢ va) (sym same) ne
      | no differs ↦ other k (omega arith)
    ])
  ]
]

unmap_pages-gone : (n k : ℕ) (c : Space) → k < n → (unmap_pages n c).pagetable (k * pgsize) ≡ none
unfolding unmap_pages
unmap_pages-gone zero k c lt = absurd (omega arith)
unmap_pages-gone (suc n) k c lt = elim (ℕ_discrete k n) [
  | yes same ↦
      subst (λ j. (unmap_pages (suc n) c).pagetable (j * pgsize) ≡ none) (sym same)
        (write_here (unmap_pages n c).pagetable (n * pgsize) none)
  | no differs ↦
      write_there (unmap_pages n c).pagetable (n * pgsize) (k * pgsize) none
        (let ne : k * 4096 ≢ n * 4096 = omega arith in ne)
      ∙ unmap_pages-gone n k c (omega arith)
]

unmap_pages-other :
    (n va : ℕ) (c : Space)
    → ((k : ℕ) → k < n → k * pgsize ≢ va)
    → (unmap_pages n c).pagetable va ≡ c.pagetable va
unfolding unmap_pages
unmap_pages-other zero va c h = refl
unmap_pages-other (suc n) va c h =
    write_there (unmap_pages n c).pagetable (n * pgsize) va none (λ e. h n (omega arith) (sym e))
    ∙ unmap_pages-other n va c (λ k lt. h k (omega arith))

unmap_pages-Unmapped : (n : ℕ) (c : Space) → OnlyBelow n c → Unmapped (unmap_pages n c)
unmap_pages-Unmapped n c h va = elim (page_cases n va) [
  | inl (k, lt, e) ↦ subst (λ x. (unmap_pages n c).pagetable x ≡ none) e (unmap_pages-gone n k c lt)
  | inr other ↦ unmap_pages-other n va c other ∙ h va other
]

-- What holds of the child after `n` pages.
abbrev Clean : ℕ → Bool × Space × Space → Type 0
Clean n (true, p, c) = OnlyBelow n c
Clean n (false, p, c) = Unmapped c

or_undo-Clean :
    (n : ℕ) (c : Space) (r : Bool × Space × Space)
    → OnlyBelow n c
    → Kept (n * pgsize) c r
    → Clean (suc n) (or_undo n r)
or_undo-Clean n c (true, p, c') h kept =
    λ va other. kept va (λ e. other n (omega arith) (sym e)) ∙ h va (λ k lt. other k (omega arith))
or_undo-Clean n c (false, p, c') h kept =
    subst (λ d. Unmapped (unmap_pages n d)) (sym kept) (unmap_pages-Unmapped n c h)

then_page-Clean :
    (a : Copying) (n : ℕ) (r : Bool × Space × Space) → Clean n r → Clean (suc n) (then_page a n r)
then_page-Clean a n (true, p, c) h =
    or_undo-Clean n c _ h (copy_page-Kept a (n * pgsize) (p.pagetable (n * pgsize)) p c)
then_page-Clean a n (false, p, c) h = h

copy_pages-Clean :
    (answers : ℕ → Copying) (n : ℕ) (p c : Space) → Unmapped c → Clean n (copy_pages answers n p c)
unfolding copy_pages
copy_pages-Clean answers zero p c h = λ va other. h va
copy_pages-Clean answers (suc n) p c h =
    then_page-Clean (answers n) n (copy_pages answers n p c) (copy_pages-Clean answers n p c h)

none_left : (n : ℕ) (r : Bool × Space × Space) → Clean n r → r.0 ≡ false → Unmapped r.2
none_left n (true, p, c) h e = absurd (cc)
none_left n (false, p, c) h e = h

-- If the pages of a process cannot all be copied into a child that has none, whatever the kernel
-- answered and whatever was evicted on the way, then the child has no page mapped afterwards.
pub uvmcopy_fails_clean :
    (answers : ℕ → Copying) (sz : ℕ) (p c : Space)
    → ((va : ℕ) → c.pagetable va ≡ none)
    → (uvmcopy answers sz p c).0 ≡ false
    → (va : ℕ) → (uvmcopy answers sz p c).2.pagetable va ≡ none
unfolding uvmcopy
uvmcopy_fails_clean answers sz p c fresh e =
    none_left (page_count sz) _ (copy_pages-Clean answers (page_count sz) p c fresh) e
