-- ===== src/Paging/Undone.antt =====
-- xv6-memory-management/kernel, `growproc`: a growth that fails takes its pages away again.
use systems_suite.Prelude.{
  ℕ, zero, suc, ◌+◌, ◌-◌, ◌*◌, ◌/◌, ◌≤◌, ◌<◌, ◌≡◌, ◌≢◌, refl, sym, subst, ap, ◌∙◌, ◌⊎◌, inl, inr,
  Bool, true, false, none, arith, ltb, leb, if◌then◌else◌, ℕ_discrete,
}
use systems_suite.Paging.Space.{Perm, Space}
use systems_suite.Paging.Evict.{Outside}
use systems_suite.Paging.Fault.{pgsize}
use systems_suite.Paging.Hand.{write_here}
use systems_suite.Paging.Grow.{
  pgroundup, uvmunmap, uvmdealloc, or_dealloc, then_grow, add_pages, uvmalloc, grows, writable,
  set_size, growproc,
}
use systems_suite.Paging.Growth.{Added, write-none, add_page-Added}

-- No page is mapped from `start` on.
abbrev pub NoneFrom : ℕ → Space → Type 0
NoneFrom start s = (va : ℕ) → start ≤ va → s.pagetable va ≡ none

-- No page is mapped from `start` on but the first `n`.
abbrev FewFrom : ℕ → ℕ → Space → Type 0
FewFrom start n s =
    (va : ℕ) → start ≤ va → ((k : ℕ) → k < n → start + k * pgsize ≢ va) → s.pagetable va ≡ none

uvmunmap-size : (start n : ℕ) (s : Space) → (uvmunmap start n s).sz ≡ s.sz
unfolding uvmunmap
uvmunmap-size start zero s = refl
uvmunmap-size start (suc n) s = uvmunmap-size start n s

uvmunmap-stays :
    (start n va : ℕ) (s : Space) → s.pagetable va ≡ none → (uvmunmap start n s).pagetable va ≡ none
unfolding uvmunmap
uvmunmap-stays start zero va s e = e
uvmunmap-stays start (suc n) va s e =
    write-none (uvmunmap start n s).pagetable _ va (uvmunmap-stays start n va s e)

uvmunmap-gone :
    (start n k : ℕ) (s : Space) → k < n → (uvmunmap start n s).pagetable (start + k * pgsize) ≡ none
unfolding uvmunmap
uvmunmap-gone start zero k s lt = absurd (omega arith)
uvmunmap-gone start (suc n) k s lt = elim (ℕ_discrete k n) [
  | yes same ↦
      subst (λ j. (uvmunmap start (suc n) s).pagetable (start + j * pgsize) ≡ none) (sym same)
        (write_here (uvmunmap start n s).pagetable (start + n * pgsize) none)
  | no differs ↦
      write-none (uvmunmap start n s).pagetable _ (start + k * pgsize)
        (uvmunmap-gone start n k s (omega arith))
]

page_from :
    (start n va : ℕ)
    → ((k : ℕ) × (k < n) × (start + k * pgsize ≡ va)) ⊎ ((k : ℕ) → k < n → start + k * pgsize ≢ va)
page_from start zero va = inr (λ k lt. absurd (omega arith))
page_from start (suc n) va = elim (page_from start n va) [
  | inl (k, lt, e) ↦ inl (k, omega arith, e)
  | inr other ↦ elim (ℕ_discrete (start + n * pgsize) va) [
    | yes e ↦ inl (n, omega arith, e)
    | no ne ↦ inr (λ k lt. elim (ℕ_discrete k n) [
      | yes same ↦ subst (λ j. start + j * pgsize ≢ va) (sym same) ne
      | no differs ↦ other k (omega arith)
    ])
  ]
]

uvmunmap-NoneFrom :
    (start n : ℕ) (s : Space) → FewFrom start n s → NoneFrom start (uvmunmap start n s)
uvmunmap-NoneFrom start n s few va le = elim (page_from start n va) [
  | inl (k, lt, e) ↦
      subst (λ x. (uvmunmap start n s).pagetable x ≡ none) e (uvmunmap-gone start n k s lt)
  | inr other ↦ uvmunmap-stays start n va s (few va le other)
]

dealloc_unmaps :
    (old new from count : ℕ) (s : Space)
    → leb old new ≡ false
    → ltb (pgroundup new) (pgroundup old) ≡ true
    → pgroundup new ≡ from
    → (pgroundup old - pgroundup new) / pgsize ≡ count
    → (uvmdealloc old new s).1 ≡ uvmunmap from count s
unfolding uvmdealloc
dealloc_unmaps old new from count s a b f c =
    simp (a, b)
      (ap (λ x. uvmunmap x ((pgroundup old - pgroundup new) / pgsize) s) f
        ∙ ap (λ n. uvmunmap from n s) c)

-- From a whole number of pages to another, `uvmdealloc` unmaps those between.
whole_pages :
    (q n : ℕ) (s : Space)
    → (uvmdealloc (q * pgsize + suc n * pgsize) (q * pgsize) s).1 ≡ uvmunmap (q * pgsize) (suc n) s
whole_pages q n s =
    let low : (q * 4096 + 4095) / 4096 * 4096 ≡ q * 4096 = omega arith in
    let high : (q * 4096 + suc n * 4096 + 4095) / 4096 * 4096 ≡ q * 4096 + suc n * 4096 =
      omega arith in
    dealloc_unmaps (q * pgsize + suc n * pgsize) (q * pgsize) (q * pgsize) (suc n) s (ground arith)
      (ground (arith, low, high)) low (omega (arith, low, high))

no_pages_yet : (q : ℕ) (s : Space) → (uvmdealloc (q * pgsize + 0 * pgsize) (q * pgsize) s).1 ≡ s
unfolding uvmdealloc
no_pages_yet q s =
    let a : leb (q * pgsize + 0 * pgsize) (q * pgsize) ≡ true = ground arith in simp a refl

dealloc-NoneFrom :
    (q n : ℕ) (s : Space)
    → FewFrom (q * pgsize) n s
    → let s' = (uvmdealloc (q * pgsize + n * pgsize) (q * pgsize) s).1 in
      NoneFrom (q * pgsize) s' × (s'.sz ≡ s.sz)
dealloc-NoneFrom q zero s few =
    subst (λ s'. NoneFrom (q * pgsize) s' × (s'.sz ≡ s.sz)) (sym (no_pages_yet q s))
      (λ va le. few va le (λ k lt. absurd (omega arith)), refl)
dealloc-NoneFrom q (suc n) s few =
    subst (λ s'. NoneFrom (q * pgsize) s' × (s'.sz ≡ s.sz)) (sym (whole_pages q n s))
      (uvmunmap-NoneFrom (q * pgsize) (suc n) s few, uvmunmap-size (q * pgsize) (suc n) s)

-- What holds after `n` pages of a process that had size `sz`.
abbrev Growing : ℕ → ℕ → ℕ → Bool × Space → Type 0
Growing q n sz (true, s) = FewFrom (q * pgsize) n s × (s.sz ≡ sz)
Growing q n sz (false, s) = NoneFrom (q * pgsize) s × (s.sz ≡ sz)

or_dealloc-Growing :
    (q n sz : ℕ) (s : Space) (r : Bool × Space)
    → FewFrom (q * pgsize) n s × (s.sz ≡ sz)
    → Added (q * pgsize + n * pgsize) s r
    → Growing q (suc n) sz (or_dealloc (q * pgsize) (q * pgsize + n * pgsize) r)
or_dealloc-Growing q n sz s (true, s') (few, size) (kept, same) = (
  λ va le other.
      kept va (λ e. other n (omega arith) (sym e)) (few va le (λ k lt. other k (omega arith))),
  same ∙ size,
)
or_dealloc-Growing q n sz s (false, s') (few, size) h =
    let gone = dealloc-NoneFrom q n s' (λ va le other. h.stays va (few va le other)) in
    (gone.0, gone.1 ∙ h.same_size ∙ size)

then_grow-Growing :
    (o : Outside) (flags : Perm) (q n sz : ℕ) (r : Bool × Space)
    → Growing q n sz r
    → Growing q (suc n) sz (then_grow o flags (q * pgsize) n r)
then_grow-Growing o flags q n sz (true, s) h =
    or_dealloc-Growing q n sz s _ h (add_page-Added o flags (q * pgsize + n * pgsize) s)
then_grow-Growing o flags q n sz (false, s) h = h

add_pages-Growing :
    (answers : ℕ → Outside) (flags : Perm) (q n : ℕ) (s : Space)
    → NoneFrom (q * pgsize) s
    → Growing q n s.sz (add_pages answers flags (q * pgsize) n s)
unfolding add_pages
add_pages-Growing answers flags q zero s h = (λ va le other. h va le, refl)
add_pages-Growing answers flags q (suc n) s h =
    then_grow-Growing (answers n) flags q n s.sz _ (add_pages-Growing answers flags q n s h)

failed :
    (q n sz newsz : ℕ) (r : Bool × Space)
    → Growing q n sz r
    → 1 ≤ newsz
    → (set_size ((if r.0 then newsz else 0), r.1)).0 ≡ false
    → let s' = (set_size ((if r.0 then newsz else 0), r.1)).1 in
      NoneFrom (q * pgsize) s' × (s'.sz ≡ sz)
failed q n sz zero r h le e = absurd (omega arith)
failed q n sz (suc m) (true, s) h le e = absurd (cc)
failed q n sz (suc m) (false, s) h le e = h

enough_pages :
    (answers : ℕ → Outside) (flags : Perm) (oldsz newsz : ℕ) (s : Space)
    → oldsz ≤ newsz
    → let r =
        add_pages answers flags
          (pgroundup oldsz)
          ((newsz - pgroundup oldsz + (pgsize - 1)) / pgsize)
          s in
      uvmalloc answers flags oldsz newsz s ≡ ((if r.0 then newsz else 0), r.1)
unfolding uvmalloc
enough_pages answers flags oldsz newsz s le =
    let e : ltb newsz oldsz ≡ false = ground arith in simp e refl

-- If a process cannot grow by the bytes that it asked for, whatever the kernel answered and whatever
-- was evicted on the way, and no page was mapped beyond its size, then its size is the same and no
-- page is mapped beyond it.
pub growproc_fails_clean :
    (answers : ℕ → Outside) (n : ℕ) (s : Space)
    → NoneFrom (pgroundup s.sz) s
    → (growproc answers (grows n) s).0 ≡ false
    → let s' = (growproc answers (grows n) s).1 in NoneFrom (pgroundup s.sz) s' × (s'.sz ≡ s.sz)
unfolding growproc
growproc_fails_clean answers zero s h e = absurd (cc)
growproc_fails_clean answers (suc n) s h e =
    let is = enough_pages answers writable s.sz (s.sz + suc n) s (omega arith) in
    let pages = (s.sz + suc n - pgroundup s.sz + (pgsize - 1)) / pgsize in
    subst (λ u. NoneFrom (pgroundup s.sz) (set_size u).1 × ((set_size u).1.sz ≡ s.sz)) (sym is)
      (failed ((s.sz + (pgsize - 1)) / pgsize) pages s.sz (s.sz + suc n)
        (add_pages answers writable (pgroundup s.sz) pages s)
        (add_pages-Growing answers writable ((s.sz + (pgsize - 1)) / pgsize) pages s h)
        (omega arith) (sym (ap (λ u. (set_size u).0) is) ∙ e))
