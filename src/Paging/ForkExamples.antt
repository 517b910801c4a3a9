-- ===== src/Paging/ForkExamples.antt =====
-- xv6-memory-management/kernel/vm.c: `uvmcopy` of two pages, with and without memory, and
-- `growproc`.
use systems_suite.Prelude.{
  ℕ, ◌*◌, ◌<◌, ◌≡◌, refl, true, false, none, some, [], ◌∷◌, ◌==◌, if◌then◌else◌, arith,
}
use systems_suite.Paging.Space.{Space, fresh_meta, pgmeta_alloc, alloc_from, take_free, pgmeta_find}
use systems_suite.Paging.Evict.{kalloc_or_evict}
use systems_suite.Paging.Fault.{pgsize}
use systems_suite.Paging.Fork.{Copying, copy_page, copy_pages, page_count, uvmcopy}
use systems_suite.Paging.Forked.{OnlyBelow, uvmcopy_fails_clean}
use systems_suite.Paging.Copies.{uvmcopy_copies}
use systems_suite.Paging.Undone.{NoneFrom, growproc_fails_clean}
use systems_suite.Paging.Grow.{
  grows, shrinks, growproc, uvmalloc, uvmdealloc, add_pages, add_page, grown_meta, uvmunmap,
}

abbrev no_pages : Space
no_pages = record {
  pagetable = λ _. none;
  sz = 8192;
  sp = 8192;
  heap_brk = 8192;
  has_exec = false;
  segs = [];
  page_seq_ctr = 0;
  has_swap = false;
  swap_data = λ _. [];
  swap_pages = 0;
  swap_bitmap = λ _. false;
  pgmeta = λ _. fresh_meta 0;
  clock_hand = 0;
  killed = false;
}

-- Both pages are mapped.
abbrev parent : Space
parent = record no_pages {
  pagetable = λ va.
      if va == 0
      then some (record { perm = record { w = false; x = true }; content = 3 ∷ [] })
      else if va == 4096
      then some (record { perm = record { w = true; x = false }; content = 7 ∷ [] })
      else none;
}

abbrev answers : ℕ → Copying
answers k = record {
  outside = record {
    kalloc = true;
    kalloc_again = true;
    swap_written = true;
    swap_read = true;
    mapped = true;
    exec_read = λ _ _. none;
  };
  freed = [];
}

-- `mappages` fails for the second page.
abbrev unmappable : ℕ → Copying
unmappable k = record {
  outside = record {
    kalloc = true;
    kalloc_again = true;
    swap_written = true;
    swap_read = true;
    mapped = k == 0;
    exec_read = λ _ _. none;
  };
  freed = [];
}

uvmcopy_copies_example :
    let r = uvmcopy answers 8192 parent no_pages in
    (r.0 ≡ true)
    × (r.1 ≡ parent)
    × ((k : ℕ) → k < page_count 8192 → r.2.pagetable (k * pgsize) ≡ parent.pagetable (k * pgsize))
    × OnlyBelow (page_count 8192) r.2
uvmcopy_copies_example =
    uvmcopy_copies answers 8192 parent no_pages (λ k lt. (refl, refl)) (λ va. refl)

second_fails : (uvmcopy unmappable 8192 parent no_pages).0 ≡ false
unfolding uvmcopy copy_pages copy_page kalloc_or_evict
second_fails = refl

uvmcopy_fails_clean_example : (uvmcopy unmappable 8192 parent no_pages).2.pagetable 0 ≡ none
uvmcopy_fails_clean_example =
    uvmcopy_fails_clean unmappable 8192 parent no_pages (λ va. refl) second_fails 0

-- Growth by two pages, and back by one.
grow_test : (growproc (λ k. (answers k).outside) (grows 5000) parent).1.sz ≡ 13192
unfolding growproc uvmalloc add_pages add_page grown_meta kalloc_or_evict pgmeta_alloc alloc_from
    take_free pgmeta_find
grow_test = refl

shrink_test :
    let r = growproc (λ k. (answers k).outside) (shrinks 4097) parent in
    (r.1.sz ≡ 4095) × (r.1.pagetable 4096 ≡ none) × (r.1.pagetable 0 ≡ parent.pagetable 0)
unfolding growproc uvmdealloc uvmunmap
shrink_test = (refl, refl, refl)

wrap_test : (growproc (λ k. (answers k).outside) (shrinks 8193) parent).1.sz ≡ 8192
unfolding growproc uvmdealloc uvmunmap
wrap_test = refl

growth_fails : (growproc (λ k. (unmappable k).outside) (grows 5000) parent).0 ≡ false
unfolding growproc uvmalloc add_pages add_page grown_meta kalloc_or_evict pgmeta_alloc alloc_from
    take_free pgmeta_find
growth_fails = refl

growproc_fails_clean_example :
    let s' = (growproc (λ k. (unmappable k).outside) (grows 5000) parent).1 in
    NoneFrom 8192 s' × (s'.sz ≡ 8192)
growproc_fails_clean_example =
    growproc_fails_clean (λ k. (unmappable k).outside) 5000 parent (λ va le. ground arith)
      growth_fails
