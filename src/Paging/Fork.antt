-- ===== src/Paging/Fork.antt =====
-- xv6-memory-management/kernel/vm.c: `uvmcopy`, by which `kfork` copies the pages of a process.
use systems_suite.Prelude.{
  ℕ, zero, suc, ◌+◌, ◌-◌, ◌*◌, ◌/◌, ◌%◌, ◌^◌, Bool, true, false, Option, none, some, List,
  if◌then◌else◌, write,
}
use systems_suite.Paging.Space.{Perm, Pte, Space, pgmeta_alloc}
use systems_suite.Paging.Evict.{Outside, kalloc_or_evict}
use systems_suite.Paging.Fault.{pgsize}

-- The answers while one page is copied. The parent's page may itself be evicted to make room for its
-- copy: `freed` is what then lies in the memory that it had, from which the code copies.
pub record Copying : Type 0 where
  pub outside : Outside
  pub freed : List ℕ

abbrev pub frame_bytes : List ℕ → Option Pte → List ℕ
frame_bytes freed none = freed
frame_bytes freed (some pte) = pte.content

-- The child's record of the page, if it has room for one.
unfoldable pub copied_meta : Perm → Option ℕ × Space → Space
copied_meta flags (none, c) = c
copied_meta flags (some i, c) = record c {
  pgmeta = write c.pgmeta i (record (c.pgmeta i) {
    resident = true;
    perm = some flags;
    dirty = false;
    referenced = true;
    seq = c.page_seq_ctr;
  });
  page_seq_ctr = (c.page_seq_ctr + 1) % 2 ^ 64;
}

-- `mappages` into the child's page table.
abbrev pub map_into : ℕ → Perm → List ℕ → Space → Space
map_into va flags content c = record c {
  pagetable = write c.pagetable va (some (record { perm = flags; content = content }));
}

-- One page, with the parent's entry for it: whether it went well, the parent and the child.
unfoldable pub copy_page : Copying → ℕ → Option Pte → Space → Space → Bool × Space × Space
unfolding copied_meta
copy_page a va none p c = (true, p, c)
copy_page a va (some pte) p c =
    let (ok, p') = kalloc_or_evict a.outside p in
    if ok
    then (if a.outside.mapped
        then (
          true,
          p',
          copied_meta pte.perm
              (pgmeta_alloc va (map_into va pte.perm (frame_bytes a.freed (p'.pagetable va)) c)),
        )
        else (false, p', c))
    else (false, p', c)

-- `uvmunmap` of the first `n` pages.
unfoldable pub unmap_pages : ℕ → Space → Space
unmap_pages zero c = c
unmap_pages (suc n) c =
    let rest = unmap_pages n c in record rest { pagetable = write rest.pagetable (n * pgsize) none }

-- After a page failed, the pages below it are unmapped again.
abbrev pub or_undo : ℕ → Bool × Space × Space → Bool × Space × Space
or_undo n (true, p, c) = (true, p, c)
or_undo n (false, p, c) = (false, p, unmap_pages n c)

abbrev pub then_page : Copying → ℕ → Bool × Space × Space → Bool × Space × Space
then_page a n (true, p, c) = or_undo n (copy_page a (n * pgsize) (p.pagetable (n * pgsize)) p c)
then_page a n (false, p, c) = (false, p, c)

-- The first `n` pages.
unfoldable pub copy_pages : (ℕ → Copying) → ℕ → Space → Space → Bool × Space × Space
unfolding copy_page unmap_pages
copy_pages answers zero p c = (true, p, c)
copy_pages answers (suc n) p c = then_page (answers n) n (copy_pages answers n p c)

abbrev pub page_count : ℕ → ℕ
page_count sz = (sz + (pgsize - 1)) / pgsize

-- Whether all pages were copied, the parent and the child.
unfoldable pub uvmcopy : (ℕ → Copying) → ℕ → Space → Space → Bool × Space × Space
unfolding copy_pages
uvmcopy answers sz p c = copy_pages answers (page_count sz) p c
