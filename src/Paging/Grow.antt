-- ===== src/Paging/Grow.antt =====
-- xv6-memory-management/kernel, vm.c (`uvmalloc`, `uvmdealloc`) and proc.c (`growproc`): the size of a
-- process. Sizes are below 2^38, and adding to them does not wrap.
use systems_suite.Prelude.{
  ℕ, zero, suc, ◌+◌, ◌-◌, ◌*◌, ◌/◌, ◌%◌, ◌^◌, Bool, true, false, Option, none, some, ltb, leb,
  if◌then◌else◌, write,
}
use systems_suite.Paging.Space.{Perm, Space, pgmeta_alloc}
use systems_suite.Paging.Evict.{Outside, kalloc_or_evict}
use systems_suite.Paging.Fault.{pgsize, zeros}
use systems_suite.Paging.Fork.{map_into}

abbrev pub pgroundup : ℕ → ℕ
pgroundup sz = (sz + (pgsize - 1)) / pgsize * pgsize

-- `uvmunmap` of `n` pages from `va` on.
unfoldable pub uvmunmap : ℕ → ℕ → Space → Space
uvmunmap va zero s = s
uvmunmap va (suc n) s =
    let rest = uvmunmap va n s in
    record rest { pagetable = write rest.pagetable (va + n * pgsize) none }

-- The new size, and the state.
unfoldable pub uvmdealloc : ℕ → ℕ → Space → ℕ × Space
unfolding uvmunmap
uvmdealloc oldsz newsz s =
    if leb oldsz newsz
    then (oldsz, s)
    else if ltb (pgroundup newsz) (pgroundup oldsz)
    then (newsz, uvmunmap (pgroundup newsz) ((pgroundup oldsz - pgroundup newsz) / pgsize) s)
    else (newsz, s)

-- The record of a new page, if there is room for one.
unfoldable pub grown_meta : Perm → Option ℕ × Space → Space
grown_meta flags (none, s) = s
grown_meta flags (some i, s) = record s {
  pgmeta = write s.pgmeta i (record (s.pgmeta i) {
    resident = true;
    perm = some flags;
    dirty = false;
    seq = s.page_seq_ctr;
  });
  page_seq_ctr = (s.page_seq_ctr + 1) % 2 ^ 64;
}

-- One new page at `va`.
unfoldable pub add_page : Outside → Perm → ℕ → Space → Bool × Space
unfolding grown_meta
add_page o flags va s =
    let (ok, s') = kalloc_or_evict o s in
    if ok
    then (if o.mapped
        then (true, grown_meta flags (pgmeta_alloc va (map_into va flags (zeros pgsize) s')))
        else (false, s'))
    else (false, s')

-- A page that cannot be had takes those before it away again.
abbrev pub or_dealloc : ℕ → ℕ → Bool × Space → Bool × Space
or_dealloc oldsz va (true, s) = (true, s)
or_dealloc oldsz va (false, s) = (false, (uvmdealloc va oldsz s).1)

abbrev pub then_grow : Outside → Perm → ℕ → ℕ → Bool × Space → Bool × Space
then_grow o flags oldsz n (true, s) =
    or_dealloc oldsz (oldsz + n * pgsize) (add_page o flags (oldsz + n * pgsize) s)
then_grow o flags oldsz n (false, s) = (false, s)

-- The first `n` pages from `oldsz` on, which is rounded up.
unfoldable pub add_pages : (ℕ → Outside) → Perm → ℕ → ℕ → Space → Bool × Space
unfolding add_page uvmdealloc
add_pages answers flags oldsz zero s = (true, s)
add_pages answers flags oldsz (suc n) s =
    then_grow (answers n) flags oldsz n (add_pages answers flags oldsz n s)

-- The new size, 0 for an error, and the state.
unfoldable pub uvmalloc : (ℕ → Outside) → Perm → ℕ → ℕ → Space → ℕ × Space
unfolding add_pages
uvmalloc answers flags oldsz newsz s =
    if ltb newsz oldsz
    then (oldsz, s)
    else let (ok, s') =
        add_pages answers flags (pgroundup oldsz)
          ((newsz - pgroundup oldsz + (pgsize - 1)) / pgsize) s in
      (if ok then newsz else 0, s')

-- The argument of `growproc`, which may be negative.
pub data Change : Type 0 where
  grows shrinks : (n : ℕ) → Change

abbrev pub writable : Perm
writable = record { w = true; x = false }

abbrev pub set_size : ℕ × Space → Bool × Space
set_size (zero, s) = (false, s)
set_size (suc sz, s) = (true, record s { sz = suc sz })

-- Whether it went well. A size that falls below 0 wraps at 2^64.
unfoldable pub growproc : (ℕ → Outside) → Change → Space → Bool × Space
unfolding uvmalloc uvmdealloc
growproc answers (grows zero) s = (true, s)
growproc answers (grows (suc n)) s = set_size (uvmalloc answers writable s.sz (s.sz + suc n) s)
growproc answers (shrinks n) s =
    let (sz, s') = uvmdealloc s.sz ((s.sz + 2 ^ 64 - n) % 2 ^ 64) s in (true, record s' { sz = sz })
