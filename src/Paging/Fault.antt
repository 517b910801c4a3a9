-- ===== src/Paging/Fault.antt =====
-- xv6-memory-management/kernel/vm.c: `vmfault`.
use systems_suite.Prelude.{
  ℕ, zero, suc, ◌+◌, ◌-◌, ◌*◌, ◌/◌, ◌%◌, ◌^◌, Bool, true, false, not, ◌&&◌, ◌||◌, Option, none,
  some, List, [], ◌∷◌, ◌++◌, ltb, leb, ◌==◌, if◌then◌else◌, min, max, write,
}
use systems_suite.Paging.Space.{
  Perm, Pte, Segment, Space, set_meta, pgmeta_find, pgmeta_alloc, swap_free_slot,
}
use systems_suite.Paging.Evict.{Outside, kalloc_or_evict}

abbrev pub pgsize : ℕ
pgsize = 4096

abbrev pub maxva : ℕ
maxva = 2 ^ 38

abbrev pub pgrounddown : ℕ → ℕ
pgrounddown va = va / pgsize * pgsize

-- The argument `is_write`: 0, 1 and -1.
pub data Access : Type 0 where
  reads writes executes : Access

abbrev pub executing : Access → Bool
executing executes = true
executing _ = false

-- The page just below the one of the stack pointer.
abbrev pub is_stack : ℕ → Space → Bool
is_stack va s = (va + pgsize == pgrounddown s.sp) && ltb va s.sz

unfoldable pub prog_end : List Segment → ℕ
prog_end [] = 0
prog_end (seg ∷ segs) = max (seg.va + seg.memsz) (prog_end segs)

unfoldable pub is_heap : ℕ → Space → Bool
unfolding prog_end
is_heap va s = leb (prog_end s.segs) va && (ltb va s.heap_brk && ltb va s.sz)

-- The first segment that the page lies in.
unfoldable pub segment_at : ℕ → List Segment → Option Segment
segment_at va [] = none
segment_at va (seg ∷ segs) =
    let rest = segment_at va segs in
    if leb seg.va va && ltb va (seg.va + seg.memsz) then some seg else rest

abbrev pub segment_perm : Option Segment → Perm
segment_perm none = record { w = false; x = false }
segment_perm (some seg) = seg.perm

abbrev pub mark_dirty : Option ℕ × Space → Space
mark_dirty (none, s) = s
mark_dirty (some i, s) = set_meta i (record (s.pgmeta i) { dirty = true; referenced = true }) s

-- A fault on a page that is mapped: a permission that the page may have is granted.
unfoldable pub upgrade : Access → ℕ → Pte → Space → Bool × Space
unfolding is_heap segment_at pgmeta_alloc
upgrade reads va pte s = (false, s)
upgrade writes va pte s =
    let allow_w = (is_heap va s || is_stack va s) || (segment_perm (segment_at va s.segs)).w in
    let perm : Perm = record { w = true; x = pte.perm.x } in
    if not pte.perm.w && allow_w
    then (
      true,
      mark_dirty (
          pgmeta_alloc va
            (record s { pagetable = write s.pagetable va (some (record pte { perm = perm })) })),
    )
    else (false, s)
upgrade executes va pte s =
    let allow_x = (segment_perm (segment_at va s.segs)).x in
    let perm : Perm = record { w = pte.perm.w; x = true } in
    if not pte.perm.x && allow_x
    then (true, record s { pagetable = write s.pagetable va (some (record pte { perm = perm })) })
    else (false, s)

abbrev pub or_perm : Option Perm → Perm → Perm
or_perm (some p) q = p
or_perm none q = q

-- `mappages`, and the next number in the order of arrival.
abbrev pub map_page : ℕ → Perm → List ℕ → Space → Space
map_page va perm content s = record s {
  pagetable = write s.pagetable va (some (record { perm = perm; content = content }));
  page_seq_ctr = (s.page_seq_ctr + 1) % 2 ^ 64;
}

-- The page comes back from slot `slot` of the swap file, which is free again.
unfoldable pub swapped_in : Segment → ℕ → ℕ → ℕ → Space → Space
unfolding swap_free_slot
swapped_in seg va i slot s =
    let m = s.pgmeta i in
    swap_free_slot slot (record (map_page va (or_perm m.perm seg.perm) (s.swap_data slot) s) {
      pgmeta = write s.pgmeta i (record m {
        resident = true;
        in_swap = false;
        slot = 65535;
        seq = s.page_seq_ctr;
        referenced = true;
      });
      swap_pages = s.swap_pages - 1;
    })

unfoldable pub swap_in : Outside → Segment → ℕ → ℕ → Space → Bool × Space
unfolding kalloc_or_evict swapped_in
swap_in o seg va i s =
    let (ok, s') = kalloc_or_evict o s in
    if ok && (o.swap_read && o.mapped)
    then (true, swapped_in seg va i (s'.pgmeta i).slot s')
    else (false, s')

-- The record of a page that was loaded or made.
abbrev pub now_resident : Perm → Option ℕ × Space → Space
now_resident perm (none, s) = s
now_resident perm (some i, s) =
    set_meta i
      (record (s.pgmeta i) {
        resident = true;
        perm = some perm;
        dirty = false;
        referenced = true;
        seq = (s.page_seq_ctr + 2 ^ 64 - 1) % 2 ^ 64;
      })
      s

unfoldable pub zeros : ℕ → List ℕ
zeros zero = []
zeros (suc n) = 0 ∷ zeros n

-- How many bytes of the page the file holds; `remain` is a `uint`.
unfoldable pub file_part : Segment → ℕ → ℕ
file_part seg page_off =
    let remain = (seg.filesz - page_off) % 2 ^ 32 in
    if ltb page_off seg.filesz then min remain pgsize else 0

-- `memset`, then `readi` where the file holds a part of the page.
unfoldable pub load_page : Outside → Segment → ℕ → Option (List ℕ)
unfolding file_part zeros
load_page o seg va =
    let page_off = va - seg.va in
    let n = file_part seg page_off in
    if ltb page_off seg.filesz
    then (elim (o.exec_read (seg.off + page_off) n) [
      | none ↦ none
      | some bytes ↦ some (bytes ++ zeros (pgsize - n))
    ])
    else some (zeros pgsize)

-- The entry that was found, or a new one.
abbrev pub meta_for : ℕ → Option ℕ → Space → Option ℕ × Space
meta_for va (some i) s = (some i, s)
meta_for va none s = pgmeta_alloc va s

unfoldable pub loaded :
    Access → Segment → ℕ → Option ℕ → Option (List ℕ) → Bool → Space → Bool × Space
unfolding pgmeta_alloc
loaded acc seg va o none mapped s = (false, s)
loaded acc seg va o (some content) mapped s =
    if (executing acc && not seg.perm.x) || not mapped
    then (false, s)
    else (true, now_resident seg.perm (meta_for va o (map_page va seg.perm content s)))

-- A page of a segment that is read from the executable.
unfoldable pub load_exec : Outside → Access → Segment → ℕ → Option ℕ → Space → Bool × Space
unfolding kalloc_or_evict loaded load_page
load_exec o acc seg va at s =
    let (ok, s') = kalloc_or_evict o s in
    if ok then loaded acc seg va at (load_page o seg va) o.mapped s' else (false, s')

abbrev pub no_perm : Perm
no_perm = record { w = false; x = false }

-- A page of the heap or the stack: its entry is made before the memory is.
unfoldable pub zero_page : Outside → ℕ → Option ℕ × Space → Bool × Space
unfolding kalloc_or_evict zeros
zero_page o va (at, s) =
    let (ok, s') = kalloc_or_evict o s in
    if ok && o.mapped
    then (true, now_resident no_perm (at, map_page va no_perm (zeros pgsize) s'))
    else (false, s')

unfoldable pub exec_page : Outside → Access → Segment → ℕ → Option ℕ → Space → Bool × Space
unfolding swap_in load_exec
exec_page o acc seg va none s = load_exec o acc seg va none s
exec_page o acc seg va (some i) s =
    if (s.pgmeta i).in_swap then swap_in o seg va i s else load_exec o acc seg va (some i) s

unfoldable pub bring_in : Outside → Access → ℕ → Option Segment → Space → Bool × Space
unfolding exec_page zero_page is_heap pgmeta_find pgmeta_alloc
bring_in o acc va none s =
    if is_heap va s || is_stack va s then zero_page o va (pgmeta_alloc va s) else (false, s)
bring_in o acc va (some seg) s =
    if s.has_exec then exec_page o acc seg va (pgmeta_find va s) s else (false, s)

unfoldable pub page_fault : Outside → Access → ℕ → Option Pte → Space → Bool × Space
unfolding upgrade bring_in segment_at
page_fault o acc va (some pte) s = upgrade acc va pte s
page_fault o acc va none s = bring_in o acc va (segment_at va s.segs) s

-- Whether the fault was served, and the state.
unfoldable pub vmfault : Outside → Access → ℕ → Space → Bool × Space
unfolding page_fault
vmfault o acc va s =
    if leb maxva va
    then (false, s)
    else page_fault o acc (pgrounddown va) (s.pagetable (pgrounddown va)) s
