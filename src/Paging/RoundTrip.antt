-- ===== src/Paging/RoundTrip.antt =====
-- xv6-memory-management/kernel/vm.c: a page that goes to the swap file, and its next fault.
use systems_suite.Prelude.{
  none, ◌||◌, false, ℕ, ◌+◌, ◌-◌, ◌<◌, ◌≡◌, refl, true, false, some, arith, ap, ◌∙◌,
}
use systems_suite.Paging.Space.{swap_slots, Pte, Segment, Space, swap_free_slot}
use systems_suite.Paging.Evict.{Outside, unmap_victim, swap_out, try_evict_one, kalloc_or_evict}
use systems_suite.Paging.Fault.{
  Access, or_perm, swapped_in, swap_in, exec_page, zero_page, zeros, pgsize, no_perm, is_heap,
  is_stack, segment_at, vmfault,
}
use systems_suite.Paging.NextFault.{IsVictim, evicted, exec_fault, heap_fault, free_slot-below}

-- What a page leaves when it goes to the swap file.
out_meta :
    (i slot : ℕ) (pte : Pte) (s : Space)
    → let s' = (swap_out true i pte (some slot) s).1 in
      ((s'.pgmeta i).in_swap ≡ true)
      × ((s'.pgmeta i).slot ≡ slot)
      × ((s'.pgmeta i).perm ≡ (s.pgmeta i).perm)
      × (s'.swap_data slot ≡ pte.content)
      × (s'.swap_bitmap slot ≡ true)
      × (s'.swap_pages ≡ s.swap_pages + 1)
unfolding swap_out unmap_victim
out_meta i slot pte s = (ground arith, ground arith, ground arith, ground arith, ground arith, refl)

in_page :
    (seg : Segment) (va i slot : ℕ) (s : Space)
    → slot < swap_slots
    → let s' = swapped_in seg va i slot s in
      (s'.pagetable va
        ≡ some (record { perm = or_perm (s.pgmeta i).perm seg.perm; content = s.swap_data slot }))
      × (s'.swap_bitmap slot ≡ false)
      × (s'.swap_pages ≡ s.swap_pages - 1)
unfolding swapped_in swap_free_slot
in_page seg va i slot s lt = (ground arith, ground arith, ground arith)

served :
    (o : Outside) (acc : Access) (seg : Segment) (va i : ℕ) (s : Space)
    → o.kalloc ≡ true
    → o.swap_read ≡ true
    → o.mapped ≡ true
    → (s.pgmeta i).in_swap ≡ true
    → exec_page o acc seg va (some i) s ≡ (true, swapped_in seg va i (s.pgmeta i).slot s)
unfolding exec_page swap_in kalloc_or_evict
served o acc seg va i s got read mapped in_it = rw (in_it, got, read, mapped) refl

zeroed :
    (o : Outside) (va i : ℕ) (s : Space)
    → o.kalloc ≡ true
    → o.mapped ≡ true
    → let r = zero_page o va (some i, s) in
      (r.0 ≡ true)
      × (r.1.pagetable va ≡ some (record { perm = no_perm; content = zeros pgsize }))
      × (r.1.swap_data ≡ s.swap_data)
      × (r.1.swap_bitmap ≡ s.swap_bitmap)
unfolding zero_page kalloc_or_evict
zeroed o va i s got mapped = rw (got, mapped) (refl, ground arith, refl, refl)

exec_page_back :
    (o : Outside) (acc : Access) (seg : Segment) (va i slot : ℕ) (pte : Pte) (s : Space)
    → slot < swap_slots
    → o.kalloc ≡ true
    → o.swap_read ≡ true
    → o.mapped ≡ true
    → let r = exec_page o acc seg va (some i) (swap_out true i pte (some slot) s).1 in
      (r.0 ≡ true)
      × (r.1.pagetable va
          ≡ some (record { perm = or_perm (s.pgmeta i).perm seg.perm; content = pte.content }))
      × (r.1.swap_bitmap slot ≡ false)
      × (r.1.swap_pages ≡ s.swap_pages)
exec_page_back o acc seg va i slot pte s lt got read mapped =
    let s' = (swap_out true i pte (some slot) s).1 in
    let (in_it, at, perm, bytes, bit, pages) = out_meta i slot pte s in
    let back = in_page seg va i slot s' lt in
    rw (served o acc seg va i s' got read mapped in_it, at)
      (refl, back.0 ∙ rw (perm, bytes) refl, back.1, omega (arith, back.2, pages))

zero_page_back :
    (o : Outside) (va i slot : ℕ) (pte : Pte) (s : Space)
    → o.kalloc ≡ true
    → o.mapped ≡ true
    → let r = zero_page o va (some i, (swap_out true i pte (some slot) s).1) in
      (r.0 ≡ true)
      × (r.1.pagetable va ≡ some (record { perm = no_perm; content = zeros pgsize }))
      × (r.1.swap_data slot ≡ pte.content)
      × (r.1.swap_bitmap slot ≡ true)
zero_page_back o va i slot pte s got mapped =
    let s' = (swap_out true i pte (some slot) s).1 in
    let (in_it, at, perm, bytes, bit, pages) = out_meta i slot pte s in
    let (ok, page, same_data, same_bits) = zeroed o va i s' got mapped in
    (ok, page, ap (λ f. f slot) same_data ∙ bytes, ap (λ f. f slot) same_bits ∙ bit)

-- FIFO evicts a page of the executable, whose entry is the first with its address and which must be
-- written, there is a free slot, and the write succeeds. The next fault on the page, if there is memory for it, the swap file can be read and the
-- page mapped, brings it back with the bytes it had; its slot is free again and the count of swapped
-- pages as before.
pub swap_round_trip :
    (o : Outside) (acc : Access) (seg : Segment) (i slot va : ℕ) (pte : Pte) (s : Space)
    → IsVictim i slot va pte s
    → s.has_exec ≡ true
    → segment_at va s.segs ≡ some seg
    → o.kalloc ≡ true
    → o.swap_read ≡ true
    → o.mapped ≡ true
    → let out = try_evict_one true s in
      let r = vmfault o acc va out.1 in
      (out.0 ≡ true)
      × (r.0 ≡ true)
      × (r.1.pagetable va
          ≡ some (record { perm = or_perm (s.pgmeta i).perm seg.perm; content = pte.content }))
      × (r.1.swap_bitmap slot ≡ false)
      × (r.1.swap_pages ≡ s.swap_pages)
unfolding swap_out
swap_round_trip o acc seg i slot va pte s v exec in_seg got read mapped =
    let lt = free_slot-below s slot v.free in
    let back = exec_page_back o acc seg va i slot pte s lt got read mapped in
    let fault =
      ap (λ out. vmfault o acc va out.1) (evicted v) ∙ exec_fault o acc seg v exec in_seg in
    (
      ap (λ out. out.0) (evicted v),
      ap (λ r. r.0) fault ∙ back.0,
      ap (λ r. r.1.pagetable va) fault ∙ back.1,
      ap (λ r. r.1.swap_bitmap slot) fault ∙ back.2,
      ap (λ r. r.1.swap_pages) fault ∙ back.3,
    )

-- FIFO evicts a page of the heap or the stack, whose entry is the first with its address and which
-- must be written, there is a free slot, and the write succeeds. The next fault on the page, if there is memory for it and it can be mapped,
-- reports success and maps zeros, whatever bytes it had: they stay behind in the slot, which stays
-- taken.
pub heap_page_lost :
    (o : Outside) (acc : Access) (i slot va : ℕ) (pte : Pte) (s : Space)
    → IsVictim i slot va pte s
    → segment_at va s.segs ≡ none
    → (is_heap va s || is_stack va s) ≡ true
    → o.kalloc ≡ true
    → o.mapped ≡ true
    → let out = try_evict_one true s in
      let r = vmfault o acc va out.1 in
      (out.0 ≡ true)
      × (r.0 ≡ true)
      × (r.1.pagetable va ≡ some (record { perm = no_perm; content = zeros pgsize }))
      × (r.1.swap_data slot ≡ pte.content)
      × (r.1.swap_bitmap slot ≡ true)
unfolding swap_out
heap_page_lost o acc i slot va pte s v no_seg wide got mapped =
    let back = zero_page_back o va i slot pte s got mapped in
    let fault = ap (λ out. vmfault o acc va out.1) (evicted v) ∙ heap_fault o acc v no_seg wide in
    (
      ap (λ out. out.0) (evicted v),
      ap (λ r. r.0) fault ∙ back.0,
      ap (λ r. r.1.pagetable va) fault ∙ back.1,
      ap (λ r. r.1.swap_data slot) fault ∙ back.2,
      ap (λ r. r.1.swap_bitmap slot) fault ∙ back.3,
    )
