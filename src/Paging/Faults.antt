-- ===== src/Paging/Faults.antt =====
-- xv6-memory-management/kernel/vm.c, `vmfault`: every fault keeps the slots of the swap file in order.
use systems_suite.Prelude.{
  ℕ, ◌≡◌, refl, inl, inr, Bool, true, false, not, ◌&&◌, ◌||◌, Option, none, some, List, arith, leb,
  if◌then◌else◌, write, Bool-cases, if_both,
}
use systems_suite.Paging.Space.{
  Perm, Pte, Segment, Space, pgmeta_find, pgmeta_alloc, swap_free_slot,
}
use systems_suite.Paging.Evict.{Outside, kalloc_or_evict}
use systems_suite.Paging.Fault.{
  Access, reads, writes, executes, executing, pgrounddown, maxva, is_heap, is_stack, segment_at,
  segment_perm, upgrade, mark_dirty, map_page, swapped_in, swap_in, now_resident, load_page,
  meta_for, loaded, load_exec, zero_page, exec_page, bring_in, page_fault, vmfault, no_perm, zeros,
  pgsize,
}
use systems_suite.Paging.Slots.{
  SlotsOk, KeepsSlots, KeepsSlots-SlotsOk, KeepsSlots-refl, KeepsSlots-trans, set_meta-KeepsSlots,
  pgmeta_alloc-KeepsSlots, kalloc_or_evict-Evicted,
}

-- The slots are in order after a part of a fault.
record Ok (r : Bool × Space) : Type 0 where
  slots : SlotsOk r.1

mark_dirty-KeepsSlots : (r : Option ℕ × Space) → KeepsSlots r.1 (mark_dirty r)
mark_dirty-KeepsSlots (none, s) = KeepsSlots-refl s
mark_dirty-KeepsSlots (some i, s) = set_meta-KeepsSlots i _ s (λ e. (e, refl))

now_resident-KeepsSlots :
    (perm : Perm) (r : Option ℕ × Space) → KeepsSlots r.1 (now_resident perm r)
now_resident-KeepsSlots perm (none, s) = KeepsSlots-refl s
now_resident-KeepsSlots perm (some i, s) = set_meta-KeepsSlots i _ s (λ e. (e, refl))

-- A change of the page table and of the order of arrival alone.
remapped-KeepsSlots :
    (table : ℕ → Option Pte) (ctr : ℕ) (s : Space)
    → KeepsSlots s (record s { pagetable = table; page_seq_ctr = ctr })
remapped-KeepsSlots table ctr s = record { bits = λ k. refl; kept = λ i e. (e, refl) }

upgrade-Ok : (acc : Access) (va : ℕ) (pte : Pte) (s : Space) → SlotsOk s → Ok (upgrade acc va pte s)
unfolding upgrade
upgrade-Ok reads va pte s h = record { slots = h }
upgrade-Ok writes va pte s h =
    let table =
      write s.pagetable va (some (record pte { perm = record { w = true; x = pte.perm.x } })) in
    let s' : Space = record s { pagetable = table } in
    let k = KeepsSlots-trans (remapped-KeepsSlots table s.page_seq_ctr s) (
      KeepsSlots-trans (pgmeta_alloc-KeepsSlots va s')
        (mark_dirty-KeepsSlots (pgmeta_alloc va s'))) in
    if_both Ok
      (not pte.perm.w
        && ((is_heap va s || is_stack va s) || (segment_perm (segment_at va s.segs)).w))
      (record { slots = KeepsSlots-SlotsOk k h }) (record { slots = h })
upgrade-Ok executes va pte s h =
    let k =
      remapped-KeepsSlots
        (write s.pagetable va (some (record pte { perm = record { w = pte.perm.w; x = true } })))
        s.page_seq_ctr s in
    if_both Ok (not pte.perm.x && (segment_perm (segment_at va s.segs)).x)
      (record { slots = KeepsSlots-SlotsOk k h }) (record { slots = h })

swapped_in-SlotsOk :
    (seg : Segment) (va i : ℕ) (s : Space)
    → (s.pgmeta i).in_swap ≡ true
    → SlotsOk s
    → SlotsOk (swapped_in seg va i (s.pgmeta i).slot s)
unfolding swapped_in swap_free_slot
swapped_in-SlotsOk seg va i s in_it h = record {
  held = λ j e. ground (arith, h.held j, h.held i in_it, h.apart i j in_it);
  apart = λ j k e f same. ground (arith, h.apart j k, e, f, same);
}

-- A part of a fault that needs memory first.
after_kalloc :
    (o : Outside) (s : Space) (b : Bool) (u : Space)
    → SlotsOk s
    → ((kalloc_or_evict o s).0 ≡ true → SlotsOk u)
    → Ok (if (kalloc_or_evict o s).0 && b then (true, u) else (false, (kalloc_or_evict o s).1))
after_kalloc o s b u h f = elim (Bool-cases (kalloc_or_evict o s).0) [
  | inl got ↦
      if_both Ok ((kalloc_or_evict o s).0 && b) (record { slots = f got })
        (record { slots = (kalloc_or_evict-Evicted o s).ok h })
  | inr failed ↦ rw failed (record { slots = (kalloc_or_evict-Evicted o s).ok h })
]

swap_in-Ok :
    (o : Outside) (seg : Segment) (va i : ℕ) (s : Space)
    → (s.pgmeta i).in_swap ≡ true
    → SlotsOk s
    → Ok (swap_in o seg va i s)
unfolding swap_in
swap_in-Ok o seg va i s in_it h =
    let v = kalloc_or_evict-Evicted o s in
    after_kalloc o s (o.swap_read && o.mapped) _ h
      (λ got. swapped_in-SlotsOk seg va i (kalloc_or_evict o s).1 (v.stays got i in_it) (v.ok h))

meta_for-KeepsSlots : (va : ℕ) (o : Option ℕ) (s : Space) → KeepsSlots s (meta_for va o s).1
meta_for-KeepsSlots va none s = pgmeta_alloc-KeepsSlots va s
meta_for-KeepsSlots va (some i) s = KeepsSlots-refl s

loaded-Ok :
    (acc : Access) (seg : Segment) (va : ℕ) (at : Option ℕ) (c : Option (List ℕ)) (mapped : Bool)
    (s : Space)
    → SlotsOk s
    → Ok (loaded acc seg va at c mapped s)
unfolding loaded
loaded-Ok acc seg va at none mapped s h = record { slots = h }
loaded-Ok acc seg va at (some content) mapped s h =
    let s' = map_page va seg.perm content s in
    let k = KeepsSlots-trans (remapped-KeepsSlots s'.pagetable s'.page_seq_ctr s) (
      KeepsSlots-trans (meta_for-KeepsSlots va at s')
        (now_resident-KeepsSlots seg.perm (meta_for va at s'))) in
    if_both Ok ((executing acc && not seg.perm.x) || not mapped) (record { slots = h })
      (record { slots = KeepsSlots-SlotsOk k h })

load_exec-Ok :
    (o : Outside) (acc : Access) (seg : Segment) (va : ℕ) (at : Option ℕ) (s : Space)
    → SlotsOk s
    → Ok (load_exec o acc seg va at s)
unfolding load_exec
load_exec-Ok o acc seg va at s h =
    let h' = (kalloc_or_evict-Evicted o s).ok h in
    if_both Ok (kalloc_or_evict o s).0
      (loaded-Ok acc seg va at (load_page o seg va) o.mapped (kalloc_or_evict o s).1 h')
      (record { slots = h' })

zero_page-Ok : (o : Outside) (va : ℕ) (r : Option ℕ × Space) → SlotsOk r.1 → Ok (zero_page o va r)
unfolding zero_page
zero_page-Ok o va (at, s) h =
    let h' = (kalloc_or_evict-Evicted o s).ok h in
    let s' = map_page va no_perm (zeros pgsize) (kalloc_or_evict o s).1 in
    let k =
      KeepsSlots-trans (remapped-KeepsSlots s'.pagetable s'.page_seq_ctr (kalloc_or_evict o s).1)
        (now_resident-KeepsSlots no_perm (at, s')) in
    if_both Ok ((kalloc_or_evict o s).0 && o.mapped) (record { slots = KeepsSlots-SlotsOk k h' })
      (record { slots = h' })

exec_page-Ok :
    (o : Outside) (acc : Access) (seg : Segment) (va : ℕ) (at : Option ℕ) (s : Space)
    → SlotsOk s
    → Ok (exec_page o acc seg va at s)
unfolding exec_page
exec_page-Ok o acc seg va none s h = load_exec-Ok o acc seg va none s h
exec_page-Ok o acc seg va (some i) s h = elim (Bool-cases (s.pgmeta i).in_swap) [
  | inl in_it ↦ rw in_it (swap_in-Ok o seg va i s in_it h)
  | inr out ↦ rw out (load_exec-Ok o acc seg va (some i) s h)
]

bring_in-Ok :
    (o : Outside) (acc : Access) (va : ℕ) (seg : Option Segment) (s : Space)
    → SlotsOk s
    → Ok (bring_in o acc va seg s)
unfolding bring_in
bring_in-Ok o acc va none s h =
    if_both Ok (is_heap va s || is_stack va s)
      (zero_page-Ok o va (pgmeta_alloc va s) (KeepsSlots-SlotsOk (pgmeta_alloc-KeepsSlots va s) h))
      (record { slots = h })
bring_in-Ok o acc va (some seg) s h =
    if_both Ok s.has_exec (exec_page-Ok o acc seg va (pgmeta_find va s) s h) (record { slots = h })

page_fault-Ok :
    (o : Outside) (acc : Access) (va : ℕ) (pte : Option Pte) (s : Space)
    → SlotsOk s
    → Ok (page_fault o acc va pte s)
unfolding page_fault
page_fault-Ok o acc va (some pte) s h = upgrade-Ok acc va pte s h
page_fault-Ok o acc va none s h = bring_in-Ok o acc va (segment_at va s.segs) s h

vmfault-Ok : (o : Outside) (acc : Access) (va : ℕ) (s : Space) → SlotsOk s → Ok (vmfault o acc va s)
unfolding vmfault
vmfault-Ok o acc va s h =
    if_both Ok (leb maxva va) (record { slots = h })
      (page_fault-Ok o acc (pgrounddown va) (s.pagetable (pgrounddown va)) s h)

-- Whatever the fault and whatever the kernel answers on the way, with evictions and failures: if
-- every page in the swap file has a slot of its own whose bit is set, this is so afterwards.
pub vmfault-SlotsOk :
    (o : Outside) (acc : Access) (va : ℕ) (s : Space) → SlotsOk s → SlotsOk (vmfault o acc va s).1
vmfault-SlotsOk o acc va s h = (vmfault-Ok o acc va s h).slots
