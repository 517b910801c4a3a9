-- ===== src/Paging/NextFault.antt =====
-- xv6-memory-management/kernel/vm.c: the eviction of a page that must be written, and which way its
-- next fault takes.
use systems_suite.Prelude.{
  none, if◌then◌else◌, subst, not, leb, ◌==◌, ◌||◌, false, ℕ, ◌<◌, ◌≡◌, refl, true, false, some,
  arith, ap, ◌∙◌,
}
use mathlib.Core.Path.{fun_ext}
use systems_suite.Process.Table.{first_such}
use systems_suite.Process.Choice.{Searches, first_such-Searches}
use systems_suite.Paging.Space.{
  swap_slots, pgmeta_size, Pte, Segment, Space, pgmeta_find, pgmeta_alloc, alloc_from, free_slot,
}
use systems_suite.Paging.Evict.{
  Outside, fifo_victim, unmap_victim, swap_out, evict_page, evict_from, try_evict_one,
}
use systems_suite.Paging.Fault.{
  Access, exec_page, zero_page, maxva, pgrounddown, is_heap, is_stack, segment_at, bring_in,
  page_fault, vmfault,
}

-- Entry `i` is the victim, a page `va` that must be written to slot `slot` of the swap file.
pub record IsVictim (i slot va : ℕ) (pte : Pte) (s : Space) : Type 0 where
  pub picked : fifo_victim s ≡ some i
  pub at : (s.pgmeta i).va ≡ va
  pub own : pgmeta_find va s ≡ some i
  pub mapped : s.pagetable va ≡ some pte
  pub dirty : ((s.pgmeta i).dirty || pte.perm.w) ≡ true
  pub has_file : s.has_swap ≡ true
  pub free : free_slot s ≡ some slot
  pub aligned : pgrounddown va ≡ va
  pub low : leb maxva va ≡ false

pub free_slot-below : (s : Space) (slot : ℕ) → free_slot s ≡ some slot → slot < swap_slots
unfolding free_slot
free_slot-below s slot e =
    (subst (λ o. Searches (λ j. not (s.swap_bitmap j)) swap_slots o) e
      (first_such-Searches (λ j. not (s.swap_bitmap j)) swap_slots)).below

-- A victim that must be written goes to the swap file.
page_out :
    (i : ℕ) (pte : Pte) (s : Space) (slot : ℕ)
    → ((s.pgmeta i).dirty || pte.perm.w) ≡ true
    → s.has_swap ≡ true
    → free_slot s ≡ some slot
    → evict_page true i (some pte) s ≡ swap_out true i pte (some slot) s
unfolding evict_page
page_out i pte s slot d f e = simp (d, f, e) refl

pub evicted :
    {i slot va : ℕ} {pte : Pte} {s : Space}
    → IsVictim i slot va pte s
    → try_evict_one true s ≡ swap_out true i pte (some slot) s
unfolding try_evict_one evict_from
evicted {i} {slot} {va} {pte} {s} v =
    ap (λ o. evict_from true o s) v.picked
    ∙ ap (λ o. evict_page true i o s) (ap s.pagetable v.at ∙ v.mapped)
    ∙ page_out i pte s slot v.dirty v.has_file v.free

same_va :
    (i slot : ℕ) (pte : Pte) (s : Space) (j : ℕ)
    → ((swap_out true i pte (some slot) s).1.pgmeta j).va ≡ (s.pgmeta j).va
unfolding swap_out unmap_victim
same_va i slot pte s j = ground arith

no_more :
    (i slot : ℕ) (pte : Pte) (s : Space)
    → (swap_out true i pte (some slot) s).1.pagetable (s.pgmeta i).va ≡ none
unfolding swap_out unmap_victim
no_more i slot pte s =
    let e : (i == i) ≡ true = ground arith in
    let f : ((s.pgmeta i).va == (s.pgmeta i).va) ≡ true = ground arith in rw (e, f) refl

-- What an eviction leaves alone, and the page that is mapped no more.
out_rest :
    {i slot va : ℕ} {pte : Pte} {s : Space}
    → IsVictim i slot va pte s
    → let s' = (swap_out true i pte (some slot) s).1 in
      (pgmeta_find va s' ≡ some i) × (s'.pagetable va ≡ none)
unfolding pgmeta_find
out_rest {i} {slot} {va} {pte} {s} v =
    let s' = (swap_out true i pte (some slot) s).1 in
    (
      ap (λ f. first_such f pgmeta_size) (fun_ext (λ j. ap (λ x. x == va) (same_va i slot pte s j)))
          ∙ v.own,
      subst (λ x. s'.pagetable x ≡ none) v.at (no_more i slot pte s),
    )

-- The next fault on the page.
faults :
    (o : Outside) (acc : Access) {i slot va : ℕ} {pte : Pte} {s : Space}
    → IsVictim i slot va pte s
    → let s' = (swap_out true i pte (some slot) s).1 in
      vmfault o acc va s' ≡ bring_in o acc va (segment_at va s'.segs) s'
unfolding vmfault page_fault
faults o acc {i} {slot} {va} {pte} {s} v =
    let s' = (swap_out true i pte (some slot) s).1 in
    let gone = (out_rest v).1 in
    simp v.low (
      ap (λ x. page_fault o acc x (s'.pagetable x) s') v.aligned
      ∙ ap (λ p. page_fault o acc va p s') gone)

-- An eviction keeps the layout of the process.
out_layout :
    (i slot va : ℕ) (pte : Pte) (s : Space)
    → let s' = (swap_out true i pte (some slot) s).1 in
      (s'.segs ≡ s.segs)
      × (s'.has_exec ≡ s.has_exec)
      × ((is_heap va s' || is_stack va s') ≡ (is_heap va s || is_stack va s))
unfolding swap_out unmap_victim is_heap
out_layout i slot va pte s = (refl, refl, refl)

-- A fault on a page of the executable, and on one of the heap or the stack.
pub exec_fault :
    (o : Outside) (acc : Access) (seg : Segment) {i slot va : ℕ} {pte : Pte} {s : Space}
    → IsVictim i slot va pte s
    → s.has_exec ≡ true
    → segment_at va s.segs ≡ some seg
    → let s' = (swap_out true i pte (some slot) s).1 in
      vmfault o acc va s' ≡ exec_page o acc seg va (some i) s'
unfolding bring_in
exec_fault o acc seg {i} {slot} {va} {pte} {s} v exec in_seg =
    let s' = (swap_out true i pte (some slot) s).1 in
    let (segs, execs, heap) = out_layout i slot va pte s in
    let has : s'.has_exec ≡ true = execs ∙ exec in
    faults o acc v
    ∙ ap (λ x. bring_in o acc va x s') (ap (segment_at va) segs ∙ in_seg)
    ∙ ap (λ b. if b then exec_page o acc seg va (pgmeta_find va s') s' else (false, s')) has
    ∙ ap (λ at. exec_page o acc seg va at s') (out_rest v).0

known : (va i : ℕ) (s : Space) → pgmeta_find va s ≡ some i → pgmeta_alloc va s ≡ (some i, s)
unfolding pgmeta_alloc alloc_from
known va i s e = ap (λ o. alloc_from va o s) e

pub heap_fault :
    (o : Outside) (acc : Access) {i slot va : ℕ} {pte : Pte} {s : Space}
    → IsVictim i slot va pte s
    → segment_at va s.segs ≡ none
    → (is_heap va s || is_stack va s) ≡ true
    → let s' = (swap_out true i pte (some slot) s).1 in
      vmfault o acc va s' ≡ zero_page o va (some i, s')
unfolding bring_in
heap_fault o acc {i} {slot} {va} {pte} {s} v no_seg wide =
    let s' = (swap_out true i pte (some slot) s).1 in
    let (segs, execs, heap) = out_layout i slot va pte s in
    let has : (is_heap va s' || is_stack va s') ≡ true = heap ∙ wide in
    faults o acc v
    ∙ ap (λ x. bring_in o acc va x s') (ap (segment_at va) segs ∙ no_seg)
    ∙ ap (λ b. if b then zero_page o va (pgmeta_alloc va s') else (false, s')) has
    ∙ ap (zero_page o va) (known va i s' (out_rest v).0)
