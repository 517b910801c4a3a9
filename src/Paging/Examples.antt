-- ===== src/Paging/Examples.antt =====
-- xv6-memory-management/kernel/vm.c: the theorems at a process with two resident pages.
use systems_suite.Prelude.{
  ℕ, ◌+◌, ◌≡◌, ◌≤◌, refl, ◌==◌, if◌then◌else◌, true, false, none, some, [], ◌∷◌, ◌||◌, ltb, arith,
  Finds,
}
use systems_suite.Paging.Space.{
  pgmeta_size, fresh_meta, Perm, Pte, PageMeta, Segment, Space, pgmeta_find, free_slot,
}
use systems_suite.Paging.Evict.{
  Outside, is_candidate, fifo_victim, oldest, older, age, try_evict_one,
}
use systems_suite.Paging.Fault.{
  writes, reads, zeros, pgsize, no_perm, vmfault, segment_at, is_heap, is_stack,
}
use systems_suite.Paging.Slots.{SlotsOk}
use systems_suite.Paging.Faults.{vmfault-SlotsOk}
use systems_suite.Paging.Order.{fifo_victim-Finds}
use systems_suite.Paging.NextFault.{IsVictim}
use systems_suite.Paging.RoundTrip.{swap_round_trip, heap_page_lost}

abbrev text_perm : Perm
text_perm = record { w = false; x = true }

abbrev writable : Perm
writable = record { w = true; x = false }

abbrev text : Segment
text = record { va = 4096; memsz = 8192; filesz = 8192; off = 4096; perm = text_perm }

-- Entries 0 and 1 are resident, entry 2 is in slot 0 of the swap file.
abbrev metas : ℕ → PageMeta
metas i =
    if ltb i 2
    then record (fresh_meta (4096 + i)) { seq = i; resident = true }
    else record (fresh_meta 0) { in_swap = i == 2; slot = if i == 2 then 0 else 65535 }

abbrev program : Space
program = record {
  pagetable = λ va. none;
  sz = 65536;
  sp = 40960;
  heap_brk = 20480;
  has_exec = true;
  segs = text ∷ [];
  page_seq_ctr = 7;
  has_swap = true;
  swap_data = λ k. [];
  swap_pages = 1;
  swap_bitmap = λ k. k == 0;
  pgmeta = metas;
  clock_hand = 0;
  killed = false;
}

abbrev at_hand : Outside
at_hand = record {
  kalloc = true;
  kalloc_again = true;
  swap_written = true;
  swap_read = true;
  mapped = true;
  exec_read = λ off n. some (zeros n);
}

program-SlotsOk : SlotsOk program
program-SlotsOk = record { held = λ i e. ground arith; apart = λ i j e f same. ground arith }

-- With no memory left, the fault evicts a page first.
vmfault-SlotsOk_example :
    SlotsOk (vmfault (record at_hand { kalloc = false }) writes 16384 program).1
vmfault-SlotsOk_example =
    vmfault-SlotsOk (record at_hand { kalloc = false }) writes 16384 program program-SlotsOk

numbered :
    (i : ℕ) → is_candidate (program.pgmeta i) ≡ true → (program.pgmeta i).seq ≤ program.page_seq_ctr
numbered i h = ground arith

fifo_victim-Finds_example :
    Finds
      (λ i. is_candidate (program.pgmeta i))
      (λ i. (program.pgmeta i).seq)
      pgmeta_size
      (fifo_victim program)
fifo_victim-Finds_example = fifo_victim-Finds program (omega arith) numbered

abbrev page : Pte
page = record { perm = writable; content = 7 ∷ 8 ∷ [] }

-- Entry 0 is the page, and it is mapped.
abbrev with_page : ℕ → Space
with_page va = record program {
  pagetable = λ x. if x == va then some page else none;
  pgmeta = λ i. if i == 0 then record (fresh_meta va) { resident = true } else fresh_meta 0;
}

text_IsVictim : IsVictim 0 1 4096 page (with_page 4096)
unfolding fifo_victim oldest older age pgmeta_find free_slot
text_IsVictim = record {
  picked = refl;
  at = refl;
  own = refl;
  mapped = refl;
  dirty = refl;
  has_file = refl;
  free = refl;
  aligned = refl;
  low = refl;
}

in_text : segment_at 4096 (with_page 4096).segs ≡ some text
unfolding segment_at
in_text = refl

swap_round_trip_example :
    let out = try_evict_one true (with_page 4096) in
    let r = vmfault at_hand reads 4096 out.1 in
    (out.0 ≡ true)
    × (r.0 ≡ true)
    × (r.1.pagetable 4096 ≡ some (record { perm = text_perm; content = 7 ∷ 8 ∷ [] }))
    × (r.1.swap_bitmap 1 ≡ false)
    × (r.1.swap_pages ≡ 1)
swap_round_trip_example =
    swap_round_trip at_hand reads text 0 1 4096 page (with_page 4096) text_IsVictim refl in_text
      refl refl refl

heap_IsVictim : IsVictim 0 1 16384 page (with_page 16384)
unfolding fifo_victim oldest older age pgmeta_find free_slot
heap_IsVictim = record {
  picked = refl;
  at = refl;
  own = refl;
  mapped = refl;
  dirty = refl;
  has_file = refl;
  free = refl;
  aligned = refl;
  low = refl;
}

in_no_segment : segment_at 16384 (with_page 16384).segs ≡ none
unfolding segment_at
in_no_segment = refl

on_heap : (is_heap 16384 (with_page 16384) || is_stack 16384 (with_page 16384)) ≡ true
unfolding is_heap
on_heap = refl

heap_page_lost_example :
    let out = try_evict_one true (with_page 16384) in
    let r = vmfault at_hand reads 16384 out.1 in
    (out.0 ≡ true)
    × (r.0 ≡ true)
    × (r.1.pagetable 16384 ≡ some (record { perm = no_perm; content = zeros pgsize }))
    × (r.1.swap_data 1 ≡ 7 ∷ 8 ∷ [])
    × (r.1.swap_bitmap 1 ≡ true)
heap_page_lost_example =
    heap_page_lost at_hand reads 0 1 16384 page (with_page 16384) heap_IsVictim in_no_segment
      on_heap refl refl
