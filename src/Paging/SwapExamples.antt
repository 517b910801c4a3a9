-- ===== src/Paging/SwapExamples.antt =====
-- xv6-memory-management/kernel/proc.c and vm.c: swap files and CLOCK at concrete inputs.
use systems_suite.Prelude.{
  ℕ, ◌%◌, ◌<◌, ◌≡◌, refl, Bool, true, false, none, some, List, [], ◌∷◌, count, if◌then◌else◌, ◌==◌,
  write,
}
use systems_suite.Paging.Space.{swap_slots, pgmeta_size, Space, fresh_meta}
use systems_suite.Paging.Clock.{clock_victim}
use systems_suite.Paging.Hand.{Answers}
use systems_suite.Paging.SecondChance.{clock_victim-Answers}
use systems_suite.Paging.SwapFile.{Disk, FileSystem, Swap, alloc_swapfile, remove_swapfile}
use systems_suite.Paging.SwapNames.{swap_file_shared}
use systems_suite.Paging.SwapEnds.{swap_file_round_trip}

abbrev empty_disk : Disk
empty_disk = record { root = λ _. none; nlink = λ _. 0; pages = λ _ _. [] }

abbrev healthy : FileSystem
healthy = record { parent_found = true; ialloc = some 9; linked = true }

abbrev process : ℕ → Swap
process pid = record { pid = pid; swapip = none; swap_bitmap = λ _. false }

opened_ok : (alloc_swapfile [] healthy (process 40) empty_disk).0 ≡ true
unfolding alloc_swapfile
opened_ok = refl

opened_ip : (alloc_swapfile [] healthy (process 40) empty_disk).1.swapip ≡ some 9
unfolding alloc_swapfile
opened_ip = refl

-- The disk after process 40 has written a page to its first slot.
abbrev used_disk : Disk
used_disk = record ((alloc_swapfile [] healthy (process 40) empty_disk).2) { pages = λ _ _. 5 ∷ [] }

swap_file_shared_example :
    let r = alloc_swapfile [] healthy (process 41) used_disk in
    (r.0 ≡ true) × (r.1.swapip ≡ some 9) × ((slot : ℕ) → r.2.pages 9 slot ≡ [])
swap_file_shared_example =
    swap_file_shared [] [] healthy healthy (process 40) (process 41) empty_disk used_disk 9 refl
      refl refl opened_ok opened_ip refl refl

abbrev two_slots : ℕ → Bool
two_slots i = if i == 0 then true else i == 3

swap_file_round_trip_example :
    let used : Swap = record { pid = 40; swapip = some 9; swap_bitmap = two_slots } in
    let r = remove_swapfile [] healthy used (alloc_swapfile [] healthy (process 40) empty_disk).2 in
    ((other : List ℕ) → r.1.root other ≡ empty_disk.root other)
    × ((slot : ℕ) → slot < swap_slots → r.0.swap_bitmap slot ≡ false)
    × (r.0.swapip ≡ none)
    × (r.2 ≡ count two_slots swap_slots)
swap_file_round_trip_example =
    swap_file_round_trip [] [] healthy healthy (process 40) empty_disk 9 two_slots refl refl

-- One resident page, referenced.
abbrev one_page : Space
one_page = record {
  pagetable = λ _. none;
  sz = 8192;
  sp = 4096;
  heap_brk = 8192;
  has_exec = false;
  segs = [];
  page_seq_ctr = 1;
  has_swap = false;
  swap_data = λ _. [];
  swap_pages = 0;
  swap_bitmap = λ _. false;
  pgmeta =
      write (λ _. fresh_meta 0) 5 (record (fresh_meta 4096) { resident = true; referenced = true });
  clock_hand = 3;
  killed = false;
}

clock_victim-Answers_example :
    Answers
      (one_page.clock_hand % pgmeta_size)
      one_page
      (clock_victim one_page).0
      (clock_victim one_page).1
clock_victim-Answers_example = clock_victim-Answers one_page
