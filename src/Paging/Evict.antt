-- ===== src/Paging/Evict.antt =====
-- xv6-memory-management/kernel/vm.c: `try_evict_one`, with FIFO replacement, and `kalloc_or_evict`.
-- What `kalloc` and the file system answer are arguments.
use systems_suite.Prelude.{
  ℕ, zero, suc, ◌+◌, ◌-◌, ◌%◌, ◌^◌, Bool, true, false, not, ◌&&◌, ◌||◌, Option, none, some, List,
  ltb, ◌==◌, if◌then◌else◌, write,
}
use systems_suite.Paging.Space.{
  pgmeta_size, Pte, PageMeta, Space, pgmeta_clear, free_slot, take_slot, swap_free_slot,
}

-- What the kernel's other parts answer during a fault; `exec_read off n` are the `n` bytes of the
-- executable from `off` on, or `none` if `readi` returns less.
pub record Outside : Type 0 where
  pub kalloc : Bool
  pub kalloc_again : Bool
  pub swap_written : Bool
  pub swap_read : Bool
  pub mapped : Bool
  pub exec_read : ℕ → ℕ → Option (List ℕ)

abbrev pub is_candidate : PageMeta → Bool
is_candidate m = not (m.va == 0) && m.resident

-- `now - seq` on 64 bits.
unfoldable pub age : ℕ → PageMeta → ℕ
age now m = (now + 2 ^ 64 - m.seq) % 2 ^ 64

-- One round of the scan.
unfoldable pub older : (ℕ → ℕ) → ℕ → Option ℕ → Option ℕ
older ages i none = some i
older ages i (some best) = if ltb (ages best) (ages i) then some i else some best

unfoldable pub oldest : (ℕ → Bool) → (ℕ → ℕ) → ℕ → Option ℕ
unfolding older
oldest fits ages zero = none
oldest fits ages (suc n) =
    let best = oldest fits ages n in if fits n then older ages n best else best

unfoldable pub fifo_victim : Space → Option ℕ
unfolding oldest age
fifo_victim s =
    oldest (λ i. is_candidate (s.pgmeta i)) (λ i. age s.page_seq_ctr (s.pgmeta i)) pgmeta_size

-- `uvmunmap` and the end of the eviction of entry `i`.
unfoldable pub unmap_victim : ℕ → Space → Space
unmap_victim i s = record s {
  pagetable = write s.pagetable (s.pgmeta i).va none;
  pgmeta = write s.pgmeta i (record (s.pgmeta i) { resident = false; dirty = false });
  clock_hand = (i + 1) % pgmeta_size;
}

-- A dirty page goes to a slot of the swap file; with none left the process is killed.
unfoldable pub swap_out : Bool → ℕ → Pte → Option ℕ → Space → Bool × Space
unfolding swap_free_slot unmap_victim
swap_out written i pte none s = (false, record s { killed = true })
swap_out written i pte (some slot) s =
    let s' = take_slot slot s in
    if written
    then (
      true,
      unmap_victim i (record s' {
        swap_data = write s.swap_data slot pte.content;
        swap_pages = s.swap_pages + 1;
        pgmeta = write s.pgmeta i (record (s.pgmeta i) { in_swap = true; slot = slot });
      }),
    )
    else (false, swap_free_slot slot s')

unfoldable pub evict_page : Bool → ℕ → Option Pte → Space → Bool × Space
unfolding swap_out unmap_victim pgmeta_clear free_slot
evict_page written i none s = (false, pgmeta_clear i s)
evict_page written i (some pte) s =
    if (s.pgmeta i).dirty || pte.perm.w
    then (if s.has_swap
        then swap_out written i pte (free_slot s) s
        else (false, record s { killed = true }))
    else (true, unmap_victim i s)

unfoldable pub evict_from : Bool → Option ℕ → Space → Bool × Space
unfolding evict_page
evict_from written none s = (false, s)
evict_from written (some i) s = evict_page written i (s.pagetable (s.pgmeta i).va) s

-- Whether a page was evicted, and the state.
unfoldable pub try_evict_one : Bool → Space → Bool × Space
unfolding evict_from fifo_victim
try_evict_one written s = evict_from written (fifo_victim s) s

unfoldable pub kalloc_or_evict : Outside → Space → Bool × Space
unfolding try_evict_one
kalloc_or_evict o s =
    if o.kalloc
    then (true, s)
    else let (evicted, s') = try_evict_one o.swap_written s in (evicted && o.kalloc_again, s')
