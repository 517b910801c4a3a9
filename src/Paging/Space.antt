-- ===== src/Paging/Space.antt =====
-- xv6-memory-management/kernel/proc.h and vm.c: the paging fields of a process, the records of its
-- pages and the bitmap of its swap file.
use systems_suite.Prelude.{
  ℕ, Bool, true, false, not, Option, none, some, List, leb, ◌==◌, if◌then◌else◌, write,
}
use systems_suite.Process.Table.{first_such}

abbrev pub pgmeta_size : ℕ
pgmeta_size = 1024

abbrev pub swap_slots : ℕ
swap_slots = 1024

-- The permissions of a page beyond reading.
pub record Perm : Type 0 where
  pub w : Bool
  pub x : Bool

-- A valid entry of the page table, with the page's bytes.
pub record Pte : Type 0 where
  pub perm : Perm
  pub content : List ℕ

-- An entry of `pgmeta`; `perm` is `none` where the code keeps 0.
pub record PageMeta : Type 0 where
  pub va : ℕ
  pub seq : ℕ
  pub resident : Bool
  pub dirty : Bool
  pub referenced : Bool
  pub in_swap : Bool
  pub slot : ℕ
  pub perm : Option Perm

pub record Segment : Type 0 where
  pub va : ℕ
  pub memsz : ℕ
  pub filesz : ℕ
  pub off : ℕ
  pub perm : Perm

-- Entry `i` of `swap_bitmap` is bit `i & 7` of byte `i >> 3`.
pub record Space : Type 0 where
  pub pagetable : ℕ → Option Pte
  pub sz : ℕ
  pub sp : ℕ
  pub heap_brk : ℕ
  pub has_exec : Bool
  pub segs : List Segment
  pub page_seq_ctr : ℕ
  pub has_swap : Bool
  pub swap_data : ℕ → List ℕ
  pub swap_pages : ℕ
  pub swap_bitmap : ℕ → Bool
  pub pgmeta : ℕ → PageMeta
  pub clock_hand : ℕ
  pub killed : Bool

abbrev pub set_meta : ℕ → PageMeta → Space → Space
set_meta i m s = record s { pgmeta = write s.pgmeta i m }

-- The entry that `pgmeta_alloc` and `pgmeta_clear` leave, for the page at `va`.
abbrev pub fresh_meta : ℕ → PageMeta
fresh_meta va = record {
  va = va;
  seq = 0;
  resident = false;
  dirty = false;
  referenced = false;
  in_swap = false;
  slot = 65535;
  perm = none;
}

unfoldable pub pgmeta_find : ℕ → Space → Option ℕ
unfolding first_such
pgmeta_find va s = first_such (λ i. (s.pgmeta i).va == va) pgmeta_size

-- The page's entry, or else a free one.
unfoldable pub take_free : ℕ → Option ℕ → Space → Option ℕ × Space
take_free va none s = (none, s)
take_free va (some i) s = (some i, set_meta i (fresh_meta va) s)

unfoldable pub alloc_from : ℕ → Option ℕ → Space → Option ℕ × Space
unfolding take_free first_such
alloc_from va (some i) s = (some i, s)
alloc_from va none s = take_free va (first_such (λ i. (s.pgmeta i).va == 0) pgmeta_size) s

unfoldable pub pgmeta_alloc : ℕ → Space → Option ℕ × Space
unfolding alloc_from pgmeta_find
pgmeta_alloc va s = alloc_from va (pgmeta_find va s) s

unfoldable pub pgmeta_clear : ℕ → Space → Space
pgmeta_clear i s = set_meta i (fresh_meta 0) s

-- The first slot whose bit is clear. `swap_alloc_slot` sets the bit as well.
unfoldable pub free_slot : Space → Option ℕ
unfolding first_such
free_slot s = first_such (λ i. not (s.swap_bitmap i)) swap_slots

abbrev pub take_slot : ℕ → Space → Space
take_slot slot s = record s { swap_bitmap = write s.swap_bitmap slot true }

unfoldable pub swap_free_slot : ℕ → Space → Space
swap_free_slot slot s =
    if leb swap_slots slot then s else record s { swap_bitmap = write s.swap_bitmap slot false }
