-- ===== src/Paging/SwapFile.antt =====
-- xv6-memory-management/kernel/proc.c: the swap files, one for each process, in the root directory.
use systems_suite.Prelude.{
  ℕ, zero, suc, ◌+◌, ◌/◌, ◌%◌, Bool, true, false, ◌&&◌, Option, none, some, List, [], ◌∷◌, ◌++◌,
  ltb, ◌-◌, ◌==◌, if◌then◌else◌, take, drop, write,
}
use systems_suite.Paging.Space.{swap_slots}

abbrev pub dirsiz : ℕ
dirsiz = 14

abbrev pub slash : ℕ
slash = 47

-- The `n` last decimal digits of a number, the highest first.
unfoldable pub digits : ℕ → ℕ → List ℕ
digits zero n = []
digits (suc k) n = digits k (n / 10) ++ (48 + n % 10) ∷ []

-- The array `name`: `/pgswp00000`, over whose NUL the five digits are written, and behind them what
-- was in the memory.
unfoldable pub swap_path : List ℕ → ℕ → List ℕ
unfolding digits
swap_path behind pid =
    (47 ∷ 112 ∷ 103 ∷ 115 ∷ 119 ∷ 112 ∷ 48 ∷ 48 ∷ 48 ∷ 48 ∷ 48 ∷ []) ++ (digits 5 pid ++ behind)

-- The first element of a path behind its slash, as `skipelem` of fs.c cuts it out.
unfoldable pub element : List ℕ → List ℕ
element [] = []
element (c ∷ cs) =
    let rest = element cs in if c == slash then [] else if c == 0 then [] else c ∷ rest

unfoldable pub entry_name : List ℕ → List ℕ
unfolding element
entry_name path = take dirsiz (element (drop 1 path))

unfoldable pub same_name : List ℕ → List ℕ → Bool
same_name [] [] = true
same_name [] (y ∷ ys) = false
same_name (x ∷ xs) [] = false
same_name (x ∷ xs) (y ∷ ys) = let rest = same_name xs ys in x == y && rest

-- The root directory, and of each inode its links and its pages.
pub record Disk : Type 0 where
  pub root : List ℕ → Option ℕ
  pub nlink : ℕ → ℕ
  pub pages : ℕ → ℕ → List ℕ

-- What the file system answers: whether the parent directory is found, a free inode, and whether
-- `dirlink` succeeds.
pub record FileSystem : Type 0 where
  pub parent_found : Bool
  pub ialloc : Option ℕ
  pub linked : Bool

abbrev pub enter : List ℕ → Option ℕ → Disk → Disk
enter name entry d = record d {
  root = λ other. if same_name name other then entry else d.root other;
}

-- The part of a process that the functions use.
pub record Swap : Type 0 where
  pub pid : ℕ
  pub swapip : Option ℕ
  pub swap_bitmap : ℕ → Bool

-- A new inode and its entry in the directory.
unfoldable pub create : FileSystem → List ℕ → Option ℕ → Swap → Disk → Bool × Swap × Disk
create f name none p d = (false, p, d)
create f name (some ip) p d =
    if f.linked
    then (
      true,
      record p { swapip = some ip },
      enter name (some ip)
          (record d { nlink = write d.nlink ip 1; pages = write d.pages ip (λ _. []) }),
    )
    else (false, p, record d { nlink = write d.nlink ip 0; pages = write d.pages ip (λ _. []) })

-- The file of that name is truncated, or else made.
unfoldable pub open_swapfile : FileSystem → List ℕ → Option ℕ → Swap → Disk → Bool × Swap × Disk
unfolding create
open_swapfile f name none p d = create f name f.ialloc p d
open_swapfile f name (some ip) p d =
    (true, record p { swapip = some ip }, record d { pages = write d.pages ip (λ _. []) })

unfoldable pub alloc_from_name : FileSystem → List ℕ → Option ℕ → Swap → Disk → Bool × Swap × Disk
unfolding open_swapfile
alloc_from_name f name (some ip) p d = (true, p, d)
alloc_from_name f name none p d =
    if f.parent_found then open_swapfile f name (d.root name) p d else (false, p, d)

unfoldable pub alloc_swapfile : List ℕ → FileSystem → Swap → Disk → Bool × Swap × Disk
unfolding alloc_from_name
alloc_swapfile behind f p d = alloc_from_name f (entry_name (swap_path behind p.pid)) p.swapip p d

-- The entry is cleared, and the file has a link less. What `iput` then does to an inode without links
-- is left out.
unfoldable pub unlink : List ℕ → Option ℕ → Disk → Disk
unlink name none d = d
unlink name (some ip) d =
    enter name none
      (if ltb 0 (d.nlink ip) then record d { nlink = write d.nlink ip (d.nlink ip - 1) } else d)

-- The bits of the slots, and how many of them were set.
unfoldable pub clear_slots : ℕ → (ℕ → Bool) → (ℕ → Bool) × ℕ
clear_slots zero bitmap = (bitmap, 0)
clear_slots (suc n) bitmap =
    let (bitmap', freed) = clear_slots n bitmap in
    if bitmap' n then (write bitmap' n false, freed + 1) else (bitmap', freed)

unfoldable pub remove_from_name : FileSystem → List ℕ → Option ℕ → Swap → Disk → Swap × Disk × ℕ
unfolding unlink
remove_from_name f name none p d = (p, d, 0)
remove_from_name f name (some ip) p d =
    let (bitmap, freed) = clear_slots swap_slots p.swap_bitmap in
    (
      record p { swapip = none; swap_bitmap = bitmap },
      (if f.parent_found then unlink name (d.root name) d else d),
      freed,
    )

-- The process without its swap file, the disk, and the number of slots that is logged.
unfoldable pub remove_swapfile : List ℕ → FileSystem → Swap → Disk → Swap × Disk × ℕ
unfolding remove_from_name
remove_swapfile behind f p d = remove_from_name f (entry_name (swap_path behind p.pid)) p.swapip p d
