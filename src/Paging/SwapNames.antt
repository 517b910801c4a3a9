-- ===== src/Paging/SwapNames.antt =====
-- xv6-memory-management/kernel/proc.c: what a swap file is called, who shares it, and what its removal
-- leaves.
use systems_suite.Prelude.{
  ℕ, zero, suc, ◌+◌, ◌/◌, ◌%◌, ◌≡◌, ◌≢◌, refl, sym, ap, subst, ◌∙◌, ◌↔◌, inl, inr, true, false,
  Option, none, some, List, [], ◌∷◌, ◌++◌, arith, ◌==◌, length, take, drop, write, All, Bool-cases,
}
use systems_suite.Paging.SwapFile.{
  slash, digits, swap_path, element, entry_name, same_name, Disk, FileSystem, Swap, create,
  open_swapfile, alloc_from_name, alloc_swapfile,
}

abbrev Letter : ℕ → Type 0
Letter c = (c ≢ 0) × (c ≢ slash)

element-append : (xs ys : List ℕ) → All Letter xs → take (length xs) (element (xs ++ ys)) ≡ xs
unfolding element
element-append [] ys h = refl
element-append (x ∷ xs) ys h =
    let no_slash : (x == slash) ≡ false = (let ne = h.0.1 in ground arith) in
    let no_end : (x == 0) ≡ false = (let ne = h.0.0 in ground arith) in
    rw (no_slash, no_end) (ap (λ zs. x ∷ zs) (element-append xs ys h.1))

-- The ten letters and the first four of the five digits.
abbrev pub short_name : ℕ → List ℕ
short_name n = (112 ∷ 103 ∷ 115 ∷ 119 ∷ 112 ∷ 48 ∷ 48 ∷ 48 ∷ 48 ∷ 48 ∷ []) ++ digits 4 n

entry_name-swap_path :
    (behind : List ℕ) (pid : ℕ) → entry_name (swap_path behind pid) ≡ short_name (pid / 10)
unfolding entry_name swap_path
entry_name-swap_path behind pid =
    element-append (short_name (pid / 10)) ((48 + pid % 10) ∷ behind) (omega arith)

digit_of : List ℕ → ℕ → ℕ
digit_of [] i = 0
digit_of (c ∷ cs) zero = c
digit_of (c ∷ cs) (suc i) = digit_of cs i

digits_same : (a b : ℕ) → (digits 4 a ≡ digits 4 b) ↔ (a % 10000 ≡ b % 10000)
unfolding digits digit_of
digits_same a b = (
  λ e. omega (
    arith,
    ap (λ l. digit_of l 0) e,
    ap (λ l. digit_of l 1) e,
    ap (λ l. digit_of l 2) e,
    ap (λ l. digit_of l 3) e,
  ),
  λ e. ground arith,
)

-- Two processes have the same name for their swap files exactly if the ten-thousands to the tens of
-- their pids are the same: the last of the five digits is cut off, whatever the memory behind the
-- name held.
pub swap_name_shared :
    (behind behind' : List ℕ) (pid pid' : ℕ)
    → (entry_name (swap_path behind pid) ≡ entry_name (swap_path behind' pid'))
      ↔ (pid / 10 % 10000 ≡ pid' / 10 % 10000)
swap_name_shared behind behind' pid pid' =
    let named = entry_name-swap_path behind pid in
    let named' = entry_name-swap_path behind' pid' in
    (
      λ e. (digits_same (pid / 10) (pid' / 10)).0 (ap (drop 10) (sym named ∙ e ∙ named')),
      λ e.
          named
          ∙ ap (λ l. (112 ∷ 103 ∷ 115 ∷ 119 ∷ 112 ∷ 48 ∷ 48 ∷ 48 ∷ 48 ∷ 48 ∷ []) ++ l)
              ((digits_same (pid / 10) (pid' / 10)).1 e)
          ∙ sym named',
    )

pub same_name_refl : (s : List ℕ) → same_name s s ≡ true
unfolding same_name
same_name_refl [] = refl
same_name_refl (c ∷ cs) = let e : (c == c) ≡ true = ground arith in rw (e, same_name_refl cs) refl

pub same_name-eq : (s t : List ℕ) → same_name s t ≡ true → s ≡ t
unfolding same_name
same_name-eq [] [] e = refl
same_name-eq [] (y ∷ ys) e = cc
same_name-eq (x ∷ xs) [] e = cc
same_name-eq (x ∷ xs) (y ∷ ys) e =
    let head : x ≡ y = ground arith in let tail : xs ≡ ys = same_name-eq xs ys (ground arith) in cc

-- A process that has opened its swap file finds it under the file's name.
create_named :
    (f : FileSystem) (name : List ℕ) (o : Option ℕ) (p : Swap) (d : Disk)
    → (create f name o p d).0 ≡ true
    → (create f name o p d).2.root name ≡ (create f name o p d).1.swapip
unfolding create
create_named f name none p d ok = cc
create_named f name (some ip) p d ok = elim (Bool-cases f.linked) [
  | inl yes_linked ↦ rw (yes_linked, same_name_refl name) refl
  | inr no_link ↦ absurd (ground arith)
]

open_named :
    (f : FileSystem) (name : List ℕ) (o : Option ℕ) (p : Swap) (d : Disk)
    → d.root name ≡ o
    → (open_swapfile f name o p d).0 ≡ true
    → (open_swapfile f name o p d).2.root name ≡ (open_swapfile f name o p d).1.swapip
unfolding open_swapfile
open_named f name none p d e ok = create_named f name f.ialloc p d ok
open_named f name (some ip) p d e ok = e

alloc_named :
    (f : FileSystem) (name : List ℕ) (p : Swap) (d : Disk)
    → (alloc_from_name f name none p d).0 ≡ true
    → (alloc_from_name f name none p d).2.root name ≡ (alloc_from_name f name none p d).1.swapip
unfolding alloc_from_name
alloc_named f name p d ok = elim (Bool-cases f.parent_found) [
  | inl found ↦ rw found (open_named f name (d.root name) p d refl (ground arith))
  | inr lost ↦ absurd (ground arith)
]

opened :
    (f : FileSystem) (name : List ℕ) (q : Swap) (d : Disk) (ip : ℕ) (o : Option ℕ)
    → o ≡ some ip
    → open_swapfile f name o q d
      ≡ (true, record q { swapip = some ip }, record d { pages = write d.pages ip (λ _. []) })
unfolding open_swapfile
opened f name q d ip o e =
    subst
      (λ x.
        open_swapfile f name x q d
        ≡ (true, record q { swapip = some ip }, record d { pages = write d.pages ip (λ _. []) }))
      (sym e) refl

reopened :
    (g : FileSystem) (name : List ℕ) (q : Swap) (d : Disk) (ip : ℕ)
    → g.parent_found ≡ true
    → d.root name ≡ some ip
    → alloc_from_name g name none q d
      ≡ (true, record q { swapip = some ip }, record d { pages = write d.pages ip (λ _. []) })
unfolding alloc_from_name
reopened g name q d ip found rooted = rw found (opened g name q d ip (d.root name) rooted)

truncated : (pages : ℕ → ℕ → List ℕ) (ip slot : ℕ) → write pages ip (λ _. []) ip slot ≡ []
truncated pages ip slot = let e : (ip == ip) ≡ true = ground arith in rw e refl

-- A process opens its swap file, and pages are written to the disk, while the root directory stays;
-- then another does whose pid differs in the last digit only, or by a multiple of 100000. It gets
-- the same file, and truncates it: every page that the first had in it is lost.
pub swap_file_shared :
    (behind behind' : List ℕ) (f g : FileSystem) (p q : Swap) (d d' : Disk) (ip : ℕ)
    → p.swapip ≡ none
    → q.swapip ≡ none
    → p.pid / 10 % 10000 ≡ q.pid / 10 % 10000
    → (alloc_swapfile behind f p d).0 ≡ true
    → (alloc_swapfile behind f p d).1.swapip ≡ some ip
    → d'.root ≡ (alloc_swapfile behind f p d).2.root
    → g.parent_found ≡ true
    → let r = alloc_swapfile behind' g q d' in
      (r.0 ≡ true) × (r.1.swapip ≡ some ip) × ((slot : ℕ) → r.2.pages ip slot ≡ [])
unfolding alloc_swapfile
swap_file_shared behind behind' f g p q d d' ip none_yet none_yet' near ok own same found =
    let name = entry_name (swap_path behind p.pid) in
    let name' = entry_name (swap_path behind' q.pid) in
    let one_name : name ≡ name' = (swap_name_shared behind behind' p.pid q.pid).1 near in
    let first : alloc_from_name f name p.swapip p d ≡ alloc_from_name f name none p d =
      ap (λ o. alloc_from_name f name o p d) none_yet in
    let named : (alloc_from_name f name p.swapip p d).2.root name ≡ some ip =
      subst (λ x. x.2.root name ≡ x.1.swapip) (sym first)
        (alloc_named f name p d (subst (λ x. x.0 ≡ true) first ok))
      ∙ own in
    let rooted : d'.root name' ≡ some ip =
      ap (λ (r : List ℕ → Option ℕ). r name') same
      ∙ ap (λ n. (alloc_from_name f name p.swapip p d).2.root n) (sym one_name)
      ∙ named in
    let e =
      ap (λ o. alloc_from_name g name' o q d') none_yet' ∙ reopened g name' q d' ip found rooted in
    (
      ap (λ x. x.0) e,
      ap (λ x. x.1.swapip) e,
      λ slot. ap (λ x. x.2.pages ip slot) e ∙ truncated d'.pages ip slot,
    )
