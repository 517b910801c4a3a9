-- ===== src/Paging/SwapEnds.antt =====
-- xv6-memory-management/kernel/proc.c, `remove_swapfile`: what is left of a swap file.
use systems_suite.Prelude.{
  ℕ, zero, suc, ◌≤◌, ◌<◌, ◌≡◌, refl, sym, ap, subst, ◌∙◌, inl, inr, Bool, true, false, Option, none,
  some, List, arith, ltb, if◌then◌else◌, count, count-zero, count-suc, Bool-cases, dec_lt,
}
use systems_suite.Paging.Space.{swap_slots}
use systems_suite.Paging.SwapFile.{
  swap_path, entry_name, same_name, Disk, FileSystem, Swap, create, open_swapfile, alloc_from_name,
  alloc_swapfile, unlink, clear_slots, remove_from_name, remove_swapfile,
}
use systems_suite.Paging.SwapNames.{swap_name_shared, same_name-eq}

-- The slots below `n` are free, the others as before, and those that were taken are counted.
record Cleared (n : ℕ) (old new : ℕ → Bool) (freed : ℕ) : Type 0 where
  free : (j : ℕ) → j < n → new j ≡ false
  kept : (j : ℕ) → n ≤ j → new j ≡ old j
  counted : freed ≡ count old n

clear_slots-Cleared :
    (n : ℕ) (bitmap : ℕ → Bool) → Cleared n bitmap (clear_slots n bitmap).0 (clear_slots n bitmap).1
unfolding clear_slots
clear_slots-Cleared zero bitmap = record {
  free = λ j lt. elim lt [ ];
  kept = λ j le. refl;
  counted = sym (count-zero bitmap);
}
clear_slots-Cleared (suc n) bitmap =
    let c = clear_slots-Cleared n bitmap in
    elim (Bool-cases ((clear_slots n bitmap).0 n)) [
      | inl taken ↦ rw taken (record {
        free = λ j lt. elim (dec_lt j n) [
          | yes below ↦ ground (arith, c.free j below)
          | no last ↦ let e : j ≡ n = omega arith in ground (arith, e)
        ];
        kept = λ j le. ground (arith, c.kept j (omega arith));
        counted = ground (arith, c.counted, c.kept n (omega arith), count-suc bitmap n);
      })
      | inr open_slot ↦ rw open_slot (record {
        free = λ j lt. elim (dec_lt j n) [
          | yes below ↦ c.free j below
          | no last ↦ let e : j ≡ n = omega arith in rw e open_slot
        ];
        kept = λ j le. c.kept j (omega arith);
        counted = ground (arith, c.counted, c.kept n (omega arith), count-suc bitmap n);
      })
    ]

-- What `remove_swapfile` leaves of the entries, if the file's own was there.
unlinked :
    (name other : List ℕ) (o : Option ℕ) (d : Disk)
    → d.root name ≡ o
    → (unlink name o d).root other ≡ (if same_name name other then none else d.root other)
unfolding unlink
unlinked name other none d e = elim (Bool-cases (same_name name other)) [
  | inl same ↦ rw same (ap d.root (sym (same_name-eq name other same)) ∙ e)
  | inr differs ↦ rw differs refl
]
unlinked name other (some ip) d e = elim (Bool-cases (same_name name other)) [
  | inl same ↦ rw same refl
  | inr differs ↦ rw differs (elim (Bool-cases (ltb 0 (d.nlink ip))) [
    | inl linked ↦ rw linked refl
    | inr bare ↦ rw bare refl
  ])
]

-- The entries after a swap file was made.
created :
    (f : FileSystem) (name other : List ℕ) (o : Option ℕ) (p : Swap) (d : Disk)
    → same_name name other ≡ false
    → (create f name o p d).2.root other ≡ d.root other
unfolding create
created f name other none p d differs = refl
created f name other (some ip) p d differs = elim (Bool-cases f.linked) [
  | inl yes_linked ↦ rw (yes_linked, differs) refl
  | inr no_link ↦ rw no_link refl
]

alloc_elsewhere :
    (f : FileSystem) (name other : List ℕ) (o : Option ℕ) (p : Swap) (d : Disk)
    → same_name name other ≡ false
    → (alloc_from_name f name o p d).2.root other ≡ d.root other
unfolding alloc_from_name open_swapfile
alloc_elsewhere f name other (some ip) p d differs = refl
alloc_elsewhere f name other none p d differs = elim (Bool-cases f.parent_found) [
  | inr lost ↦ rw lost refl
  | inl found ↦ rw found (go (d.root name))
]
  where
    go : (o' : Option ℕ) → (open_swapfile f name o' p d).2.root other ≡ d.root other
    go none = created f name other f.ialloc p d differs
    go (some ip) = refl

removed :
    (g : FileSystem) (name : List ℕ) (ip : ℕ) (p : Swap) (d : Disk)
    → g.parent_found ≡ true
    → remove_from_name g name (some ip) p d ≡ (
      record p { swapip = none; swap_bitmap = (clear_slots swap_slots p.swap_bitmap).0 },
      unlink name (d.root name) d,
      (clear_slots swap_slots p.swap_bitmap).1,
    )
unfolding remove_from_name
removed g name ip p d found = rw found refl

-- A swap file is opened whose name was not in the root directory, and removed after any use of its
-- slots: the directory is as it was, every slot is free, the process has no swap file, and the
-- number that is logged is the number of slots that were taken.
pub swap_file_round_trip :
    (behind behind' : List ℕ) (f g : FileSystem) (p : Swap) (d : Disk) (ip : ℕ) (bitmap : ℕ → Bool)
    → d.root (entry_name (swap_path behind p.pid)) ≡ none
    → g.parent_found ≡ true
    → let used : Swap = record { pid = p.pid; swapip = some ip; swap_bitmap = bitmap } in
      let r = remove_swapfile behind' g used (alloc_swapfile behind f p d).2 in
      ((other : List ℕ) → r.1.root other ≡ d.root other)
      × ((slot : ℕ) → slot < swap_slots → r.0.swap_bitmap slot ≡ false)
      × (r.0.swapip ≡ none)
      × (r.2 ≡ count bitmap swap_slots)
unfolding alloc_swapfile remove_swapfile
swap_file_round_trip behind behind' f g p d ip bitmap absent found =
    let name = entry_name (swap_path behind p.pid) in
    let name' = entry_name (swap_path behind' p.pid) in
    let one_name : name' ≡ name = (swap_name_shared behind' behind p.pid p.pid).1 refl in
    let after : Disk = (alloc_from_name f name p.swapip p d).2 in
    let used : Swap = record { pid = p.pid; swapip = some ip; swap_bitmap = bitmap } in
    let e = removed g name' ip used after found in
    let c = clear_slots-Cleared swap_slots bitmap in
    (
      λ other.
          ap (λ x. x.1.root other) e
          ∙ unlinked name' other (after.root name') after refl
          ∙ (elim (Bool-cases (same_name name' other)) [
            | inl same ↦
                rw same (sym (ap d.root (sym (same_name-eq name' other same) ∙ one_name) ∙ absent))
            | inr differs ↦ rw differs (
                alloc_elsewhere f name other p.swapip p d
                  (subst (λ n. same_name n other ≡ false) one_name differs))
          ]),
      λ slot lt. ap (λ x. x.0.swap_bitmap slot) e ∙ c.free slot lt,
      ap (λ x. x.0.swapip) e,
      ap (λ x. x.2) e ∙ c.counted,
    )
