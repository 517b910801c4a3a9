-- ===== src/Paging/Growth.antt =====
-- xv6-memory-management/kernel, `growproc` and `uvmalloc`: a growth that fails.
use systems_suite.Prelude.{
  ℕ, ◌≡◌, ◌≢◌, refl, sym, subst, ap, ◌∙◌, inl, inr, Bool, true, false, Option, none, some, ◌||◌,
  leb, write, Bool-cases, ℕ_discrete,
}
use systems_suite.Paging.Space.{
  Perm, Pte, Space, pgmeta_alloc, pgmeta_clear, pgmeta_find, alloc_from, take_free, swap_free_slot,
  free_slot, take_slot, swap_slots,
}
use systems_suite.Paging.Evict.{
  Outside, unmap_victim, swap_out, evict_page, evict_from, try_evict_one, fifo_victim,
  kalloc_or_evict,
}
use systems_suite.Paging.Fault.{pgsize, zeros}
use systems_suite.Paging.Hand.{write_here, write_there}
use systems_suite.Paging.Fork.{map_into}
use systems_suite.Paging.Grow.{grown_meta, add_page}

-- Pages may have been unmapped, and none was mapped.
pub record OnlyUnmaps (s s' : Space) : Type 0 where
  pub stays : (va : ℕ) → s.pagetable va ≡ none → s'.pagetable va ≡ none
  pub same_size : s'.sz ≡ s.sz

pub write-none : (t : ℕ → Option Pte) (i va : ℕ) → t va ≡ none → write t i none va ≡ none
write-none t i va e = elim (ℕ_discrete va i) [
  | yes same ↦ subst (λ x. write t i none x ≡ none) (sym same) (write_here t i none)
  | no differs ↦ write_there t i va none differs ∙ e
]

swap_free_slot-OnlyUnmaps :
    (slot : ℕ) (s s' : Space) → OnlyUnmaps s s' → OnlyUnmaps s (swap_free_slot slot s')
unfolding swap_free_slot
swap_free_slot-OnlyUnmaps slot s s' h = elim (Bool-cases (leb swap_slots slot)) [
  | inl e ↦ rw e h
  | inr e ↦ rw e (record { stays = h.stays; same_size = h.same_size })
]

swap_out-OnlyUnmaps :
    (written : Bool) (i : ℕ) (pte : Pte) (o : Option ℕ) (s : Space)
    → OnlyUnmaps s (swap_out written i pte o s).1
unfolding swap_out unmap_victim
swap_out-OnlyUnmaps written i pte none s = record { stays = λ va e. e; same_size = refl }
swap_out-OnlyUnmaps true i pte (some slot) s = record {
  stays = λ va e. write-none s.pagetable _ va e;
  same_size = refl;
}
swap_out-OnlyUnmaps false i pte (some slot) s =
    swap_free_slot-OnlyUnmaps slot s (take_slot slot s)
      (record { stays = λ va e. e; same_size = refl })

evict_page-OnlyUnmaps :
    (written : Bool) (i : ℕ) (o : Option Pte) (s : Space)
    → OnlyUnmaps s (evict_page written i o s).1
unfolding evict_page pgmeta_clear unmap_victim
evict_page-OnlyUnmaps written i none s = record { stays = λ va e. e; same_size = refl }
evict_page-OnlyUnmaps written i (some pte) s =
    elim (Bool-cases ((s.pgmeta i).dirty || pte.perm.w)) [
      | inl e ↦ rw e (elim (Bool-cases s.has_swap) [
        | inl h ↦ simp h (swap_out-OnlyUnmaps written i pte (free_slot s) s)
        | inr h ↦ simp h (record { stays = λ va u. u; same_size = refl })
      ])
      | inr e ↦ rw e (record { stays = λ va u. write-none s.pagetable _ va u; same_size = refl })
    ]

evict_from-OnlyUnmaps :
    (written : Bool) (o : Option ℕ) (s : Space) → OnlyUnmaps s (evict_from written o s).1
unfolding evict_from
evict_from-OnlyUnmaps written none s = record { stays = λ va e. e; same_size = refl }
evict_from-OnlyUnmaps written (some i) s = evict_page-OnlyUnmaps written i _ s

kalloc_or_evict-OnlyUnmaps : (o : Outside) (s : Space) → OnlyUnmaps s (kalloc_or_evict o s).1
unfolding kalloc_or_evict try_evict_one
kalloc_or_evict-OnlyUnmaps o s = elim (Bool-cases o.kalloc) [
  | inl e ↦ simp e (record { stays = λ va u. u; same_size = refl })
  | inr e ↦ simp e (evict_from-OnlyUnmaps o.swap_written (fifo_victim s) s)
]

-- What `pgmeta_alloc` leaves alone.
record SameTable (s s' : Space) : Type 0 where
  same_table : s'.pagetable ≡ s.pagetable
  table_size : s'.sz ≡ s.sz

take_free-SameTable : (va : ℕ) (o : Option ℕ) (s : Space) → SameTable s (take_free va o s).1
unfolding take_free
take_free-SameTable va none s = record { same_table = refl; table_size = refl }
take_free-SameTable va (some i) s = record { same_table = refl; table_size = refl }

alloc_from-SameTable : (va : ℕ) (o : Option ℕ) (s : Space) → SameTable s (alloc_from va o s).1
unfolding alloc_from
alloc_from-SameTable va (some i) s = record { same_table = refl; table_size = refl }
alloc_from-SameTable va none s = take_free-SameTable va _ s

grown_meta-SameTable :
    (flags : Perm) (s : Space) (r : Option ℕ × Space)
    → SameTable s r.1
    → SameTable s (grown_meta flags r)
unfolding grown_meta
grown_meta-SameTable flags s (none, s') h = h
grown_meta-SameTable flags s (some i, s') h = record {
  same_table = h.same_table;
  table_size = h.table_size;
}

-- One page more at most, if it went well, and none otherwise.
abbrev pub Added : ℕ → Space → Bool × Space → Type 0
Added va s (true, s') =
    ((x : ℕ) → x ≢ va → s.pagetable x ≡ none → s'.pagetable x ≡ none) × (s'.sz ≡ s.sz)
Added va s (false, s') = OnlyUnmaps s s'

pgmeta_alloc-SameTable : (va : ℕ) (s : Space) → SameTable s (pgmeta_alloc va s).1
unfolding pgmeta_alloc
pgmeta_alloc-SameTable va s = alloc_from-SameTable va (pgmeta_find va s) s

mapped_there :
    (flags : Perm) (va : ℕ) (s s' : Space)
    → OnlyUnmaps s s'
    → Added va s (true, grown_meta flags (pgmeta_alloc va (map_into va flags (zeros pgsize) s')))
mapped_there flags va s s' h =
    let t = map_into va flags (zeros pgsize) s' in
    let same = grown_meta-SameTable flags t (pgmeta_alloc va t) (pgmeta_alloc-SameTable va t) in
    (
      λ x ne u. ap (λ p. p x) same.same_table ∙ write_there s'.pagetable va x _ ne ∙ h.stays x u,
      same.table_size ∙ h.same_size,
    )

pub add_page-Added :
    (o : Outside) (flags : Perm) (va : ℕ) (s : Space) → Added va s (add_page o flags va s)
unfolding add_page
add_page-Added o flags va s =
    let h = kalloc_or_evict-OnlyUnmaps o s in
    elim (Bool-cases (kalloc_or_evict o s).0) [
      | inr e ↦ simp e h
      | inl e ↦ simp e (elim (Bool-cases o.mapped) [
        | inr m ↦ simp m h
        | inl m ↦ simp m (mapped_there flags va s (kalloc_or_evict o s).1 h)
      ])
    ]
