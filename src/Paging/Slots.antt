-- ===== src/Paging/Slots.antt =====
-- xv6-memory-management/kernel/vm.c: the slots of the swap file through evictions and faults.
use systems_suite.Prelude.{
  ℕ, ◌+◌, ◌<◌, ◌≡◌, refl, Bool, true, false, not, ◌&&◌, ◌||◌, Option, none, some, arith, write,
  if_both,
}
use systems_suite.Process.Choice.{Searches, first_such-Searches}
use systems_suite.Paging.Space.{
  swap_slots, Pte, PageMeta, Space, set_meta, fresh_meta, pgmeta_find, take_free, alloc_from,
  pgmeta_alloc, pgmeta_clear, free_slot, take_slot, swap_free_slot,
}
use systems_suite.Paging.Evict.{
  Outside, unmap_victim, swap_out, evict_page, evict_from, try_evict_one, kalloc_or_evict,
  fifo_victim,
}

-- Every page in the swap file has a slot of its own, whose bit is set.
pub record SlotsOk (s : Space) : Type 0 where
  pub held :
      (i : ℕ)
      → (s.pgmeta i).in_swap ≡ true
      → ((s.pgmeta i).slot < swap_slots) × (s.swap_bitmap (s.pgmeta i).slot ≡ true)
  pub apart :
      (i j : ℕ)
      → (s.pgmeta i).in_swap ≡ true
      → (s.pgmeta j).in_swap ≡ true
      → (s.pgmeta i).slot ≡ (s.pgmeta j).slot
      → i ≡ j

-- No page comes into the swap file, those in it keep their slots, and the bitmap is the same.
pub record KeepsSlots (s u : Space) : Type 0 where
  pub bits : (k : ℕ) → u.swap_bitmap k ≡ s.swap_bitmap k
  pub kept :
      (i : ℕ)
      → (u.pgmeta i).in_swap ≡ true
      → ((s.pgmeta i).in_swap ≡ true) × ((u.pgmeta i).slot ≡ (s.pgmeta i).slot)

pub KeepsSlots-SlotsOk : {s u : Space} → KeepsSlots s u → SlotsOk s → SlotsOk u
KeepsSlots-SlotsOk {s} {u} k h = record {
  held = λ i e.
      let (old, at) = k.kept i e in ground (arith, h.held i old, at, k.bits (u.pgmeta i).slot);
  apart = λ i j e f same.
      let (old_i, at_i) = k.kept i e in
      let (old_j, at_j) = k.kept j f in h.apart i j old_i old_j (ground (arith, same, at_i, at_j));
}

pub KeepsSlots-refl : (s : Space) → KeepsSlots s s
KeepsSlots-refl s = record { bits = λ k. refl; kept = λ i e. (e, refl) }

pub KeepsSlots-trans : {s u v : Space} → KeepsSlots s u → KeepsSlots u v → KeepsSlots s v
KeepsSlots-trans k l = record {
  bits = λ n. ground (arith, k.bits n, l.bits n);
  kept = λ i e. ground (arith, l.kept i e, k.kept i (l.kept i e).0);
}

-- A write of an entry that is not in the swap file, or that stays there.
pub set_meta-KeepsSlots :
    (i : ℕ) (m : PageMeta) (s : Space)
    → (m.in_swap ≡ true → ((s.pgmeta i).in_swap ≡ true) × (m.slot ≡ (s.pgmeta i).slot))
    → KeepsSlots s (set_meta i m s)
set_meta-KeepsSlots i m s h = record { bits = λ k. refl; kept = λ j e. ground (arith, h) }

take_free-KeepsSlots : (va : ℕ) (o : Option ℕ) (s : Space) → KeepsSlots s (take_free va o s).1
unfolding take_free
take_free-KeepsSlots va none s = KeepsSlots-refl s
take_free-KeepsSlots va (some i) s = set_meta-KeepsSlots i (fresh_meta va) s (λ e. cc)

alloc_from-KeepsSlots : (va : ℕ) (o : Option ℕ) (s : Space) → KeepsSlots s (alloc_from va o s).1
unfolding alloc_from
alloc_from-KeepsSlots va (some i) s = KeepsSlots-refl s
alloc_from-KeepsSlots va none s = take_free-KeepsSlots va _ s

pub pgmeta_alloc-KeepsSlots : (va : ℕ) (s : Space) → KeepsSlots s (pgmeta_alloc va s).1
unfolding pgmeta_alloc
pgmeta_alloc-KeepsSlots va s = alloc_from-KeepsSlots va (pgmeta_find va s) s

unmap_victim-KeepsSlots : (i : ℕ) (s : Space) → KeepsSlots s (unmap_victim i s)
unfolding unmap_victim
unmap_victim-KeepsSlots i s = record { bits = λ k. refl; kept = λ j e. ground arith }

-- What an eviction comes to: the slots stay in order, and where it succeeds no page leaves the swap
-- file.
pub record Evicted (s : Space) (r : Bool × Space) : Type 0 where
  pub ok : SlotsOk s → SlotsOk r.1
  pub stays : r.0 ≡ true → (i : ℕ) → (s.pgmeta i).in_swap ≡ true → (r.1.pgmeta i).in_swap ≡ true

written-SlotsOk :
    (i slot : ℕ) (pte : Pte) (s : Space)
    → slot < swap_slots
    → s.swap_bitmap slot ≡ false
    → SlotsOk s
    → SlotsOk (
        unmap_victim i (record (take_slot slot s) {
          swap_data = write s.swap_data slot pte.content;
          swap_pages = s.swap_pages + 1;
          pgmeta = write s.pgmeta i (record (s.pgmeta i) { in_swap = true; slot = slot });
        }))
unfolding unmap_victim
written-SlotsOk i slot pte s lt free h = record {
  held = λ j e. ground (arith, h.held j);
  apart = λ j k e f same. ground (arith, h.held j, h.held k, h.apart j k);
}

written-stays :
    (i slot : ℕ) (pte : Pte) (s : Space) (j : ℕ)
    → (s.pgmeta j).in_swap ≡ true
    → ((swap_out true i pte (some slot) s).1.pgmeta j).in_swap ≡ true
unfolding swap_out unmap_victim
written-stays i slot pte s j in_it = ground arith

swap_out-Evicted :
    (written : Bool) (i : ℕ) (pte : Pte) (o : Option ℕ) (s : Space)
    → Searches (λ k. not (s.swap_bitmap k)) swap_slots o
    → Evicted s (swap_out written i pte o s)
unfolding swap_out swap_free_slot
swap_out-Evicted written i pte none s f = record {
  ok = λ h. record { held = h.held; apart = h.apart };
  stays = λ e. absurd (ground (arith, e));
}
swap_out-Evicted true i pte (some slot) s f = record {
  ok = written-SlotsOk i slot pte s f.below (ground (arith, f.fits_it));
  stays = λ e j in_it. written-stays i slot pte s j in_it;
}
swap_out-Evicted false i pte (some slot) s f = record {
  ok = λ h.
      KeepsSlots-SlotsOk {s = s}
        (record { bits = λ k. ground (arith, f.fits_it, f.below); kept = λ j e. ground (arith, e) })
        h;
  stays = λ e. absurd (ground (arith, e));
}

unmapped-stays :
    (i : ℕ) (s : Space) (j : ℕ)
    → (s.pgmeta j).in_swap ≡ true
    → ((unmap_victim i s).pgmeta j).in_swap ≡ true
unfolding unmap_victim
unmapped-stays i s j in_it = ground arith

evict_page-Evicted :
    (written : Bool) (i : ℕ) (o : Option Pte) (s : Space) → Evicted s (evict_page written i o s)
unfolding evict_page pgmeta_clear free_slot
evict_page-Evicted written i none s = record {
  ok = KeepsSlots-SlotsOk (set_meta-KeepsSlots i (fresh_meta 0) s (λ e. cc));
  stays = λ e. absurd (ground (arith, e));
}
evict_page-Evicted written i (some pte) s =
    if_both (Evicted s) ((s.pgmeta i).dirty || pte.perm.w)
      (if_both (Evicted s) s.has_swap
        (swap_out-Evicted written i pte (free_slot s) s
          (first_such-Searches (λ k. not (s.swap_bitmap k)) swap_slots))
        (record {
          ok = λ h. record { held = h.held; apart = h.apart };
          stays = λ e. absurd (ground (arith, e));
        }))
      (record {
        ok = KeepsSlots-SlotsOk (unmap_victim-KeepsSlots i s);
        stays = λ e j in_it. unmapped-stays i s j in_it;
      })

and_left : (a b : Bool) → (a && b) ≡ true → a ≡ true
and_left true b e = refl
and_left false b e = e

evict_from-Evicted :
    (written : Bool) (o : Option ℕ) (s : Space) → Evicted s (evict_from written o s)
unfolding evict_from
evict_from-Evicted written none s = record { ok = λ h. h; stays = λ e i in_it. in_it }
evict_from-Evicted written (some i) s = evict_page-Evicted written i _ s

pub kalloc_or_evict-Evicted : (o : Outside) (s : Space) → Evicted s (kalloc_or_evict o s)
unfolding kalloc_or_evict try_evict_one
kalloc_or_evict-Evicted o s =
    if_both (Evicted s) o.kalloc (record { ok = λ h. h; stays = λ e i in_it. in_it })
      (let v = evict_from-Evicted o.swap_written (fifo_victim s) s in
        record { ok = v.ok; stays = λ e. v.stays (and_left _ _ e) })
