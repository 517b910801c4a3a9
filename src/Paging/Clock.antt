-- ===== src/Paging/Clock.antt =====
-- xv6-memory-management/kernel/vm.c, `try_evict_one` as it is compiled with USE_CLOCK.
use systems_suite.Prelude.{ℕ, zero, suc, ◌+◌, ◌%◌, Bool, false, Option, none, some, if◌then◌else◌}
use systems_suite.Paging.Space.{pgmeta_size, PageMeta, Space, set_meta}
use systems_suite.Paging.Evict.{is_candidate, evict_from}

-- What the hand does at an entry.
pub data Look : Type 0 where
  pass_by give_chance pick : Look

unfoldable pub look : PageMeta → Look
look m = if is_candidate m then (if m.referenced then give_chance else pick) else pass_by

-- The loop from entry `i` on, over the entries that are left of the circle.
unfoldable pub clock_scan : ℕ → ℕ → Space → Option ℕ × Space
unfolding look
clock_scan zero i s = (none, s)
clock_scan (suc left) i s = elim (look (s.pgmeta i)) [
  | pass_by ↦ clock_scan left ((i + 1) % pgmeta_size) s
  | give_chance ↦
      clock_scan left ((i + 1) % pgmeta_size)
        (set_meta i (record (s.pgmeta i) { referenced = false }) s)
  | pick ↦ (some i, s)
]

unfoldable pub clock_victim : Space → Option ℕ × Space
unfolding clock_scan
clock_victim s = clock_scan pgmeta_size (s.clock_hand % pgmeta_size) s

unfoldable pub clock_evict_one : Bool → Space → Bool × Space
clock_evict_one written s = let (victim, s') = clock_victim s in evict_from written victim s'
