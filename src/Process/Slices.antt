-- ===== src/Process/Slices.antt =====
-- xv6-memory-management/kernel/proc.c, `scheduler`: the time slices of CFS.
use systems_suite.Prelude.{ℕ, ◌*◌, ◌≤◌, ◌<◌, ◌⊎◌, arith}
use native.Mathlib.Nat.{div-mul-le_self, div-le_self}
use systems_suite.Process.Scheduler.{target_latency, min_time_slice, slice_of}

-- A slice is never below the least one nor above the latency, and the slices of up to 16 processes
-- together fit into the latency.
pub slice_bounds :
    (n : ℕ)
    → (min_time_slice ≤ slice_of n)
      × (slice_of n ≤ target_latency)
      × ((16 < n) ⊎ (slice_of n * n ≤ target_latency))
unfolding slice_of
slice_bounds n = ground (arith, div-mul-le_self 48 n, div-le_self 48 n)
