-- ===== src/Process.antt =====
-- xv6-memory-management/kernel/proc.c and proc.h: the process table and the schedulers.
pub mod Table
pub mod Life
pub mod Scheduler
pub mod Pids
pub mod Choice
pub mod Exits
pub mod Slices
pub mod Kills
pub mod Unassisted
mod Examples
