-- ===== src/Paging.antt =====
-- xv6-memory-management/kernel, vm.c, proc.c and proc.h: demand paging of one process, and the swap files.
pub mod Space
pub mod Evict
pub mod Clock
pub mod Fault
pub mod Fork
pub mod Grow
pub mod Growth
pub mod Undone
pub mod Forked
pub mod Copies
pub mod Slots
pub mod Faults
pub mod SwapFile
pub mod SwapNames
pub mod SwapEnds
pub mod Order
pub mod Hand
pub mod SecondChance
pub mod NextFault
pub mod RoundTrip
mod SwapExamples
mod ForkExamples
mod Examples
