-- ===== src/Bakery.antt =====
-- bakery-simulator/bakery.c: the bakery and its threads.
pub mod Shop
pub mod Chefs
pub mod Threads
pub mod Capacity
pub mod Seats
pub mod Booked
pub mod Timeline
pub mod Exit
mod Examples
