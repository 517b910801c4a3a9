-- ===== src/Sniffer.antt =====
-- packet-sniffer/cshark.c: what the sniffer makes of a captured packet, and what it stores.
pub mod Bytes
pub mod Decode
pub mod Reads
pub mod Bounds
pub mod Classify
pub mod Summary
pub mod Columns
pub mod HexDump
pub mod Session
pub mod Menu
pub mod Captures
pub mod Sessions
pub mod Dumps
mod Examples
