-- ===== src/Transport.antt =====
-- reliable-transport-protocol: the S.H.A.M. protocol of client.c, server.c and sham.h.
pub mod Packet
pub mod CString
pub mod Handshake
pub mod Receiver
pub mod Stream
pub mod Window
pub mod Sender
pub mod Source
pub mod Passes
pub mod Filling
pub mod Datagrams
pub mod Early
pub mod Greeting
pub mod StartUp
pub mod Teardown
pub mod Flags
pub mod Progress
pub mod Network
pub mod Closing
pub mod Goodbye
pub mod Chat
pub mod Messages
pub mod Checksum
mod Conversations
mod Examples
