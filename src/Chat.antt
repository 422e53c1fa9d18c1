-- ===== src/Chat.antt =====
-- The chat program, LinuxAssign3: a server of channels and its client, over TCP.
mod Samples
mod Tests
pub mod Stream
pub mod Packets
pub mod Channel
pub mod Scan
pub mod Server
pub mod Client
