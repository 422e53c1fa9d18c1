-- ===== src/Sender.antt =====
-- TCP_RUDP_Packet_Sender: files or filler sent over TCP, or over UDP with an answer to each datagram.
mod Tests
pub mod Header
pub mod Server
pub mod Client
pub mod Messages
pub mod Filler
