-- ===== src/Client.antt =====
-- The dummy client of the emulator, 7005_NVirt/Client: it sends a queue of transfers through the
-- emulator, and acknowledges the packets that it receives.
pub mod Transfer
pub mod Node
pub mod Socket
pub mod Loop
mod Tests
