-- ===== src/Router.antt =====
-- The network emulator, 7005_NVirt/NVirt.
pub mod Ring
pub mod Noise
pub mod Relay
