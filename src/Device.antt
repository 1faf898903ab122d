-- ===== src/Device.antt =====
-- apps/sidewired: the device daemon.
pub mod Mux
pub mod Pairing
pub mod Handshake
pub mod Session
pub mod Outbound
pub mod Config
pub mod Shell
pub mod Completion
pub mod Tests
