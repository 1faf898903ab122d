-- ===== src/Device/Pairing.antt =====
-- apps/sidewired/src/security.rs: pairing of a host with the device.
pub mod Guard
pub mod RateLimit
pub mod Hosts
pub mod Pin
pub mod Commit
