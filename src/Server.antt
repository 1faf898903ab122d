-- ===== src/Server.antt =====
-- apps/sidewire/src/server.rs: the host's server, and the devices that are connected to it.
pub mod Trust
pub mod Handshake
pub mod Registry
pub mod Sessions
pub mod Heartbeat
pub mod Selector
pub mod Resolve
pub mod Tests
