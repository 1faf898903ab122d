-- ===== src/Host.antt =====
-- apps/sidewire/src: the host's side of a device connection.
pub mod Flow
pub mod Transport
pub mod Reader
pub mod Stream
pub mod Invariant
pub mod Offends
pub mod Dispatch
pub mod Open
pub mod Polls
pub mod Reachable
pub mod Tests
