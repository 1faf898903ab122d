-- ===== src/Frame.antt =====
-- crates/sidewire-protocol/src/frame.rs: the frame format.
pub mod Kind
pub mod Codes
pub mod Version
pub mod Negotiation
pub mod Header
pub mod RoundTrip
pub mod Canonical
pub mod Stream
pub mod Delivery
pub mod Tests
