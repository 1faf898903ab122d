-- ===== src/Secure.antt =====
-- crates/sidewire-protocol/src/security.rs: encrypted frame transport.
pub mod Packet
pub mod Noise
pub mod Record
pub mod Reassembly
pub mod PacketDelivery
pub mod Transport
pub mod Delivery
pub mod RoundTrip
pub mod Tunnel
pub mod Relay
pub mod HalfClose
pub mod Tests
