-- ===== src/Packet.antt =====
-- tunnel/packet_def.rs: the packet that all tunnels carry.
pub mod Crates
pub mod Layout
pub mod Header
pub mod Buffer
pub mod Foreign
pub mod Samples
mod Tests
