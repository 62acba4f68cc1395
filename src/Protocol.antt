-- ===== src/Protocol.antt =====
-- src/protocol: the AoE frames and the ATA commands in them.
pub mod Types
pub mod Parse
pub mod Build
pub mod Wire
pub mod RoundTrip
pub mod Bounds
