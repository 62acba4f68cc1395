-- ===== src/Nbd.antt =====
-- src/nbd: a block device served by the protocol of network block devices.
pub mod Protocol
pub mod Server
pub mod Loops
pub mod Ends
pub mod Requests
pub mod Session
