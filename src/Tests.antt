-- ===== src/Tests.antt =====
-- Concrete runs of the model, and the theorems at concrete inputs.
mod TreeRun
pub mod ProtocolRun
pub mod DeviceRun
mod ServerRun
pub mod Streams
mod CasRun
mod NbdRun
mod ClientRun
mod ArchiveRun
mod ConfigRun
mod OpenRun
