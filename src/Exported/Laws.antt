-- ===== src/Exported/Laws.antt =====
-- What holds of every exported function.
pub mod Handles
pub mod Refusals
pub mod Balance
pub mod Transfers
pub mod ProbeFile
pub mod Release
