-- ===== src/Exported.antt =====
-- src/exported-functions.c: the functions that a request can name.
pub mod Common
pub mod Simple
pub mod Files
pub mod Listing
pub mod Stats
pub mod Write
pub mod Read
pub mod Probe
pub mod Laws
