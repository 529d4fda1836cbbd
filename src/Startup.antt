-- ===== src/Startup.antt =====
-- src/ioprocess.c: what happens before the channels are opened.
pub mod Options
pub mod Descriptors
pub mod Picks
pub mod Threads
pub mod Main
pub mod Joins
pub mod Served
pub mod Laws
