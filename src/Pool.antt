-- ===== src/Pool.antt =====
-- src/ioprocess.c: `requestHandler`, the thread pool that it feeds, and the slots that bound what is
-- in flight.
pub mod Slots
pub mod Handler
