-- ===== src/Server.antt =====
-- src/ioprocess.c: how a request is looked up, served and answered.
pub mod Response
pub mod Table
pub mod Serve
pub mod Laws
pub mod Unknown
pub mod Release
