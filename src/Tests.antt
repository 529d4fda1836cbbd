-- ===== src/Tests.antt =====
-- Runs on concrete inputs.
mod System
mod Methods
mod Probe
mod Requests
mod Pipes
mod Pool
mod Startup
mod Documents
mod Reads
mod Texts
mod Session
mod Threads
