-- ===== src/Parser.antt =====
-- src/json-dom-parser.c: the callbacks that build a tree of nodes from what yajl reads.
pub mod Builder
pub mod Build
pub mod Events
pub mod Steps
pub mod Moves
pub mod Adds
pub mod Laws
pub mod Parts
pub mod Cuts
pub mod Rejects
