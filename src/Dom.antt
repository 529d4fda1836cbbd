-- ===== src/Dom.antt =====
-- src/json-dom.h and src/json-dom.c: JSON documents as values. A node of the source owns its
-- children, so a document that no one else holds is a tree.
mod Node
pub mod Store
unfoldable pub use Node.*
