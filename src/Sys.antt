-- ===== src/Sys.antt =====
-- What the program takes from its surroundings (the kernel, libc, glib), and the actions that the
-- exported functions are made of.
mod Calls
mod Monad
pub mod Cases
unfoldable pub use Calls.*
unfoldable pub use Monad.*
